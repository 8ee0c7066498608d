-- ===== src/BazelDeps/Listed.antt =====
-- The search of NewResolver lists the jars of the rules that it visits.
use tools_jvm_autodeps.Base.{
  ℕ, zero, suc, ◌≡◌, refl, sym, ap, ◌∙◌, subst, inl, inr, Bool, true, false, ◌&&◌, Option, some,
  List, [], ◌∷◌, arith, is_some, Bool-cases, Option-cases, Eq, ◌==◌, Text, nat_eq, text_eq,
}
use tools_jvm_autodeps.GoMap.{GoMap, contains, lookup, put}
use tools_jvm_autodeps.GoMap.Entries.{Every, Every-put, IsEntry-of_lookup}
use tools_jvm_autodeps.Strings.{codes}
use tools_jvm_autodeps.Paths.{is_abs}
use tools_jvm_autodeps.PkgLoading.{
  Result-cases, >>=-eq-ok, ok, Loader, Packages, load_rules, distinct_pkgs,
}
use tools_jvm_autodeps.Bazel.{Label, Rule, Package}
use tools_jvm_autodeps.Jadeplib.{ClassName}
use tools_jvm_autodeps.BazelDeps.{
  Search, Layer, next_labels, next_layer, put_pkgs, search_layers, all_rules, new_resolver,
}
use tools_jvm_autodeps.BazelDeps.Jars.{
  jars_have, imports, lookup-next_labels, owner_sound, owner_keeps, owner_complete,
}

and_false : (b : Bool) → (b && false) ≡ false
and_false b = ground arith

module _ {Ref : Type 0} ⦃e : Eq Ref⦄ (deref : Ref → Rule) (jar_files : Text → List Text)
    (workspace : Text → Option (Package Ref)) where
  -- whether a rule of the workspace is a java_import that has the class in one of its jars
  abbrev pub in_jar : Ref → ClassName → Bool
  in_jar rule cls =
      (deref rule).schema == codes "java_import"
      && jars_have deref jar_files rule cls (workspace (deref rule).pkg_name)

  abbrev InWorkspace : Packages Ref → Type 0
  InWorkspace pkgs = Every (λ n pkg. workspace n ≡ some pkg) pkgs

  -- What a loader returns are packages of the workspace, also those that were not asked for.
  abbrev pub IsWithin : {E : Type 0} → Loader E Ref → Type 0
  IsWithin {E} load =
      (names : List Text) (pkgs : Packages Ref) → load names ≡ ok pkgs → InWorkspace pkgs

  in_jar-imports :
      (pkgs : Packages Ref) (rule : Ref) (cls : ClassName)
      → InWorkspace pkgs
      → imports deref jar_files pkgs rule cls ≡ true
      → in_jar rule cls ≡ true
  in_jar-imports pkgs rule cls within h = elim (Option-cases (lookup (deref rule).pkg_name pkgs)) [
    | inl missing ↦
        let off : imports deref jar_files pkgs rule cls ≡ false =
          ap
            (λ found.
              (deref rule).schema == codes "java_import"
              && jars_have deref jar_files rule cls found)
            missing
          ∙ and_false ((deref rule).schema == codes "java_import") in
        cc
    | inr (pkg, there) ↦
        let same : workspace (deref rule).pkg_name ≡ lookup (deref rule).pkg_name pkgs =
          within (deref rule).pkg_name pkg (IsEntry-of_lookup (deref rule).pkg_name pkg pkgs there)
          ∙ sym there in
        ap
          (λ found.
            (deref rule).schema == codes "java_import" && jars_have deref jar_files rule cls found)
          same
        ∙ h
  ]

  put_pkgs-InWorkspace :
      (pkgs new_pkgs : Packages Ref)
      → InWorkspace pkgs
      → InWorkspace new_pkgs
      → InWorkspace (put_pkgs deref jar_files pkgs new_pkgs)
  unfolding put_pkgs
  put_pkgs-InWorkspace pkgs [] a b = a
  put_pkgs-InWorkspace pkgs ((n, pkg) ∷ new_pkgs) a b =
      put_pkgs-InWorkspace (put n pkg pkgs) new_pkgs
        (Every-put (λ k p. workspace k ≡ some p) n pkg pkgs (b n pkg (inl (refl, refl))) a)
        (λ k p i. b k p (inr i))

  module _ {E : Type 0} (load : Loader E Ref) (within : IsWithin load) where
    load_rules-InWorkspace :
        (labels : List Label) (rules : GoMap Label Ref) (pkgs : Packages Ref)
        → load_rules load labels ≡ ok (rules, pkgs)
        → InWorkspace pkgs
    unfolding load_rules
    load_rules-InWorkspace [] rules pkgs h =
        let same : [] ≡ pkgs = cc in subst (λ p. InWorkspace p) same (λ k p i. cc)
    load_rules-InWorkspace (l ∷ ls) rules pkgs h =
        let (found, rest, one) = >>=-eq-ok (load (distinct_pkgs (l ∷ ls))) _ h in
        let same : found ≡ pkgs = cc in
        subst (λ p. InWorkspace p) same (within (distinct_pkgs (l ∷ ls)) found one)

    -- what the search keeps of the classes
    pub record Listed (s : Search Ref) : Type 0 where
      pub known : (c : ClassName) (r : Ref) → lookup c s.class_to_rule ≡ some r → in_jar r c ≡ true
      pub inside : InWorkspace s.pkgs

    next_labels-Listed :
        (s : Search Ref) (layer : Layer Ref) (rules : List Ref)
        → Listed s
        → Listed (next_labels deref jar_files (s, layer) rules).0
    next_labels-Listed s layer rules h = record {
      known = λ c r there.
          let (classes, pkgs) = lookup-next_labels deref jar_files s layer rules c in
          elim (owner_sound deref jar_files s.pkgs c rules (lookup c s.class_to_rule) r
            (sym classes ∙ there)) [
              | inl is ↦ in_jar-imports s.pkgs r c h.inside is
              | inr before ↦ h.known c r before
            ];
      inside =
          subst (λ p. InWorkspace p) (sym (lookup-next_labels deref jar_files s layer rules []).1)
            h.inside;
    }

    abbrev Grows : Search Ref → Search Ref → Type 0
    Grows s t =
        (c : ClassName)
        → is_some (lookup c s.class_to_rule) ≡ true
        → is_some (lookup c t.class_to_rule) ≡ true

    next_labels-Grows :
        (s : Search Ref) (layer : Layer Ref) (rules : List Ref)
        → Grows s (next_labels deref jar_files (s, layer) rules).0
    next_labels-Grows s layer rules c h =
        ap is_some (lookup-next_labels deref jar_files s layer rules c).0
        ∙ owner_keeps deref jar_files s.pkgs c rules (lookup c s.class_to_rule) h

    search_layers-Listed :
        (fuel : ℕ) (s done : Search Ref) (layer : List Ref)
        → Listed s
        → search_layers deref jar_files fuel load s layer ≡ ok done
        → Listed done
          × Grows s done
          × ((rule : Ref) (c : ClassName)
              → contains rule layer ≡ true
              → imports deref jar_files s.pkgs rule c ≡ true
              → is_some (lookup c done.class_to_rule) ≡ true)
    unfolding search_layers
    search_layers-Listed zero s done [] h ran =
        let same : s ≡ done = cc in
        (
          subst (λ (t : Search Ref). Listed t) same h,
          subst (Grows s) same (λ c i. i),
          λ r c i k. cc,
        )
    search_layers-Listed (suc fuel) s done [] h ran =
        let same : s ≡ done = cc in
        (
          subst (λ (t : Search Ref). Listed t) same h,
          subst (Grows s) same (λ c i. i),
          λ r c i k. cc,
        )
    search_layers-Listed zero s done (rule ∷ layer) h ran = cc
    search_layers-Listed (suc fuel) s done (rule ∷ layer) h ran =
        let start : Layer Ref = record { to_load = []; parent_labels = [] } in
        let (later, next) = next_labels deref jar_files (s, start) (rule ∷ layer) in
        let listed : Listed later = next_labels-Listed s start (rule ∷ layer) h in
        elim (Result-cases (load_rules load next.to_load)) [
          | inr (error, e') ↦ ground arith
          | inl ((rules, pkgs), e') ↦
              let filled = next_layer deref jar_files rules (later.parent, []) next.parent_labels in
              let loaded : Search Ref = record later {
                parent = filled.0;
                pkgs = put_pkgs deref jar_files later.pkgs pkgs;
              } in
              let go_on : search_layers deref jar_files fuel load loaded filled.1 ≡ ok done =
                ground arith in
              let (end, grows, more) =
                search_layers-Listed fuel loaded done filled.1
                  (record {
                    known = listed.known;
                    inside =
                        put_pkgs-InWorkspace later.pkgs pkgs listed.inside
                          (load_rules-InWorkspace next.to_load rules pkgs e');
                  })
                  go_on in
              (
                end,
                (λ c i. grows c (next_labels-Grows s start (rule ∷ layer) c i)),
                λ r c i is. grows c (
                    ap is_some (lookup-next_labels deref jar_files s start (rule ∷ layer) c).0
                    ∙ owner_complete deref jar_files s.pkgs c (rule ∷ layer)
                        (lookup c s.class_to_rule) r i is),
              )
        ]

    -- NewResolver knows a class by a java_import that has it in a jar, and it knows all the classes in
    -- the jars of the rules of the directory.
    pub new_resolver-Listed :
        (all_packages : Text → Text → List Text) (fuel : ℕ) (workspace_dir third_party_dir : Text)
        (pkgs : Packages Ref) (done : Search Ref)
        → load (all_packages workspace_dir third_party_dir) ≡ ok pkgs
        → new_resolver deref jar_files all_packages fuel load workspace_dir third_party_dir
          ≡ ok done
        → Listed done
          × ((rule : Ref) (c : ClassName)
              → contains rule (all_rules deref jar_files pkgs) ≡ true
              → imports deref jar_files pkgs rule c ≡ true
              → is_some (lookup c done.class_to_rule) ≡ true)
    unfolding new_resolver
    new_resolver-Listed all_packages fuel workspace_dir third_party_dir pkgs done loaded ran =
        let s : Search Ref = record {
          parent = [];
          class_to_rule = [];
          seen_labels = [];
          pkgs = pkgs;
        } in
        elim (Bool-cases (is_abs third_party_dir)) [
          | inl absolute ↦ ground arith
          | inr relative ↦
              let (listed, grows, all) =
                search_layers-Listed fuel s done (all_rules deref jar_files pkgs)
                  (record {
                    known = λ c r there. cc;
                    inside = within (all_packages workspace_dir third_party_dir) pkgs loaded;
                  })
                  (ground arith) in
              (listed, all)
        ]
