-- ===== src/BazelDeps/Answers.antt =====
-- Resolve answers the asked classes by the jars that have them.
use tools_jvm_autodeps.Base.{
  ℕ, ◌<◌, ◌≡◌, refl, inl, inr, true, ◌||◌, Option, none, some, List, [], ◌∷◌, ◌++◌, arith, is_some,
  Option-cases, Eq, Text, nat_eq, text_eq,
}
use tools_jvm_autodeps.GoMap.{GoMap, contains, lookup, get, put}
use tools_jvm_autodeps.PkgLoading.{ok, Loader, Packages, IsConsistent}
use tools_jvm_autodeps.Bazel.{Rule, Package}
use tools_jvm_autodeps.Jadeplib.{ClassName, DepsOfRules}
use tools_jvm_autodeps.BazelDeps.{Search, all_rules, new_resolver, top_of, resolve_all, resolve}
use tools_jvm_autodeps.BazelDeps.Jars.{imports}
use tools_jvm_autodeps.BazelDeps.Listed.{in_jar, IsWithin, new_resolver-Listed}
use tools_jvm_autodeps.BazelDeps.Tops.{Above, IsRank, contains-appended, resolve-AreTops}

value_of : {A : Type 0} (x : Option A) → is_some x ≡ true → (a : A) × (x ≡ some a)
value_of none h = cc
value_of (some a) h = (a, refl)

module _ {Ref : Type 0} ⦃e : Eq Ref⦄ (deref : Ref → Rule) (jar_files : Text → List Text)
    (workspace : Text → Option (Package Ref)) where
  -- The result is for classes that are asked for.
  resolve_all_asked :
      (fuel : ℕ) (s : Search Ref) (result done : GoMap ClassName (List Ref))
      (class_names : List ClassName)
      → resolve_all deref jar_files fuel s result class_names ≡ some done
      → (cls : ClassName) (t : Ref) → contains t (get [] cls done) ≡ true
      → (contains t (get [] cls result) || contains cls class_names) ≡ true
  unfolding resolve_all
  resolve_all_asked fuel s result done [] ran cls t h = ground arith
  resolve_all_asked fuel s result done (c ∷ class_names) ran cls t h =
      elim (Option-cases (lookup c s.class_to_rule)) [
        | inl missing ↦
            ground (arith, resolve_all_asked fuel s result done class_names (ground arith) cls t h)
        | inr (rule, there) ↦ elim (Option-cases (top_of deref jar_files fuel s.parent rule)) [
          | inl stuck ↦ ground arith
          | inr (top, found) ↦
              let next = put c (get [] c result ++ top ∷ []) result in
              let rest : resolve_all deref jar_files fuel s next class_names ≡ some done =
                ground arith in
              ground (
                arith,
                resolve_all_asked fuel s next done class_names rest cls t h,
                contains-appended c cls top t result,
              )
        ]
      ]

  -- Each answer is for an asked class that a java_import of the workspace has in a jar. It exports
  -- that rule, through other rules or by being it, and has no parent itself.
  abbrev pub AreAnswers : Search Ref → List ClassName → GoMap ClassName (List Ref) → Type 0
  AreAnswers s class_names result =
      (cls : ClassName) (t : Ref)
      → contains t (get [] cls result) ≡ true
      → (contains cls class_names ≡ true)
        × ((rule : Ref) × (in_jar deref jar_files workspace rule cls ≡ true)
            × Above deref jar_files workspace rule t
            × (lookup t s.parent ≡ none))

  -- Each asked class in a jar of a rule of the directory has an answer.
  abbrev pub AreFound : Packages Ref → List ClassName → GoMap ClassName (List Ref) → Type 0
  AreFound pkgs class_names result =
      (cls : ClassName) (rule : Ref)
      → contains cls class_names ≡ true
      → contains rule (all_rules deref jar_files pkgs) ≡ true
      → imports deref jar_files pkgs rule cls ≡ true
      → (t : Ref) × (contains t (get [] cls result) ≡ true)

  -- For a loader that returns packages of one workspace only, whose exports have no cycles, and a
  -- resolver that NewResolver made, Resolve returns, with fuel above the ranks. It answers only asked
  -- classes, each with rules that export a java_import that has the class in one of its jars, through
  -- other rules or by being it, and that have no parent themselves. It answers each asked class in a
  -- jar of a java_import of the packages of the directory.
  pub resolve-AreAnswers :
      {E : Type 0} (load : Loader E Ref) (all_packages : Text → Text → List Text) (layers : ℕ)
      (workspace_dir third_party_dir : Text) (pkgs : Packages Ref) (s : Search Ref) (rank : Ref → ℕ)
      (fuel : ℕ) (class_names : List ClassName) (consuming_rules : DepsOfRules)
      → IsConsistent load workspace
      → IsWithin deref jar_files workspace load
      → load (all_packages workspace_dir third_party_dir) ≡ ok pkgs
      → new_resolver deref jar_files all_packages layers load workspace_dir third_party_dir ≡ ok s
      → IsRank deref jar_files workspace rank
      → ((r : Ref) → rank r < fuel)
      → (result : GoMap ClassName (List Ref)) × (resolve deref jar_files fuel s class_names
            consuming_rules
          ≡ some result)
        × AreAnswers s class_names result
        × AreFound pkgs class_names result
  unfolding resolve
  resolve-AreAnswers load all_packages layers workspace_dir third_party_dir pkgs s rank fuel
        class_names consuming_rules c within loaded made falls enough =
      let (result, ran, tops, all) =
        resolve-AreTops deref jar_files workspace load all_packages layers workspace_dir
          third_party_dir s rank fuel class_names consuming_rules c made falls enough in
      let (listed, complete) =
        new_resolver-Listed deref jar_files workspace load within all_packages layers workspace_dir
          third_party_dir pkgs s loaded made in
      (
        result,
        ran,
        (λ cls t i.
            let (rule, there, (above, top)) = tops cls t i in
            (
              resolve_all_asked fuel s [] result class_names ran cls t i,
              (rule, listed.known cls rule there, above, top),
            )),
        λ cls rule asked inside is.
            let (owner, there) =
              value_of (lookup cls s.class_to_rule) (complete rule cls inside is) in
            all cls owner asked there,
      )
