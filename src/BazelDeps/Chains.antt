-- ===== src/BazelDeps/Chains.antt =====
-- The parents that NewResolver records export their children.
use tools_jvm_autodeps.Base.{
  ℕ, zero, suc, ◌≡◌, refl, sym, ◌∙◌, subst, subst₂, inl, inr, true, Option, some, List, [], ◌∷◌,
  ◌++◌, arith, Bool-cases, Option-cases, Eq, ◌==◌, Text, text_beq_iff, nat_eq, text_eq,
}
use tools_jvm_autodeps.GoMap.{GoMap, contains, lookup, put, lookup-put, contains-concat}
use tools_jvm_autodeps.GoMap.Entries.{Every, Every-put, IsEntry}
use tools_jvm_autodeps.Paths.{is_abs}
use tools_jvm_autodeps.PkgLoading.{Result-cases, ok, Loader, IsConsistent, load_rules, find_rule}
use tools_jvm_autodeps.PkgLoading.Lookup.{lookup-load_rules}
use tools_jvm_autodeps.Bazel.{Label, Rule, Package}
use tools_jvm_autodeps.BazelDeps.{
  Search, Layer, candidates_of, visit_rule, list_jar, add_labels, next_labels, next_layer, put_pkgs,
  search_layers, all_rules, new_resolver,
}

module _ {Ref : Type 0} ⦃e : Eq Ref⦄ (deref : Ref → Rule) (jar_files : Text → List Text)
    (workspace : Text → Option (Package Ref)) where
  abbrev pub candidates : Ref → List Label
  candidates v = candidates_of deref jar_files (deref v)

  -- `v` names the rule `r` among its exports, or as what it binds.
  abbrev pub Exports : Ref → Ref → Type 0
  Exports v r = (u : Label) × (contains u (candidates v) ≡ true) × (find_rule workspace u ≡ some r)

  abbrev IsCandidate : Label → Ref → Type 0
  IsCandidate u v = contains u (candidates v) ≡ true

  abbrev IsAsked : List Label → Label → Ref → Type 0
  IsAsked to_load u v = contains u to_load ≡ true

  abbrev pub AreParents : GoMap Ref Ref → Type 0
  AreParents parent = (r v : Ref) → lookup r parent ≡ some v → Exports v r

  record IsLayer (layer : Layer Ref) : Type 0 where
    named : Every IsCandidate layer.parent_labels
    asked : Every (IsAsked layer.to_load) layer.parent_labels

  add_labels-IsLayer :
      (rule : Ref) (s : Search Ref) (layer : Layer Ref) (cs : List Label)
      → ((c : Label) → contains c cs ≡ true → contains c (candidates rule) ≡ true)
      → IsLayer layer
      → IsLayer (add_labels deref jar_files rule (s, layer) cs).1
        × ((add_labels deref jar_files rule (s, layer) cs).0.parent ≡ s.parent)
  unfolding add_labels
  add_labels-IsLayer rule s layer [] inside h = (h, refl)
  add_labels-IsLayer rule s layer (c ∷ cs) inside h =
      let more = λ (d : Label) (i : contains d cs ≡ true). inside d (ground arith) in
      elim (Bool-cases (contains c s.seen_labels)) [
        | inl seen ↦ rw seen (add_labels-IsLayer rule s layer cs more h)
        | inr new ↦ rw new (
            add_labels-IsLayer rule (record s { seen_labels = s.seen_labels ++ c ∷ [] })
              (record {
                to_load = layer.to_load ++ c ∷ [];
                parent_labels = put c rule layer.parent_labels;
              })
              cs more
              (record {
                named =
                    Every-put IsCandidate c rule layer.parent_labels
                      (inside c (ground (arith, text_beq_iff c c))) h.named;
                asked =
                    Every-put (IsAsked (layer.to_load ++ c ∷ [])) c rule layer.parent_labels
                      (ground (arith, contains-concat c c layer.to_load, text_beq_iff c c))
                      (λ u v i. ground (arith, contains-concat u c layer.to_load, h.asked u v i));
              }))
      ]

  visit_rule-parent :
      (rule : Ref) (s : Search Ref) → (visit_rule deref jar_files rule s).parent ≡ s.parent
  unfolding visit_rule list_jar
  visit_rule-parent rule s = ground arith

  next_labels-IsLayer :
      (s : Search Ref) (layer : Layer Ref) (rules : List Ref)
      → IsLayer layer
      → IsLayer (next_labels deref jar_files (s, layer) rules).1
        × ((next_labels deref jar_files (s, layer) rules).0.parent ≡ s.parent)
  unfolding next_labels
  next_labels-IsLayer s layer [] h = (h, refl)
  next_labels-IsLayer s layer (rule ∷ rules) h =
      let visited = visit_rule deref jar_files rule s in
      let added = add_labels deref jar_files rule (visited, layer) (candidates rule) in
      let (one, same) = add_labels-IsLayer rule visited layer (candidates rule) (λ c i. i) h in
      let (all, kept) = next_labels-IsLayer added.0 added.1 rules one in
      (all, kept ∙ (same ∙ visit_rule-parent rule s))

  next_layer-AreParents :
      (rules : GoMap Label Ref) (parent : GoMap Ref Ref) (layer : List Ref)
      (labels : GoMap Label Ref)
      → Every IsCandidate labels
      → ((u : Label) (v r : Ref)
          → IsEntry u v labels
          → lookup u rules ≡ some r
          → find_rule workspace u ≡ some r)
      → AreParents parent
      → AreParents (next_layer deref jar_files rules (parent, layer) labels).0
  unfolding next_layer
  next_layer-AreParents rules parent layer [] named known h = h
  next_layer-AreParents rules parent layer ((u, v) ∷ labels) named known h =
      let rest = λ (w : Label) (x : Ref) (i : IsEntry w x labels). named w x (inr i) in
      let more = λ (w : Label) (x r : Ref) (i : IsEntry w x labels). known w x r (inr i) in
      let go = λ (p : GoMap Ref Ref) (l : List Ref). next_layer deref jar_files rules (p, l) in
      elim (Option-cases (lookup u rules)) [
        | inl e' ↦
            let step : go parent layer ((u, v) ∷ labels) ≡ go parent layer labels = ground arith in
            subst (λ p. AreParents p.0) (sym step)
              (next_layer-AreParents rules parent layer labels rest more h)
        | inr (ru, e') ↦
            let step : go parent layer ((u, v) ∷ labels)
                ≡ go (put ru v parent) (layer ++ ru ∷ []) labels =
              ground arith in
            subst (λ p. AreParents p.0) (sym step)
              (next_layer-AreParents rules (put ru v parent) (layer ++ ru ∷ []) labels rest more
                (λ r x there. elim (Bool-cases (ru == r)) [
                  | inl same ↦
                      let at_r = lookup-put ru r v parent in
                      subst₂ Exports (ground arith) ((e.beq_iff ru r).0 same)
                        (u, named u v (inl (refl, refl)), known u v ru (inl (refl, refl)) e')
                  | inr other ↦ h r x (ground (arith, lookup-put ru r v parent))
                ]))
      ]

  module _ {E : Type 0} (load : Loader E Ref) (c : IsConsistent load workspace) where
    search_layers-AreParents :
        (fuel : ℕ) (s done : Search Ref) (layer : List Ref)
        → AreParents s.parent
        → search_layers deref jar_files fuel load s layer ≡ ok done
        → AreParents done.parent
    unfolding search_layers
    search_layers-AreParents zero s done [] h ran =
        let same : s ≡ done = cc in subst (λ (t : Search Ref). AreParents t.parent) same h
    search_layers-AreParents (suc fuel) s done [] h ran =
        let same : s ≡ done = cc in subst (λ (t : Search Ref). AreParents t.parent) same h
    search_layers-AreParents zero s done (rule ∷ layer) h ran = cc
    search_layers-AreParents (suc fuel) s done (rule ∷ layer) h ran =
        let start : Layer Ref = record { to_load = []; parent_labels = [] } in
        let (later, next) = next_labels deref jar_files (s, start) (rule ∷ layer) in
        let (is_layer, same) =
          next_labels-IsLayer s start (rule ∷ layer)
            (record { named = λ u v i. cc; asked = λ u v i. cc }) in
        elim (Result-cases (load_rules load next.to_load)) [
          | inr (error, e') ↦ ground arith
          | inl ((rules, pkgs), e') ↦
              let filled = next_layer deref jar_files rules (later.parent, []) next.parent_labels in
              let go_on : search_layers deref jar_files fuel load
                    (record later {
                      parent = filled.0;
                      pkgs = put_pkgs deref jar_files later.pkgs pkgs;
                    })
                    filled.1
                  ≡ ok done =
                ground arith in
              let known =
                λ (u : Label) (v r : Ref) (i : IsEntry u v next.parent_labels)
                    (l : lookup u rules ≡ some r).
                  sym (
                    lookup-load_rules load workspace c next.to_load rules pkgs e' u
                      (is_layer.asked u v i))
                  ∙ l in
              search_layers-AreParents fuel
                (record later {
                  parent = filled.0;
                  pkgs = put_pkgs deref jar_files later.pkgs pkgs;
                })
                done filled.1
                (next_layer-AreParents rules later.parent [] next.parent_labels is_layer.named known
                  (subst AreParents (sym same) h))
                go_on
        ]

    -- Every parent that NewResolver records exports the rule, or binds it.
    pub new_resolver-AreParents :
        (all_packages : Text → Text → List Text) (fuel : ℕ) (workspace_dir third_party_dir : Text)
        (done : Search Ref)
        → new_resolver deref jar_files all_packages fuel load workspace_dir third_party_dir
          ≡ ok done
        → AreParents done.parent
    unfolding new_resolver
    new_resolver-AreParents all_packages fuel workspace_dir third_party_dir done ran =
        elim (Bool-cases (is_abs third_party_dir)) [
          | inl absolute ↦ ground arith
          | inr relative ↦ elim (Result-cases (load (all_packages workspace_dir third_party_dir))) [
            | inr (error, e') ↦ ground arith
            | inl (pkgs, e') ↦
                search_layers-AreParents fuel
                  (record { parent = []; class_to_rule = []; seen_labels = []; pkgs = pkgs }) done
                  (all_rules deref jar_files pkgs) (λ r v there. cc) (ground arith)
          ]
        ]
