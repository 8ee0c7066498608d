-- ===== src/BazelDeps/Tops.antt =====
-- Resolve goes from the rule of a class up the recorded parents.
use tools_jvm_autodeps.Base.{
  ℕ, zero, suc, ◌<◌, ◌≡◌, refl, ap, ◌∙◌, subst, inl, inr, true, ◌&&◌, ◌||◌, Option, none, some,
  List, [], ◌∷◌, ◌++◌, arith, Bool-cases, Option-cases, Eq, ◌==◌, Text, text_beq_iff, nat_eq,
  text_eq, beq_refl,
}
use tools_jvm_autodeps.GoMap.{GoMap, contains, lookup, get, put, get-put, contains-concat}
use tools_jvm_autodeps.PkgLoading.{ok, Loader, IsConsistent}
use tools_jvm_autodeps.Bazel.{Rule, Package}
use tools_jvm_autodeps.Jadeplib.{ClassName, DepsOfRules}
use tools_jvm_autodeps.BazelDeps.{Search, new_resolver, top_of, resolve_all, resolve}
use tools_jvm_autodeps.BazelDeps.Chains.{Exports, AreParents, new_resolver-AreParents}

-- what an appended rule adds to the members of an entry
pub contains-appended :
    {Ref : Type 0} ⦃e : Eq Ref⦄ (c cls : ClassName) (top t : Ref) (m : GoMap ClassName (List Ref))
    → contains t (get [] cls (put c (get [] c m ++ top ∷ []) m))
      ≡ (contains t (get [] cls m) || (c == cls && top == t))
contains-appended c cls top t m =
    ap (contains t) (get-put [] c cls (get [] c m ++ top ∷ []) m) ∙ elim (Bool-cases (c == cls)) [
      | inl same ↦ rw same (
          contains-concat t top (get [] c m)
          ∙ ap (λ k. contains t (get [] k m) || top == t) ((text_beq_iff c cls).0 same))
      | inr other ↦ rw other (ground arith)
    ]

module _ {Ref : Type 0} ⦃e : Eq Ref⦄ (deref : Ref → Rule) (jar_files : Text → List Text)
    (workspace : Text → Option (Package Ref)) where
  -- `t` exports `r` through other rules, or is `r`.
  pub data Above : Ref → Ref → Type 0 where
    here : {r : Ref} → Above r r
    up : {r v t : Ref} → Exports deref jar_files workspace v r → Above v t → Above r t

  -- Exports have no cycles: what exports a rule has a smaller rank.
  abbrev pub IsRank : (Ref → ℕ) → Type 0
  IsRank rank = (v r : Ref) → Exports deref jar_files workspace v r → rank v < rank r

  abbrev pub IsTop : GoMap Ref Ref → Ref → Ref → Type 0
  IsTop parent rule top = Above rule top × (lookup top parent ≡ none)

  top_of_total :
      (rank : Ref → ℕ) (parent : GoMap Ref Ref)
      → IsRank rank
      → AreParents deref jar_files workspace parent
      → (fuel : ℕ) (r : Ref) → rank r < fuel
      → (t : Ref) × (top_of deref jar_files fuel parent r ≡ some t) × IsTop parent r t
  unfolding top_of
  top_of_total rank parent falls are zero r enough = absurd (omega arith)
  top_of_total rank parent falls are (suc fuel) r enough = elim (Option-cases (lookup r parent)) [
    | inl e' ↦ (r, ground arith, (here, e'))
    | inr (v, e') ↦
        let less = falls v r (are r v e') in
        let (t, ran, (above, top)) = top_of_total rank parent falls are fuel v (omega arith) in
        (t, ground arith, (up (are r v e') above, top))
  ]

  -- what each class of the result stands for
  abbrev pub AreTops : Search Ref → GoMap ClassName (List Ref) → Type 0
  AreTops s result =
      (cls : ClassName) (t : Ref)
      → contains t (get [] cls result) ≡ true
      → (rule : Ref) × (lookup cls s.class_to_rule ≡ some rule) × IsTop s.parent rule t

  -- every asked class with a rule has an answer
  abbrev pub AreAnswered : Search Ref → List ClassName → GoMap ClassName (List Ref) → Type 0
  AreAnswered s class_names result =
      (cls : ClassName) (rule : Ref)
      → contains cls class_names ≡ true
      → lookup cls s.class_to_rule ≡ some rule
      → (t : Ref) × (contains t (get [] cls result) ≡ true)

  abbrev Grows : GoMap ClassName (List Ref) → GoMap ClassName (List Ref) → Type 0
  Grows result done =
      (cls : ClassName) (t : Ref)
      → contains t (get [] cls result) ≡ true
      → contains t (get [] cls done) ≡ true

  module _ (rank : Ref → ℕ) (falls : IsRank rank) (s : Search Ref)
      (are : AreParents deref jar_files workspace s.parent) (fuel : ℕ)
      (enough : (r : Ref) → rank r < fuel) where
    resolve_all_total :
        (result : GoMap ClassName (List Ref)) (class_names : List ClassName)
        → AreTops s result
        → (done : GoMap ClassName (List Ref)) × (resolve_all deref jar_files fuel s result
              class_names
            ≡ some done)
          × AreTops s done
          × AreAnswered s class_names done
          × Grows result done
    unfolding resolve_all
    resolve_all_total result [] tops = (result, refl, tops, (λ cls rule i l. cc), λ cls t i. i)
    resolve_all_total result (c ∷ class_names) tops =
        elim (Option-cases (lookup c s.class_to_rule)) [
          | inl e' ↦
              let (done, ran, good, all, grows) = resolve_all_total result class_names tops in
              (
                done,
                ground arith,
                good,
                (λ cls rule i l.
                    all cls rule
                      (ground (arith, text_beq_iff c cls, ap (λ k. lookup k s.class_to_rule))) l),
                grows,
              )
          | inr (rule, e') ↦
              let (top, found, is_top) =
                top_of_total rank s.parent falls are fuel rule (enough rule) in
              let next = put c (get [] c result ++ top ∷ []) result in
              let (done, ran, good, all, grows) = resolve_all_total next class_names (λ cls t i.
                elim (Bool-cases (c == cls && top == t)) [
                  | inl new ↦
                      let same : c ≡ cls = (text_beq_iff c cls).0 (ground arith) in
                      let is_t : top ≡ t = (e.beq_iff top t).0 (ground arith) in
                      (
                        rule,
                        subst (λ k. lookup k s.class_to_rule ≡ some rule) same e',
                        subst (IsTop s.parent rule) is_t is_top,
                      )
                  | inr old ↦ tops cls t (ground (arith, contains-appended c cls top t result))
                ]) in
              (
                done,
                ground arith,
                good,
                (λ cls r i l. elim (Bool-cases (c == cls)) [
                  | inl same ↦ (
                    top,
                    grows cls top
                        (ground (arith, contains-appended c cls top top result, beq_refl top)),
                  )
                  | inr other ↦ all cls r (ground arith) l
                ]),
                (λ cls t i. grows cls t (ground (arith, contains-appended c cls top t result))),
              )
        ]

  -- For a loader of one workspace whose exports have no cycles, Resolve returns, with fuel above the
  -- ranks. The answers for a class export the rule that the class is known by, through other rules or
  -- by being it, and have no parent themselves. Each asked class that is known has an answer.
  pub resolve-AreTops :
      {E : Type 0} (load : Loader E Ref) (all_packages : Text → Text → List Text) (layers : ℕ)
      (workspace_dir third_party_dir : Text) (s : Search Ref) (rank : Ref → ℕ) (fuel : ℕ)
      (class_names : List ClassName) (consuming_rules : DepsOfRules)
      → IsConsistent load workspace
      → new_resolver deref jar_files all_packages layers load workspace_dir third_party_dir ≡ ok s
      → IsRank rank
      → ((r : Ref) → rank r < fuel)
      → (result : GoMap ClassName (List Ref)) × (resolve deref jar_files fuel s class_names
            consuming_rules
          ≡ some result)
        × AreTops s result
        × AreAnswered s class_names result
  unfolding resolve
  resolve-AreTops load all_packages layers workspace_dir third_party_dir s rank fuel class_names
        consuming_rules c made falls enough =
      let are =
        new_resolver-AreParents deref jar_files workspace load c all_packages layers workspace_dir
          third_party_dir s made in
      let (result, ran, tops, all, grows) =
        resolve_all_total rank falls s are fuel enough [] class_names (λ cls t i. cc) in
      (result, ran, tops, all)
