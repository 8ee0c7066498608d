-- ===== src/Jadeplib/Missing/Sound.antt =====
-- What MissingDeps proposes.
use tools_jvm_autodeps.Base.{
  ◌≡◌, refl, subst, inl, inr, true, false, List, [], ◌∷◌, ◌++◌, arith, Bool-cases, Eq, ◌==◌,
  text_beq_iff, nat_eq, text_eq,
}
use tools_jvm_autodeps.GoMap.{GoMap, contains, get, put, contains-concat}
use tools_jvm_autodeps.GoMap.Entries.{IsEntry, Every, Every-put}
use tools_jvm_autodeps.Bazel.{Label, Rule, rule_label}
use tools_jvm_autodeps.Filter.{is_valid_dependency}
use tools_jvm_autodeps.Filter.Search.{vis_query_eq}
use tools_jvm_autodeps.Jadeplib.{ClassName, DepsOfRules}
use tools_jvm_autodeps.Jadeplib.Missing.{
  already_satisfied, add_valid, candidates_for, filtered_candidates,
}

module _ {Ref : Type 0} ⦃e : Eq Ref⦄ (deref : Ref → Rule) where
  -- A rule that may be proposed for a class to a rule with the label and dependencies: it is among
  -- what was resolved for the class, it is a valid dependency, and none of what was resolved is
  -- the rule itself or one of its dependencies.
  pub record IsCandidate (consuming : Label) (existing : List Label)
      (resolved : GoMap ClassName (List Ref)) (cls : ClassName) (r : Ref) : Type 0 where
    pub rules : List Ref
    pub resolved_to : IsEntry cls rules resolved
    pub listed : contains r rules ≡ true
    pub valid : is_valid_dependency (deref r) ≡ true
    pub missing : already_satisfied deref consuming existing rules ≡ false

  abbrev pub All : (Ref → Type 0) → List Ref → Type 0
  All P rules = (r : Ref) → contains r rules ≡ true → P r

  get-All :
      (P : ClassName → Ref → Type 0) (cls : ClassName) (m : GoMap ClassName (List Ref))
      → Every (λ c rules. All (P c) rules) m
      → All (P cls) (get [] cls m)
  get-All P cls [] h r i = cc
  get-All P cls ((c, rules) ∷ m) h r i = elim (Bool-cases (c == cls)) [
    | inl same ↦ h cls rules (inl ((text_beq_iff c cls).0 same, refl)) r (ground arith)
    | inr other ↦ get-All P cls m (λ k v j. h k v (inr j)) r (ground arith)
  ]

  add_valid-Every :
      (P : ClassName → Ref → Type 0) (cls : ClassName) (m : GoMap ClassName (List Ref))
      (rules : List Ref)
      → ((r : Ref) → contains r rules ≡ true → is_valid_dependency (deref r) ≡ true → P cls r)
      → Every (λ c rs. All (P c) rs) m
      → Every (λ c rs. All (P c) rs) (add_valid deref cls m rules)
  unfolding add_valid
  add_valid-Every P cls m [] p h = h
  add_valid-Every P cls m (r ∷ rules) p h = elim (Bool-cases (is_valid_dependency (deref r))) [
    | inl valid ↦ rw valid (
        add_valid-Every P cls (put cls (get [] cls m ++ r ∷ []) m) rules (λ x i. p x (ground arith))
          (Every-put (λ c rs. All (P c) rs) cls (get [] cls m ++ r ∷ []) m
            (λ x i. elim (Bool-cases (r == x)) [
              | inl same ↦
                  subst (P cls) ((e.beq_iff r x).0 same) (p r (ground (arith, e.beq_iff r r)) valid)
              | inr other ↦ get-All P cls m h x (ground (arith, contains-concat x r (get [] cls m)))
            ])
            h))
    | inr not_valid ↦ rw not_valid (add_valid-Every P cls m rules (λ x i. p x (ground arith)) h)
  ]

  -- All candidates of the loop over the resolved classes.
  candidates_for-Every :
      (P : ClassName → Ref → Type 0) (lbl : Label) (existing : List Label)
      (m : GoMap ClassName (List Ref)) (resolved : GoMap ClassName (List Ref))
      → ((cls : ClassName) (rules : List Ref)
          → IsEntry cls rules resolved
          → already_satisfied deref lbl existing rules ≡ false
          → (r : Ref) → contains r rules ≡ true
          → is_valid_dependency (deref r) ≡ true
          → P cls r)
      → Every (λ c rs. All (P c) rs) m
      → Every (λ c rs. All (P c) rs) (candidates_for deref lbl existing m resolved)
  unfolding candidates_for
  candidates_for-Every P lbl existing m [] p h = h
  candidates_for-Every P lbl existing m ((cls, rules) ∷ resolved) p h =
      elim (Bool-cases (already_satisfied deref lbl existing rules)) [
        | inl has ↦
            rw has (candidates_for-Every P lbl existing m resolved (λ c rs i. p c rs (inr i)) h)
        | inr lacks ↦ rw lacks (
            candidates_for-Every P lbl existing (add_valid deref cls m rules) resolved
              (λ c rs i. p c rs (inr i))
              (add_valid-Every P cls m rules (p cls rules (inl (refl, refl)) lacks) h))
      ]

  -- For one consuming rule.
  pub candidates_for-IsCandidate :
      (lbl : Label) (existing : List Label) (resolved : GoMap ClassName (List Ref))
      → Every
          (λ c rs. All (IsCandidate lbl existing resolved c) rs)
          (candidates_for deref lbl existing [] resolved)
  candidates_for-IsCandidate lbl existing resolved =
      candidates_for-Every (IsCandidate lbl existing resolved) lbl existing [] resolved
        (λ cls rules i lacks r j valid. record {
          rules = rules;
          resolved_to = i;
          listed = j;
          valid = valid;
          missing = lacks;
        })
        (λ c rs n. cc)

  -- the candidates of one rule that is to be fixed
  abbrev pub candidates_of :
      DepsOfRules → GoMap ClassName (List Ref) → Ref → GoMap ClassName (List Ref)
  candidates_of rule_deps resolved r =
      let lbl = rule_label (deref r) in candidates_for deref lbl (get [] lbl rule_deps) [] resolved

  pub filtered_candidates-Every :
      (rule_deps : DepsOfRules) (resolved : GoMap ClassName (List Ref))
      (m : GoMap Ref (GoMap ClassName (List Ref))) (rules : List Ref)
      → Every (λ r c. c ≡ candidates_of rule_deps resolved r) m
      → Every
          (λ r c. c ≡ candidates_of rule_deps resolved r)
          (filtered_candidates deref rule_deps resolved m rules)
  unfolding filtered_candidates
  filtered_candidates-Every rule_deps resolved m [] h = h
  filtered_candidates-Every rule_deps resolved m (r ∷ rules) h =
      let here = candidates_of rule_deps resolved r in
      filtered_candidates-Every rule_deps resolved (put r here m) rules
        (Every-put (λ r c. c ≡ candidates_of rule_deps resolved r) r here m refl h)
