-- ===== src/Jadeplib/Missing/Correct.antt =====
-- Every dependency that MissingDeps proposes is one that the rule may have and lacks.
use tools_jvm_autodeps.Base.{
  ℕ, ◌≡◌, refl, ap, subst, subst₂, ◌⊎◌, inl, inr, Bool, true, some, List, [], ◌∷◌, arith, Eq,
  nat_eq, text_eq,
}
use tools_jvm_autodeps.GoMap.{GoMap, contains, lookup, get}
use tools_jvm_autodeps.Sorting.{contains-sort_by}
use tools_jvm_autodeps.Bazel.{Label, Rule, rule_label}
use tools_jvm_autodeps.PkgLoading.{Loader}
use tools_jvm_autodeps.Filter.Search.{VisQuery, vis_query_eq, check_visibility, Outcome}
use tools_jvm_autodeps.Jadeplib.{ClassName, DepsOfRules, Resolver, resolve_all}
use tools_jvm_autodeps.Jadeplib.Missing.{
  Missing, found, deps_of_rules, filtered_candidates, vis_query, missing_for, put_missing,
  missing_rules, sort_classes, sort_dependencies, missing_deps,
}
use tools_jvm_autodeps.Jadeplib.Missing.Sound.{
  IsCandidate, candidates_for-IsCandidate, candidates_of, filtered_candidates-Every,
}
use tools_jvm_autodeps.GoMap.Entries.{IsEntry, Every, IsEntry-of_lookup, Every-put}
use tools_jvm_autodeps.Jadeplib.Missing.Proposed.{IsChoice, Choices, missing_for-Choices}

Outcome-cases :
    {E Ref : Type 0} (o : Outcome E Ref)
    → ((v : GoMap (VisQuery Ref) Bool) × (o ≡ Outcome.done v))
      ⊎ (((x : E) × (o ≡ Outcome.failed x)) ⊎ (o ≡ Outcome.out_of_fuel))
Outcome-cases (Outcome.done v) = inl (v, refl)
Outcome-cases (Outcome.failed x) = inr (inl (x, refl))
Outcome-cases Outcome.out_of_fuel = inr (inr refl)

module _ {Ref : Type 0} ⦃e : Eq Ref⦄ (deref : Ref → Rule) where
  module _ (vis_result : GoMap (VisQuery Ref) Bool) (rule_deps : DepsOfRules)
      (resolved : GoMap ClassName (List Ref)) where
    -- the choices for one rule
    abbrev ChoicesFor : Ref → GoMap ClassName (List Label) → Type 0
    ChoicesFor r m =
        Choices deref vis_result (deref r).pkg_name (candidates_of deref rule_deps resolved r) m

    put_missing-Every :
        (r : Ref) (m : GoMap ClassName (List Label)) (missing : Missing Ref)
        → ChoicesFor r m
        → Every ChoicesFor missing
        → Every ChoicesFor (put_missing deref r m missing)
    put_missing-Every r [] missing c h = h
    put_missing-Every r (x ∷ m) missing c h = Every-put ChoicesFor r (x ∷ m) missing c h

    missing_rules-Every :
        (missing : Missing Ref) (rules : GoMap Ref (GoMap ClassName (List Ref)))
        → Every (λ r c. c ≡ candidates_of deref rule_deps resolved r) rules
        → Every ChoicesFor missing
        → Every ChoicesFor (missing_rules deref vis_result missing rules)
    unfolding missing_rules
    missing_rules-Every missing [] f h = h
    missing_rules-Every missing ((r, candidates) ∷ rules) f h =
        let m = missing_for deref vis_result (deref r).pkg_name [] candidates in
        missing_rules-Every (put_missing deref r m missing) rules (λ x c i. f x c (inr i))
          (put_missing-Every r m missing
            (missing_for-Choices deref vis_result (deref r).pkg_name
              (candidates_of deref rule_deps resolved r) [] candidates
              (λ cls cs i. subst (IsEntry cls cs) (f r candidates (inl (refl, refl))) i)
              (λ cls ls i. cc))
            h)

    sort_classes-Choices :
        (less : Label → Label → Bool) (r : Ref) (m : GoMap ClassName (List Label))
        → ChoicesFor r m
        → ChoicesFor r (sort_classes deref less m)
    unfolding sort_classes
    sort_classes-Choices less r [] h = h
    sort_classes-Choices less r ((c, ls) ∷ m) h = λ cls labels i. elim i [
      | inl (a, b) ↦ λ l k.
          h cls ls (inl (a, refl)) l (ground (arith, contains-sort_by less ls l, ap (contains l) b))
      | inr rest ↦ sort_classes-Choices less r m (λ x y j. h x y (inr j)) cls labels rest
    ]

    sort_dependencies-Every :
        (less : Label → Label → Bool) (missing : Missing Ref)
        → Every ChoicesFor missing
        → Every ChoicesFor (sort_dependencies deref less missing)
    unfolding sort_dependencies
    sort_dependencies-Every less [] h = h
    sort_dependencies-Every less ((r, m) ∷ missing) h = λ x y i. elim i [
      | inl (a, b) ↦
          subst₂ ChoicesFor a b (sort_classes-Choices less r m (h r m (inl (refl, refl))))
      | inr rest ↦ sort_dependencies-Every less missing (λ x y j. h x y (inr j)) x y rest
    ]

  -- what the resolvers found, and what CheckVisibility is asked
  abbrev pub resolved_of :
      {E : Type 0} → List (Resolver E Ref) → List Ref → List ClassName → GoMap ClassName (List Ref)
  resolved_of resolvers rules class_names =
      (resolve_all resolvers class_names (deps_of_rules deref [] rules)).resolved

  -- A label that is proposed to `r` for a class.
  pub record IsProposal (rule_deps : DepsOfRules) (resolved : GoMap ClassName (List Ref))
      (vis_result : GoMap (VisQuery Ref) Bool) (r : Ref) (cls : ClassName) (l : Label)
      : Type 0 where
    pub choice :
        IsChoice deref vis_result
          (deref r).pkg_name
          (candidates_of deref rule_deps resolved r)
          cls
          l
    pub candidate :
        IsCandidate deref
          (rule_label (deref r))
          (get [] (rule_label (deref r)) rule_deps)
          resolved
          cls
          choice.chosen

  -- Where MissingDeps returns, each label that it proposes to a rule for a class is the label of a
  -- rule that a resolver found for the class and that is a valid dependency; none of the rules that
  -- were found for the class is the rule itself or one of its dependencies; and by what
  -- CheckVisibility answered, it is visible, unless no candidate for the class is.
  pub missing_deps_sound :
      {E : Type 0} (load : Loader E Ref) (resolvers : List (Resolver E Ref))
      (less : Label → Label → Bool) (fuel : ℕ) (rules : List Ref) (class_names : List ClassName)
      (missing : Missing Ref) (unresolved : List ClassName) (r : Ref)
      (m : GoMap ClassName (List Label)) (cls : ClassName) (labels : List Label) (l : Label)
      → missing_deps deref load resolvers less fuel rules class_names ≡ found missing unresolved
      → lookup r missing ≡ some m
      → lookup cls m ≡ some labels
      → contains l labels ≡ true
      → (vis_result : GoMap (VisQuery Ref) Bool) × (check_visibility deref load fuel (
            vis_query deref
              (deps_of_rules deref [] rules)
              (resolved_of resolvers rules class_names)
              []
              rules)
          ≡ Outcome.done vis_result)
        × IsProposal
            (deps_of_rules deref [] rules)
            (resolved_of resolvers rules class_names)
            vis_result
            r
            cls
            l
  unfolding missing_deps
  missing_deps_sound load resolvers less fuel rules class_names missing unresolved r m cls labels l
        h a b c =
      let rule_deps = deps_of_rules deref [] rules in
      let resolved = resolved_of resolvers rules class_names in
      let filtered = filtered_candidates deref rule_deps resolved [] rules in
      let asked = check_visibility deref load fuel (vis_query deref rule_deps resolved [] rules) in
      elim (Outcome-cases asked) [
        | inl (v, answered) ↦
            let all =
              missing_rules-Every v rule_deps resolved [] filtered
                (filtered_candidates-Every deref rule_deps resolved [] rules (λ x y i. cc))
                (λ x y i. cc) in
            let sorted =
              sort_dependencies-Every v rule_deps resolved less (missing_rules deref v [] filtered)
                all in
            let same : sort_dependencies deref less (missing_rules deref v [] filtered) ≡ missing =
              ground arith in
            let choice =
              sorted r m (IsEntry-of_lookup r m _ (ground arith)) cls labels
                (IsEntry-of_lookup cls labels m b) l c in
            (
              v,
              answered,
              record {
                choice = choice;
                candidate =
                    candidates_for-IsCandidate deref (rule_label (deref r))
                      (get [] (rule_label (deref r)) rule_deps) resolved cls choice.cs choice.entry
                      choice.chosen choice.among;
              },
            )
        | inr (inl (x, fails)) ↦ ground arith
        | inr (inr stops) ↦ ground arith
      ]
