-- ===== src/Jadeplib/Missing.antt =====
-- MissingDeps of jadeplib/jadeplib.go.
--
-- Each loop that fills a map and the query of the visibilities at once is two functions here, one
-- for what it fills.
pub mod Sound
pub mod Proposed
pub mod Correct
pub mod Ends
pub mod Tests
use tools_jvm_autodeps.Base.{
  ℕ, Bool, false, ◌||◌, List, [], ◌∷◌, ◌++◌, if◌then◌else◌, Eq, ◌==◌, Text, nat_eq, text_eq,
}
use tools_jvm_autodeps.GoMap.{GoMap, contains, add, get, put}
use tools_jvm_autodeps.Strings.{codes}
use tools_jvm_autodeps.Sorting.{sort_by}
use tools_jvm_autodeps.Bazel.{
  Label, Rule, string_list_attr, parse_relative_label, rule_label, ok, err,
}
use tools_jvm_autodeps.PkgLoading.{Loader}
use tools_jvm_autodeps.Filter.{is_valid_dependency}
use tools_jvm_autodeps.Filter.Search.{VisQuery, vis_query_eq, check_visibility, Outcome}
use tools_jvm_autodeps.Jadeplib.{ClassName, DepsOfRules, Resolver, resolve_all}

-- what MissingDeps returns
abbrev pub Missing : Type 0 → Type 0
Missing Ref = GoMap Ref (GoMap ClassName (List Label))

pub data Answer (E Ref : Type 0) : Type 0 where
  found : Missing Ref → List ClassName → Answer E Ref
  failed : E → Answer E Ref
  out_of_fuel : Answer E Ref

-- the loop of deps
pub parse_deps : Text → List Label → List Text → List Label
parse_deps pkg ret [] = ret
parse_deps pkg ret (d ∷ ds) =
    parse_deps pkg (elim (parse_relative_label pkg d) [ ok l ↦ add l ret | err e ↦ ret ]) ds

-- deps
pub deps : Rule → List Label
unfolding parse_deps
deps rule = parse_deps rule.pkg_name [] (string_list_attr rule (codes "deps"))

module _ {Ref : Type 0} ⦃e : Eq Ref⦄ (deref : Ref → Rule) where
  pub deps_of_rules : DepsOfRules → List Ref → DepsOfRules
  deps_of_rules m [] = m
  deps_of_rules m (r ∷ rules) = deps_of_rules (put (rule_label (deref r)) (deps (deref r)) m) rules

  -- alreadySatisfied
  pub already_satisfied : Label → List Label → List Ref → Bool
  already_satisfied consuming existing [] = false
  already_satisfied consuming existing (r ∷ rules) =
      rule_label (deref r) == consuming
      || contains (rule_label (deref r)) existing
      || already_satisfied consuming existing rules

  -- the loop over the rules that satisfy a class: candidates, and queries
  pub add_valid : ClassName → GoMap ClassName (List Ref) → List Ref → GoMap ClassName (List Ref)
  add_valid cls m [] = m
  add_valid cls m (r ∷ rules) =
      add_valid cls
        (if is_valid_dependency (deref r) then put cls (get [] cls m ++ r ∷ []) m else m) rules

  pub add_queries : Text → List (VisQuery Ref) → List Ref → List (VisQuery Ref)
  add_queries pkg query [] = query
  add_queries pkg query (r ∷ rules) =
      add_queries pkg
        (if is_valid_dependency (deref r)
          then add (record { rule = r; pkg = pkg }) query
          else query)
        rules

  -- the loop over the resolved classes
  pub candidates_for :
      Label
      → List Label
      → GoMap ClassName (List Ref)
      → GoMap ClassName (List Ref)
      → GoMap ClassName (List Ref)
  candidates_for lbl existing m [] = m
  candidates_for lbl existing m ((cls, rules) ∷ resolved) =
      candidates_for lbl existing
        (if already_satisfied lbl existing rules then m else add_valid cls m rules) resolved

  pub queries_for :
      Label
      → List Label
      → Text
      → List (VisQuery Ref)
      → GoMap ClassName (List Ref)
      → List (VisQuery Ref)
  queries_for lbl existing pkg query [] = query
  queries_for lbl existing pkg query ((cls, rules) ∷ resolved) =
      queries_for lbl existing pkg
        (if already_satisfied lbl existing rules then query else add_queries pkg query rules)
        resolved

  -- the loop over the rules that are to be fixed
  pub filtered_candidates :
      DepsOfRules
      → GoMap ClassName (List Ref)
      → GoMap Ref (GoMap ClassName (List Ref))
      → List Ref
      → GoMap Ref (GoMap ClassName (List Ref))
  filtered_candidates rule_deps resolved m [] = m
  filtered_candidates rule_deps resolved m (r ∷ rules) =
      let lbl = rule_label (deref r) in
      filtered_candidates rule_deps resolved
        (put r (candidates_for lbl (get [] lbl rule_deps) [] resolved) m) rules

  pub vis_query :
      DepsOfRules
      → GoMap ClassName (List Ref)
      → List (VisQuery Ref)
      → List Ref
      → List (VisQuery Ref)
  vis_query rule_deps resolved query [] = query
  vis_query rule_deps resolved query (r ∷ rules) =
      let lbl = rule_label (deref r) in
      vis_query rule_deps resolved
        (queries_for lbl (get [] lbl rule_deps) (deref r).pkg_name query resolved) rules

  pub labels_of : List Ref → List Label
  labels_of [] = []
  labels_of (r ∷ rules) = rule_label (deref r) ∷ labels_of rules

  -- the labels of the rules that are visible
  pub visible : GoMap (VisQuery Ref) Bool → Text → List Ref → List Label
  visible vis_result pkg [] = []
  visible vis_result pkg (r ∷ rules) =
      let rest = visible vis_result pkg rules in
      if get false (record { rule = r; pkg = pkg }) vis_result
      then rule_label (deref r) ∷ rest
      else rest

  abbrev pub or_all : List Label → List Label → List Label
  or_all [] all = all
  or_all (l ∷ ls) all = l ∷ ls

  pub missing_for :
      GoMap (VisQuery Ref) Bool
      → Text
      → GoMap ClassName (List Label)
      → GoMap ClassName (List Ref)
      → GoMap ClassName (List Label)
  missing_for vis_result pkg m [] = m
  missing_for vis_result pkg m ((cls, rules) ∷ candidates) =
      missing_for vis_result pkg
        (put cls (or_all (visible vis_result pkg rules) (labels_of rules)) m) candidates

  abbrev pub put_missing : Ref → GoMap ClassName (List Label) → Missing Ref → Missing Ref
  put_missing r [] missing = missing
  put_missing r (entry ∷ m) missing = put r (entry ∷ m) missing

  pub missing_rules :
      GoMap (VisQuery Ref) Bool → Missing Ref → GoMap Ref (GoMap ClassName (List Ref)) → Missing Ref
  missing_rules vis_result missing [] = missing
  missing_rules vis_result missing ((r, candidates) ∷ rules) =
      missing_rules vis_result
        (put_missing r (missing_for vis_result (deref r).pkg_name [] candidates) missing) rules

  -- sortDependencies
  pub sort_classes :
      (Label → Label → Bool) → GoMap ClassName (List Label) → GoMap ClassName (List Label)
  sort_classes less [] = []
  sort_classes less ((cls, labels) ∷ m) = (cls, sort_by less labels) ∷ sort_classes less m

  pub sort_dependencies : (Label → Label → Bool) → Missing Ref → Missing Ref
  sort_dependencies less [] = []
  sort_dependencies less ((r, m) ∷ missing) =
      (r, sort_classes less m) ∷ sort_dependencies less missing

  -- MissingDeps, with the fuel of CheckVisibility
  pub missing_deps :
      {E : Type 0}
      → Loader E Ref
      → List (Resolver E Ref)
      → (Label → Label → Bool)
      → ℕ
      → List Ref
      → List ClassName
      → Answer E Ref
  missing_deps load resolvers less fuel rules_to_fix class_names =
      let rule_deps = deps_of_rules [] rules_to_fix in
      let s = resolve_all resolvers class_names rule_deps in
      let filtered = filtered_candidates rule_deps s.resolved [] rules_to_fix in
      elim (check_visibility deref load fuel (vis_query rule_deps s.resolved [] rules_to_fix)) [
        | Outcome.done vis_result ↦
            found (sort_dependencies less (missing_rules vis_result [] filtered)) s.unresolved
        | Outcome.failed error ↦ Answer.failed error
        | Outcome.out_of_fuel ↦ Answer.out_of_fuel
      ]
