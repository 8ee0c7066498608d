-- ===== src/Jadeplib/Missing/Ends.antt =====
-- MissingDeps returns.
use tools_jvm_autodeps.Base.{
  ℕ, suc, ◌*◌, ◌≡◌, Bool, Option, List, [], arith, length, Eq, Text, nat_eq, text_eq,
}
use tools_jvm_autodeps.GoMap.{GoMap}
use tools_jvm_autodeps.Bazel.{Label, Rule, Package}
use tools_jvm_autodeps.PkgLoading.{Loader, ok, IsConsistent}
use tools_jvm_autodeps.Filter.Search.{VisQuery, vis_query_eq, check_visibility, Outcome}
use tools_jvm_autodeps.Filter.Search.Ends.{IsUniverse, check_visibility_ends}
use tools_jvm_autodeps.Jadeplib.{ClassName, Resolver, resolve_all}
use tools_jvm_autodeps.Jadeplib.Missing.{
  Missing, found, deps_of_rules, vis_query, missing_deps, sort_dependencies, missing_rules,
  filtered_candidates,
}
use tools_jvm_autodeps.Jadeplib.Missing.Correct.{resolved_of}

-- what MissingDeps asks CheckVisibility
abbrev pub query_of :
    {E Ref : Type 0} ⦃e : Eq Ref⦄
    → (Ref → Rule)
    → List (Resolver E Ref)
    → List Ref
    → List ClassName
    → List (VisQuery Ref)
query_of deref resolvers rules class_names =
    vis_query deref (deps_of_rules deref [] rules) (resolved_of deref resolvers rules class_names)
      [] rules

missing_deps-found :
    {E Ref : Type 0} ⦃e : Eq Ref⦄ (deref : Ref → Rule) (load : Loader E Ref)
    (resolvers : List (Resolver E Ref)) (less : Label → Label → Bool) (fuel : ℕ) (rules : List Ref)
    (class_names : List ClassName) (ret : GoMap (VisQuery Ref) Bool)
    → check_visibility deref load fuel (query_of deref resolvers rules class_names)
      ≡ Outcome.done ret
    → missing_deps deref load resolvers less fuel rules class_names
      ≡ found
          (sort_dependencies deref less (
            missing_rules deref ret [] (
              filtered_candidates deref
                (deps_of_rules deref [] rules)
                (resolved_of deref resolvers rules class_names)
                []
                rules)))
          (resolve_all resolvers class_names (deps_of_rules deref [] rules)).unresolved
unfolding missing_deps
missing_deps-found deref load resolvers less fuel rules class_names ret f = ground arith

-- Where the loader returns the packages of one workspace without errors, and a finite list holds all
-- package groups that can be reached, MissingDeps returns without an error, with the fuel that
-- CheckVisibility needs for its query, and reports as unresolved what resolveAll does.
pub missing_deps_returns :
    {E Ref : Type 0} ⦃e : Eq Ref⦄ (deref : Ref → Rule) (load : Loader E Ref)
    (workspace : Text → Option (Package Ref)) (universe : List Label)
    (resolvers : List (Resolver E Ref)) (less : Label → Label → Bool) (rules : List Ref)
    (class_names : List ClassName)
    → IsConsistent load workspace
    → ((names : List Text) → (pkgs : GoMap Text (Package Ref)) × (load names ≡ ok pkgs))
    → IsUniverse deref load workspace (query_of deref resolvers rules class_names) universe
    → (missing : Missing Ref) × (missing_deps deref load resolvers less
          (suc (length (query_of deref resolvers rules class_names) * length universe))
          rules
          class_names
        ≡ found missing
            (resolve_all resolvers class_names (deps_of_rules deref [] rules)).unresolved)
missing_deps_returns deref load workspace universe resolvers less rules class_names c total u =
    let (ret, f) =
      check_visibility_ends deref load workspace (query_of deref resolvers rules class_names)
        universe c total u in
    (
      sort_dependencies deref less (
          missing_rules deref ret [] (
            filtered_candidates deref (deps_of_rules deref [] rules)
              (resolved_of deref resolvers rules class_names) [] rules)),
      missing_deps-found deref load resolvers less _ rules class_names ret f,
    )
