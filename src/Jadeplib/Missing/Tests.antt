-- ===== src/Jadeplib/Missing/Tests.antt =====
-- A rule whose file uses a class of another package.
use tools_jvm_autodeps.Base.{
  ℕ, zero, suc, ◌≡◌, refl, Bool, none, [], ◌∷◌, nat_eq, text_eq, Text, Option, length, ◌*◌, arith,
  ◌⊎◌, inl, inr,
}
use tools_jvm_autodeps.GoMap.{GoMap}
use tools_jvm_autodeps.Strings.{codes, has_prefix, trim_prefix, index, trim_left_slash, index_byte}
use tools_jvm_autodeps.Sorting.{sort_by, text_less}
use tools_jvm_autodeps.Bazel.{
  Rule, Attr, rule_label, make_label, name, string_list_attr, label_list_attr, split, parse_labels,
  parse_relative_label, parse_absolute_label, parse_at, check_parts, Package, Label,
}
use tools_jvm_autodeps.PkgLoading.{Loader, ok, load_package_groups, find_group}
use tools_jvm_autodeps.Filter.{is_valid_dependency, local_visible_to, entries_visible_to}
use tools_jvm_autodeps.Filter.Search.{
  VisQuery, vis_query_eq, check_visibility, Outcome, loop, layer, start, granted_queries,
  undecided_queries, pkg_groups_in_visibility, offer_groups, offer, answer, visit_group,
  visit_labels, visit_nodes, drop_decided, labels,
}
use tools_jvm_autodeps.Jadeplib.{
  Resolver, append_rules, take_answers, stage, resolve_loop, all_names, resolve_all,
}
use tools_jvm_autodeps.Jadeplib.Missing.{
  found, parse_deps, deps, deps_of_rules, already_satisfied, add_valid, add_queries, candidates_for,
  queries_for, filtered_candidates, vis_query, labels_of, visible, missing_for, missing_rules,
  sort_classes, sort_dependencies, missing_deps, Missing,
}
use tools_jvm_autodeps.Filter.Search.Ends.{IsUniverse}
use tools_jvm_autodeps.Jadeplib.Missing.Ends.{query_of, missing_deps_returns}
use tools_jvm_autodeps.Jadeplib.Missing.Correct.{IsProposal, resolved_of, missing_deps_sound}

abbrev deref : ℕ → Rule
deref zero = record {
  schema = codes "java_library";
  pkg_name = codes "a";
  attrs = (codes "name", Attr.str (codes "x")) ∷ [];
}
deref (suc n) = record {
  schema = codes "java_library";
  pkg_name = codes "b";
  attrs =
      (codes "name", Attr.str (codes "y"))
      ∷ (codes "visibility", Attr.strs (codes "//visibility:public" ∷ []))
      ∷ [];
}

abbrev load : Loader ℕ ℕ
load names = ok []

abbrev resolver : Resolver ℕ ℕ
resolver names rule_deps = ((codes "C", 1 ∷ []) ∷ [], none)

missing_runs :
    missing_deps deref load (resolver ∷ []) text_less 3 (0 ∷ []) (codes "C" ∷ codes "D" ∷ [])
    ≡ found ((0, (codes "C", codes "//b:y" ∷ []) ∷ []) ∷ []) (codes "D" ∷ [])
unfolding missing_deps deps_of_rules already_satisfied add_valid add_queries candidates_for
    queries_for filtered_candidates vis_query labels_of visible missing_for missing_rules
    sort_classes sort_dependencies deps parse_deps resolve_all resolve_loop stage take_answers
    append_rules all_names sort_by rule_label make_label name string_list_attr is_valid_dependency
    check_visibility loop layer start granted_queries undecided_queries pkg_groups_in_visibility
    offer_groups offer answer visit_group visit_labels visit_nodes drop_decided labels
    local_visible_to entries_visible_to split label_list_attr load_package_groups trim_prefix
    parse_labels parse_relative_label has_prefix parse_absolute_label index trim_left_slash
    index_byte parse_at check_parts
missing_runs = refl

missing_deps_sound_example :
    (vis_result : GoMap (VisQuery ℕ) Bool) × (check_visibility deref load 3 (
        vis_query deref
          (deps_of_rules deref [] (0 ∷ []))
          (resolved_of deref (resolver ∷ []) (0 ∷ []) (codes "C" ∷ codes "D" ∷ []))
          []
          (0 ∷ []))
      ≡ Outcome.done vis_result)
    × IsProposal deref
        (deps_of_rules deref [] (0 ∷ []))
        (resolved_of deref (resolver ∷ []) (0 ∷ []) (codes "C" ∷ codes "D" ∷ []))
        vis_result
        0
        (codes "C")
        (codes "//b:y")
missing_deps_sound_example =
    missing_deps_sound deref load (resolver ∷ []) text_less 3 (0 ∷ []) (codes "C" ∷ codes "D" ∷ [])
      ((0, (codes "C", codes "//b:y" ∷ []) ∷ []) ∷ []) (codes "D" ∷ []) 0
      ((codes "C", codes "//b:y" ∷ []) ∷ []) (codes "C") (codes "//b:y" ∷ []) (codes "//b:y")
      missing_runs refl refl refl

abbrev workspace : Text → Option (Package ℕ)
workspace n = none

visibility_of :
    (r : ℕ)
    → (label_list_attr (deref r) (codes "visibility") ≡ [])
      ⊎ (label_list_attr (deref r) (codes "visibility") ≡ codes "//visibility:public" ∷ [])
unfolding label_list_attr parse_labels parse_relative_label has_prefix parse_absolute_label index
    trim_left_slash index_byte parse_at check_parts make_label
visibility_of zero = inl refl
visibility_of (suc n) = inr refl

no_group : (x : Label) → find_group workspace x ≡ none
unfolding find_group
no_group x = refl

no_groups :
    IsUniverse deref load workspace
      (query_of deref (resolver ∷ []) (0 ∷ []) (codes "C" ∷ []))
      (codes "//visibility:public" ∷ [])
no_groups = record {
  named = λ w x n. elim (visibility_of w.rule) [
    | inl e ↦ ground (arith, rw e at n)
    | inr e ↦ ground (arith, rw e at n)
  ];
  included = λ x inc g h m. ground (arith, no_group x);
}

missing_deps_returns_example :
    (missing : Missing ℕ) × (missing_deps deref load
        (resolver ∷ [])
        text_less
        (suc (length (query_of deref (resolver ∷ []) (0 ∷ []) (codes "C" ∷ [])) * 1))
        (0 ∷ [])
        (codes "C" ∷ [])
      ≡ found missing
          (resolve_all
            (resolver ∷ [])
            (codes "C" ∷ [])
            (deps_of_rules deref [] (0 ∷ []))).unresolved)
missing_deps_returns_example =
    missing_deps_returns deref load workspace (codes "//visibility:public" ∷ []) (resolver ∷ [])
      text_less (0 ∷ []) (codes "C" ∷ []) (λ names pkgs h n m. ground arith) (λ names. ([], refl))
      no_groups
