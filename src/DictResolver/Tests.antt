-- ===== src/DictResolver/Tests.antt =====
-- A class that a consuming rule has already, one that is loaded, and one that the map does not have.
use tools_jvm_autodeps.Base.{ℕ, ◌≡◌, refl, none, some, List, [], ◌∷◌, nat_eq, text_eq}
use tools_jvm_autodeps.GoMap.{GoMap, lookup}
use tools_jvm_autodeps.Strings.{
  codes, has_prefix, index, index_byte, count_slash_slash, trim_left_slash, base, after_last,
}
use tools_jvm_autodeps.Bazel.{
  parse_absolute_label, parse_at, check_parts, make_label, split, new_rule,
}
use tools_jvm_autodeps.PkgLoading.{ok, load_rules, distinct_pkgs, distinct_from, collect, find_rule}
use tools_jvm_autodeps.PkgLoading.Tests.{workspace, load, load-IsConsistent}
use tools_jvm_autodeps.ResolverUtil.{
  first_satisfying, cover, class_loop, satisfied_by_existing_deps,
}
use tools_jvm_autodeps.Jadeplib.{ClassName, DepsOfRules}
use tools_jvm_autodeps.DictResolver.{
  Dict, Found, loaded, made, candidates_of, delete_all, all_labels, append_found, named_rule,
  rule_at, add_satisfied, add_candidates, resolve, read_dict_from_csv, read_records, read_labels,
}
use tools_jvm_autodeps.DictResolver.Answers.{lookup-resolve}

abbrev dict : Dict
dict =
    (codes "B", codes "//foo:bar" ∷ codes "//foo:none" ∷ []) ∷ (codes "C", codes "//:c" ∷ []) ∷ []

abbrev class_names : List ClassName
class_names = codes "B" ∷ codes "Z" ∷ codes "C" ∷ []

abbrev consuming : DepsOfRules
consuming = (codes "//:f", codes "//:c" ∷ []) ∷ []

abbrev found : GoMap ClassName (List (Found ℕ))
found = (codes "C", made (new_rule [] [] (codes "c") []) ∷ []) ∷ (codes "B", loaded 5 ∷ []) ∷ []

runs : resolve dict load class_names consuming ≡ ok found
unfolding resolve candidates_of satisfied_by_existing_deps class_loop cover first_satisfying
    delete_all all_labels load_rules distinct_pkgs distinct_from collect find_rule split
    add_satisfied add_candidates append_found named_rule rule_at new_rule
runs = refl

lookup-resolve_example : lookup (codes "B") found ≡ some (loaded 5 ∷ [])
unfolding cover first_satisfying find_rule split
lookup-resolve_example =
    lookup-resolve load workspace load-IsConsistent dict class_names consuming found
      (refl, (refl, (refl, tt))) runs (codes "B")

-- Labels that do not parse are left out, and a later record replaces an earlier one.
reads :
    read_dict_from_csv {E = ℕ}
      ((codes "B", codes "//:a" ∷ []) ∷ (codes "B", codes "//:b" ∷ codes "b" ∷ []) ∷ [])
      none
    ≡ ok ((codes "B", codes "//:b" ∷ []) ∷ [])
unfolding read_dict_from_csv read_records read_labels parse_absolute_label parse_at check_parts
    count_slash_slash index index_byte make_label has_prefix trim_left_slash base after_last
reads = refl
