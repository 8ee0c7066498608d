-- ===== src/Filter/Search/Tests.antt =====
-- The theorems about CheckVisibility on a workspace with two package groups.
use tools_jvm_autodeps.Base.{
  ℕ, ◌≡◌, refl, ◌↔◌, Bool, true, false, Option, some, List, [], ◌∷◌, arith, Text, nat_eq, text_eq,
}
use tools_jvm_autodeps.GoMap.{GoMap, contains, lookup, get}
use tools_jvm_autodeps.Strings.{
  codes, has_prefix, trim_prefix, index_byte, last_index, index, trim_left_slash,
}
use tools_jvm_autodeps.Bazel.{
  Label, Attr, Rule, Package, PackageGroup, split, label_list_attr, parse_labels,
  parse_relative_label, parse_absolute_label, parse_at,
}
use tools_jvm_autodeps.PkgLoading.{ok, Loader, IsConsistent, find_group, load_package_groups}
use tools_jvm_autodeps.Filter.{
  sub_package_of, spec_visible_to, local_visible_to, entries_visible_to,
}
use tools_jvm_autodeps.Filter.Search.{
  VisQuery, vis_query_eq, check_visibility, done, loop, layer, start, labels, granted_queries,
  undecided_queries, pkg_groups_in_visibility, offer_groups, offer, answer, visit_group,
  visit_labels, visit_nodes, drop_decided,
}
use tools_jvm_autodeps.Filter.Search.Inv.{Visible}
use tools_jvm_autodeps.Filter.Search.Correct.{check_visibility_correct}
use tools_jvm_autodeps.Filter.Search.Ends.{IsUniverse, check_visibility_decides}

-- //lib:r is visible to //g:a, which includes //g:b, which lists x/...
abbrev lib_rule : Rule
lib_rule = record {
  schema = codes "java_library";
  pkg_name = codes "lib";
  attrs = (codes "visibility", Attr.strs (codes "//g:a" ∷ [])) ∷ [];
}

abbrev group_a : PackageGroup
group_a = record { specs = []; includes = codes "//g:b" ∷ [] }

abbrev group_b : PackageGroup
group_b = record { specs = codes "x/..." ∷ []; includes = codes "//g:a" ∷ [] }

abbrev package_g : Package ℕ
package_g = record {
  path = [];
  default_visibility = [];
  files = [];
  rules = [];
  package_groups = (codes "a", group_a) ∷ (codes "b", group_b) ∷ [];
}

abbrev all_packages : GoMap Text (Package ℕ)
all_packages = (codes "g", package_g) ∷ []

abbrev deref : ℕ → Rule
deref n = lib_rule

abbrev load : Loader Text ℕ
load names = ok all_packages

abbrev workspace : Text → Option (Package ℕ)
workspace n = lookup n all_packages

abbrev from_x : VisQuery ℕ
from_x = record { rule = 0; pkg = codes "x/sub" }

abbrev from_y : VisQuery ℕ
from_y = record { rule = 0; pkg = codes "y" }

load-IsConsistent : IsConsistent load workspace
load-IsConsistent names pkgs h n m = cc

abbrev query : List (VisQuery ℕ)
query = from_x ∷ from_y ∷ []

abbrev answers : GoMap (VisQuery ℕ) Bool
answers = (from_x, true) ∷ []

check_runs : check_visibility deref load 5 query ≡ done answers
unfolding check_visibility loop layer start granted_queries undecided_queries
    pkg_groups_in_visibility offer_groups offer answer visit_group visit_labels visit_nodes
    drop_decided labels local_visible_to entries_visible_to spec_visible_to sub_package_of split
    label_list_attr load_package_groups trim_prefix last_index parse_labels parse_relative_label
    has_prefix parse_absolute_label index trim_left_slash index_byte parse_at
check_runs = refl

check_visibility_correct_example :
    (get false from_x answers ≡ true) ↔ Visible deref (find_group workspace) from_x
check_visibility_correct_example =
    check_visibility_correct deref load workspace query load-IsConsistent 5 answers check_runs
      from_x refl

abbrev universe : List Label
universe = codes "//g:a" ∷ codes "//g:b" ∷ []

included :
    (x inc : Label) (g : PackageGroup)
    → find_group workspace x ≡ some g
    → contains inc g.includes ≡ true
    → contains inc universe ≡ true
unfolding find_group
included x inc g h m = ground arith

lib_groups : label_list_attr lib_rule (codes "visibility") ≡ codes "//g:a" ∷ []
unfolding label_list_attr parse_labels parse_relative_label has_prefix parse_absolute_label index
    trim_left_slash index_byte parse_at
lib_groups = refl

query-IsUniverse : IsUniverse deref load workspace query universe
query-IsUniverse = record {
  named = λ w x n. ground (arith, rw lib_groups at n);
  included = included;
}

check_visibility_decides_example :
    (ret : GoMap (VisQuery ℕ) Bool) × (check_visibility deref load 5 query ≡ done ret)
    × ((get false from_y ret ≡ true) ↔ Visible deref (find_group workspace) from_y)
check_visibility_decides_example =
    check_visibility_decides deref load workspace query universe load-IsConsistent
      (λ names. (all_packages, refl)) query-IsUniverse from_y refl
