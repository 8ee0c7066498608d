-- ===== src/Filter.antt =====
-- filter/filter.go: which rules may be dependencies, and which are visible to a package.
--
-- `CheckVisibility` is over the type `Ref` of rule references with the rule that each points to,
-- since a `VisQuery` holds a pointer and is a map's key.
pub mod SubPackage
pub mod Search
pub mod Tests
use tools_jvm_autodeps.Base.{
  ℕ, zero, suc, Bool, true, false, ◌&&◌, ◌||◌, not, Option, none, some, List, [], ◌∷◌, ◌++◌, Text,
  ◌==◌, if◌then◌else◌, text_eq, nat_eq, Eq, length, take, get_elem?, is_some, foldl, ◌≡◌, ◌↔◌,
}
use tools_jvm_autodeps.GoMap.{GoMap, lookup, get, put, contains}
use tools_jvm_autodeps.Strings.{codes, slash, has_prefix, trim_prefix, last_index}
use tools_jvm_autodeps.Bazel.{
  Label, Rule, PackageGroup, split, string_list_attr, label_list_attr, as_str,
}
use tools_jvm_autodeps.PkgLoading.{Result, Loader, load_package_groups}

abbrev pub pkg_visibility_name : Text
pkg_visibility_name = codes "__pkg__"

abbrev pub subpackages_visibility_name : Text
subpackages_visibility_name = codes "__subpackages__"

abbrev pub java_dependency_rule_kinds : List Text
java_dependency_rule_kinds =
    codes "android_library"
    ∷ codes "java_import"
    ∷ codes "java_library"
    ∷ codes "java_lite_proto_library"
    ∷ codes "java_mutable_proto_library"
    ∷ codes "java_plugin"
    ∷ codes "java_proto_library"
    ∷ codes "java_wrap_cc"
    ∷ codes "proto_library"
    ∷ []

abbrev pub java_editable_rule_kinds : List Text
java_editable_rule_kinds =
    codes "android_binary"
    ∷ codes "android_library"
    ∷ codes "android_local_test"
    ∷ codes "android_robolectric_test"
    ∷ codes "android_test"
    ∷ codes "java_binary"
    ∷ codes "java_library"
    ∷ codes "java_plugin"
    ∷ codes "java_test"
    ∷ []

-- IsValidDependency
unfoldable pub is_valid_dependency : Rule → Bool
is_valid_dependency dep =
    if not (contains dep.schema java_dependency_rule_kinds)
    then false
    else if contains (codes "avoid_dep") (string_list_attr dep (codes "tags"))
    then false
    else if is_some (as_str (lookup (codes "deprecation") dep.attrs))
    then false
    else true

-- `type tri int`: no, yes and unknown
pub data Tri : Type 0 where
  denied granted unknown : Tri

-- s[i], which is never read out of range (SubPackage)
abbrev pub byte_at : Text → ℕ → ℕ
byte_at [] i = 0
byte_at (c ∷ s) zero = c
byte_at (c ∷ s) (suc i) = byte_at s i

unfoldable pub sub_package_of : Text → Text → Bool
unfolding has_prefix
sub_package_of subpackage pkg =
    if subpackage == pkg
    then true
    else if pkg == []
    then true
    else has_prefix subpackage pkg && byte_at subpackage (length pkg) == slash

-- the loop of localVisibleTo over the entries of the visibility attribute
unfoldable pub entries_visible_to : Text → List Label → Tri
entries_visible_to cons_pkg [] = unknown
entries_visible_to cons_pkg (v ∷ vis) =
    let rest = entries_visible_to cons_pkg vis in
    let (vis_pkg, vis_name) = split v in
    if v == codes "//visibility:public" || v == codes "//visibility:legacy_public"
    then granted
    else if v == codes "//visibility:private"
    then denied
    else if vis_name == pkg_visibility_name && vis_pkg == cons_pkg
    then granted
    else if vis_name == subpackages_visibility_name && sub_package_of cons_pkg vis_pkg
    then granted
    else rest

abbrev pub attr_visible_to : Text → List Label → Tri
attr_visible_to cons_pkg [] = denied
attr_visible_to cons_pkg (v ∷ vis) = entries_visible_to cons_pkg (v ∷ vis)

unfoldable pub local_visible_to : Rule → Text → Tri
local_visible_to dep cons_pkg =
    if cons_pkg == dep.pkg_name
      || trim_prefix cons_pkg (codes "javatests/") == trim_prefix dep.pkg_name (codes "java/")
    then granted
    else attr_visible_to cons_pkg (label_list_attr dep (codes "visibility"))

-- the test of specVisibleTo on the wildcard of one spec
abbrev pub wildcard_grants : Text → Text → Option ℕ → Bool
wildcard_grants spec cons_pkg none = false
wildcard_grants spec cons_pkg (some i) = sub_package_of cons_pkg (take i spec)

unfoldable pub spec_visible_to : List Text → Text → Tri
spec_visible_to [] cons_pkg = unknown
spec_visible_to (spec ∷ specs) cons_pkg =
    let rest = spec_visible_to specs cons_pkg in
    if spec == codes "//..." || spec == cons_pkg
    then granted
    else if wildcard_grants spec cons_pkg (last_index spec (codes "/..."))
    then granted
    else rest
