-- ===== src/PkgLoading/Tests.antt =====
-- LoadRules and LoadPackageGroups on a small workspace.
use tools_jvm_autodeps.Base.{
  ℕ, ◌≡◌, refl, Option, none, some, List, [], ◌∷◌, arith, if◌then◌else◌, ◌==◌, Text, text_beq_iff,
  nat_eq, text_eq,
}
use tools_jvm_autodeps.GoMap.{contains, lookup, put, lookup-put}
use tools_jvm_autodeps.Bazel.{Label, Package, PackageGroup, split}
use tools_jvm_autodeps.Strings.{codes}
use tools_jvm_autodeps.PkgLoading.{
  ok, Loader, Packages, load_rules, load_package_groups, find_rule, find_group, IsConsistent,
  distinct_pkgs, distinct_from, collect,
}
use tools_jvm_autodeps.PkgLoading.Filtering.{filtering_load, filtering_load-IsConsistent}
use tools_jvm_autodeps.PkgLoading.Lookup.{lookup-load_rules, lookup-load_package_groups}

abbrev pub group : PackageGroup
group = record { specs = codes "java/com" ∷ []; includes = [] }

abbrev pub foo_pkg : Package ℕ
foo_pkg = record {
  path = codes "foo";
  default_visibility = [];
  rules = (codes "bar", 5) ∷ [];
  files = [];
  package_groups = (codes "group", group) ∷ [];
}

abbrev pub workspace : Text → Option (Package ℕ)
workspace n = if n == codes "foo" then some foo_pkg else none

-- loads what exists of the packages
abbrev pub load_all : List Text → Packages ℕ
load_all [] = []
load_all (n ∷ names) =
    let rest = load_all names in if n == codes "foo" then put n foo_pkg rest else rest

abbrev pub load : Loader ℕ ℕ
load names = ok (load_all names)

lookup-load_all :
    (names : List Text) (n : Text)
    → lookup n (load_all names) ≡ (if contains n names then workspace n else none)
lookup-load_all [] n = refl
lookup-load_all (k ∷ names) n = ground (
  arith,
  lookup-load_all names n,
  lookup-put k n foo_pkg (load_all names),
  text_beq_iff k n,
  text_beq_iff k (codes "foo"),
  text_beq_iff n (codes "foo"),
)

pub load-IsConsistent : IsConsistent load workspace
load-IsConsistent names pkgs h n m = ground (arith, lookup-load_all names n)

abbrev asked : List Label
asked = codes "//foo:bar" ∷ codes "//foo:none" ∷ codes "//zed:bar" ∷ []

lookup-load_rules_example :
    lookup (codes "//foo:bar") ((codes "//foo:bar", 5) ∷ [])
    ≡ find_rule workspace (codes "//foo:bar")
unfolding load_rules distinct_pkgs distinct_from collect find_rule split
lookup-load_rules_example =
    lookup-load_rules load workspace load-IsConsistent asked ((codes "//foo:bar", 5) ∷ [])
      ((codes "foo", foo_pkg) ∷ []) refl (codes "//foo:bar") refl

lookup-load_package_groups_example :
    lookup (codes "//foo:group") ((codes "//foo:group", group) ∷ [])
    ≡ find_group workspace (codes "//foo:group")
unfolding load_package_groups distinct_pkgs distinct_from collect find_group split
lookup-load_package_groups_example =
    lookup-load_package_groups load workspace load-IsConsistent (codes "//foo:group" ∷ [])
      ((codes "//foo:group", group) ∷ []) refl (codes "//foo:group") refl

filtering_load-IsConsistent_example :
    IsConsistent
      (filtering_load load (codes "bar" ∷ []))
      (λ n. if contains n (codes "bar" ∷ []) then none else workspace n)
filtering_load-IsConsistent_example =
    filtering_load-IsConsistent load (codes "bar" ∷ []) workspace load-IsConsistent
      (λ names pkgs h n m. ground (arith, lookup-load_all names n))
