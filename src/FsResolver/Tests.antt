-- ===== src/FsResolver/Tests.antt =====
-- A file that a file group has, a library over the group, a library that exports that one, and a
-- binary, which is of no Java kind for a dependency.
use tools_jvm_autodeps.Base.{
  ◌≤◌, ◌≡◌, refl, ◌↔◌, Bool, true, ℕ, some, List, [], ◌∷◌, ◌++◌, ◌==◌, Text, nat_eq, text_eq,
}
use tools_jvm_autodeps.GoMap.{GoMap, contains, get}
use tools_jvm_autodeps.Strings.{codes, split_byte, join_byte, last_index_byte}
use tools_jvm_autodeps.Paths.{path_join, clean, elements, push_all, dir, rel}
use tools_jvm_autodeps.Graphs.{dfs, visit, each}
use tools_jvm_autodeps.Graphs.Post.{occurrences}
use tools_jvm_autodeps.Bazel.{Rule, Package, strs, new_rule, string_list_attr}
use tools_jvm_autodeps.PkgLoading.{ok, Loader}
use tools_jvm_autodeps.PkgLoading.Siblings.{siblings, note_packages, find_package_name, find_from}
use tools_jvm_autodeps.Jadeplib.{ClassName}
use tools_jvm_autodeps.FsResolver.{
  class_to_files, files_of, add_exports, add_srcs, add_rules, add_nodes, add_package, add_file,
  add_files, add_classes, resolve,
}
use tools_jvm_autodeps.FsResolver.Provided.{Provided, java_rules, add_package-Provided}

abbrev group : Rule
unfolding new_rule
group =
    new_rule (codes "filegroup") (codes "java/x") (codes "Bar")
      ((codes "srcs", strs (codes "Foo.java" ∷ [])) ∷ [])

abbrev library : Rule
unfolding new_rule
library =
    new_rule (codes "java_library") (codes "java/x") (codes "Foo")
      ((codes "srcs", strs (codes "Bar" ∷ [])) ∷ [])

abbrev exporting : Rule
unfolding new_rule
exporting =
    new_rule (codes "java_library") (codes "java/x") (codes "All")
      ((codes "exports", strs (codes "Foo" ∷ [])) ∷ [])

abbrev binary : Rule
unfolding new_rule
binary =
    new_rule (codes "java_binary") (codes "java/x") (codes "Run")
      ((codes "srcs", strs (codes "Foo.java" ∷ [])) ∷ [])

abbrev pkg : Package Rule
pkg = record {
  package_groups = [];
  rules =
      (codes "Run", binary)
      ∷ (codes "All", exporting)
      ∷ (codes "Foo", library)
      ∷ (codes "Bar", group)
      ∷ [];
  files = [];
  default_visibility = [];
  path = codes "java/x";
}

abbrev file_exists : Text → Bool
file_exists f = f == codes "/ws/java/x/BUILD"

abbrev load : Loader ℕ Rule
load names = ok ((codes "java/x", pkg) ∷ [])

files_run :
    class_to_files (codes "java/" ∷ codes "test" ∷ []) (codes "com.google.Foo")
    ≡ codes "java/com/google/Foo.java" ∷ codes "test/com/google/Foo.java" ∷ []
unfolding class_to_files path_join clean elements push_all split_byte join_byte
files_run = refl

resolve_runs :
    resolve
      (λ r. r)
      file_exists
      5
      (codes "java/" ∷ codes "test" ∷ [])
      (codes "/ws")
      load
      (codes "x.Foo" ∷ codes "y.Foo" ∷ [])
    ≡ some (ok ((codes "x.Foo", library ∷ exporting ∷ []) ∷ []))
unfolding resolve files_of class_to_files add_classes add_files add_file add_package add_rules
    add_exports add_srcs add_nodes siblings note_packages find_package_name find_from dfs visit each
    rel dir path_join clean elements push_all split_byte join_byte last_index_byte string_list_attr
    group
resolve_runs = refl

add_package-Provided_example :
    (later : GoMap ClassName (List Rule)) × (nodes : List Text) × (add_package
        (λ r. r)
        pkg
        (codes "Foo.java")
        (codes "x.Foo")
        []
      ≡ some later)
    × (get [] (codes "x.Foo") later ≡ [] ++ java_rules (λ r. r) pkg.rules nodes)
    × ((x : Text)
        → (contains x nodes ≡ true)
          ↔ Provided (λ r. r) pkg.rules (codes "Foo.java") (codes "Foo.java") x)
    × ((x : Text) → occurrences x nodes ≤ 1)
add_package-Provided_example =
    add_package-Provided (λ r. r) pkg (codes "Foo.java") (codes "x.Foo") []
