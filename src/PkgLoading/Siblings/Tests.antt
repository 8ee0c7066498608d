-- ===== src/PkgLoading/Siblings/Tests.antt =====
-- A file two directories below the closest BUILD file.
use tools_jvm_autodeps.Base.{◌≡◌, refl, Bool, some, [], ◌∷◌, arith, ◌==◌, Text, nat_eq, text_eq}
use tools_jvm_autodeps.Strings.{codes, split_byte, join_byte}
use tools_jvm_autodeps.Paths.{elements, push_all, clean, path_join}
use tools_jvm_autodeps.Paths.Parents.{IsName}
use tools_jvm_autodeps.PkgLoading.Siblings.{find_package_name}
use tools_jvm_autodeps.PkgLoading.Siblings.Closest.{find_package_name-path_of}

abbrev file_exists : Text → Bool
file_exists f = f == codes "/ws/foo/bar/BUILD"

IsName-file : IsName (codes "A.java")
IsName-file = record { not_empty = refl; not_dot = refl; not_dots = refl; no_slash = refl }

IsName-dir : IsName (codes "baz")
IsName-dir = record { not_empty = refl; not_dot = refl; not_dots = refl; no_slash = refl }

IsName-pkg : IsName (codes "bar")
IsName-pkg = record { not_empty = refl; not_dot = refl; not_dots = refl; no_slash = refl }

IsName-root : IsName (codes "foo")
IsName-root = record { not_empty = refl; not_dot = refl; not_dots = refl; no_slash = refl }

find_package_name-path_of_example :
    find_package_name file_exists 4 (codes "/ws") (codes "foo/bar/baz/A.java")
    ≡ some (codes "foo/bar")
unfolding path_join clean elements push_all split_byte join_byte
find_package_name-path_of_example =
    find_package_name-path_of file_exists (codes "/ws") (codes "A.java")
      (codes "baz" ∷ codes "bar" ∷ codes "foo" ∷ [])
      (IsName-file, (IsName-dir, (IsName-pkg, (IsName-root, tt)))) 4 (omega arith)
