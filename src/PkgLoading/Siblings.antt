-- ===== src/PkgLoading/Siblings.antt =====
-- Siblings and findPackageName of pkgloading/pkgloading.go.
--
-- The goroutines take the lock one after the other: the file names come in the order in which they
-- do. Whether a file is there is a parameter, and `none` means that the fuel ran out.
pub mod Closest
pub mod Tests
use mathlib.Core.Option
use tools_jvm_autodeps.Base.{
  ℕ, zero, suc, Bool, Option, none, some, List, [], ◌∷◌, map, if◌then◌else◌, ◌==◌, Text, nat_eq,
  text_eq,
}
use tools_jvm_autodeps.GoMap.{GoMap, add, put}
use tools_jvm_autodeps.Strings.{codes}
use tools_jvm_autodeps.Paths.{path_join, dir, dot_path}
use tools_jvm_autodeps.PkgLoading.{Result, Loader, Packages}

module _ (file_exists : Text → Bool) where
  abbrev pub has_build : Text → Text → Bool
  has_build workspace_dir d = file_exists (path_join (workspace_dir ∷ d ∷ codes "BUILD" ∷ []))

  -- the loop of findPackageName, which starts at a directory
  unfoldable pub find_from : ℕ → Text → Text → Option Text
  find_from zero workspace_dir d = none
  find_from (suc fuel) workspace_dir d =
      let rest = find_from fuel workspace_dir (dir d) in
      if d == dot_path then some [] else if has_build workspace_dir d then some d else rest

  unfoldable pub find_package_name : ℕ → Text → Text → Option Text
  unfolding find_from
  find_package_name fuel workspace_dir filename = find_from fuel workspace_dir (dir filename)

  -- what one goroutine does under the lock
  abbrev pub note_package : Text → Text → List Text × GoMap Text Text → List Text × GoMap Text Text
  note_package f [] (pkgs, file_to_pkg_name) = (pkgs, file_to_pkg_name)
  note_package f (c ∷ p) (pkgs, file_to_pkg_name) =
      (add (c ∷ p) pkgs, put f (c ∷ p) file_to_pkg_name)

  unfoldable pub note_packages :
      ℕ → Text → List Text × GoMap Text Text → List Text → Option (List Text × GoMap Text Text)
  unfolding find_package_name
  note_packages fuel workspace_dir found [] = some found
  note_packages fuel workspace_dir found (f ∷ file_names) =
      elim (find_package_name fuel workspace_dir f) [
        | none ↦ none
        | some p ↦ note_packages fuel workspace_dir (note_package f p found) file_names
      ]

  -- Siblings, with the answer of the loader and `fileToPkgName`
  unfoldable pub siblings :
      {E Ref : Type 0}
      → ℕ
      → Loader E Ref
      → Text
      → List Text
      → Option (Result E (Packages Ref) × GoMap Text Text)
  unfolding note_packages
  siblings fuel load workspace_dir file_names =
      Option.map (λ found. (load found.0, found.1))
        (note_packages fuel workspace_dir ([], []) file_names)
