-- ===== src/PkgLoading/Siblings/Closest.antt =====
-- findPackageName finds the closest directory with a BUILD file.
use tools_jvm_autodeps.Base.{
  ℕ, zero, suc, ◌<◌, ◌≡◌, refl, ap, ◌∙◌, Bool, some, List, [], ◌∷◌, arith, if◌then◌else◌, length,
  Text, nat_eq, text_eq,
}
use tools_jvm_autodeps.Paths.Parents.{AreNames, path_of, dir-path_of, path_of-ne-dot}
use tools_jvm_autodeps.PkgLoading.Siblings.{has_build, find_from, find_package_name}

-- the directories above a path, the closest first, less the root of the workspace
abbrev pub ancestors : List Text → List Text
ancestors [] = []
ancestors (x ∷ stack) = path_of (x ∷ stack) ∷ ancestors stack

abbrev pub first_of : (Text → Bool) → List Text → Text
first_of test [] = []
first_of test (d ∷ ds) = if test d then d else first_of test ds

module _ (file_exists : Text → Bool) (workspace_dir : Text) where
  find_from-path_of :
      (stack : List Text)
      → AreNames stack
      → (fuel : ℕ) → length stack < fuel
      → find_from file_exists fuel workspace_dir (path_of stack)
        ≡ some (first_of (has_build file_exists workspace_dir) (ancestors stack))
  unfolding find_from
  find_from-path_of [] ns zero enough = absurd (omega arith)
  find_from-path_of (x ∷ stack) ns zero enough = absurd (omega arith)
  find_from-path_of [] ns (suc fuel) enough = refl
  find_from-path_of (x ∷ stack) (n, ns) (suc fuel) enough = ground (
    arith,
    path_of-ne-dot x stack (n, ns),
    ap (λ d. find_from file_exists fuel workspace_dir d) (dir-path_of x stack (n, ns)),
    find_from-path_of stack ns fuel,
  )

  -- For a relative file name the loop ends within one round more than there are directories on the
  -- path, and the result is the closest of them that has a BUILD file, or the empty name.
  pub find_package_name-path_of :
      (x : Text) (stack : List Text)
      → AreNames (x ∷ stack)
      → (fuel : ℕ) → length stack < fuel
      → find_package_name file_exists fuel workspace_dir (path_of (x ∷ stack))
        ≡ some (first_of (has_build file_exists workspace_dir) (ancestors stack))
  unfolding find_package_name
  find_package_name-path_of x stack (n, ns) fuel enough =
      ap (find_from file_exists fuel workspace_dir) (dir-path_of x stack (n, ns))
      ∙ find_from-path_of stack ns fuel enough
