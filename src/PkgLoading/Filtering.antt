-- ===== src/PkgLoading/Filtering.antt =====
-- FilteringLoader of pkgloading/pkgloading.go.
use tools_jvm_autodeps.Base.{
  ◌≡◌, refl, inl, inr, false, not, ◌&&◌, Option, none, List, [], ◌∷◌, arith, if◌then◌else◌,
  Bool-cases, Text, text_beq_iff, nat_eq, text_eq,
}
use tools_jvm_autodeps.GoMap.{contains, lookup}
use tools_jvm_autodeps.Bazel.{Package}
use tools_jvm_autodeps.PkgLoading.{ok, Loader, Packages, IsConsistent}

-- the loop over the packages
pub not_blacklisted : List Text → List Text → List Text
not_blacklisted blacklisted [] = []
not_blacklisted blacklisted (p ∷ packages) =
    let rest = not_blacklisted blacklisted packages in
    if contains p blacklisted then rest else p ∷ rest

-- Load
pub filtering_load : {E Ref : Type 0} → Loader E Ref → List Text → Loader E Ref
unfolding not_blacklisted
filtering_load load blacklisted packages = load (not_blacklisted blacklisted packages)

pub contains-not_blacklisted :
    (blacklisted packages : List Text) (p : Text)
    → contains p (not_blacklisted blacklisted packages)
      ≡ (contains p packages && not (contains p blacklisted))
unfolding not_blacklisted
contains-not_blacklisted blacklisted [] p = refl
contains-not_blacklisted blacklisted (q ∷ packages) p =
    ground (arith, contains-not_blacklisted blacklisted packages p, text_beq_iff q p)

-- Where the underlying loader returns the packages of one workspace, and nothing that it is not asked
-- for, the filtering loader returns those of the workspace without the blacklisted packages.
pub filtering_load-IsConsistent :
    {E Ref : Type 0} (load : Loader E Ref) (blacklisted : List Text)
    (workspace : Text → Option (Package Ref))
    → IsConsistent load workspace
    → ((names : List Text) (pkgs : Packages Ref)
        → load names ≡ ok pkgs
        → (n : Text) → contains n names ≡ false
        → lookup n pkgs ≡ none)
    → IsConsistent
        (filtering_load load blacklisted)
        (λ n. if contains n blacklisted then none else workspace n)
unfolding filtering_load
filtering_load-IsConsistent load blacklisted workspace c only names pkgs h n m =
    let asked = contains-not_blacklisted blacklisted names n in
    elim (Bool-cases (contains n blacklisted)) [
      | inl black ↦ ground (arith, only (not_blacklisted blacklisted names) pkgs h n (ground arith))
      | inr white ↦ ground (arith, c (not_blacklisted blacklisted names) pkgs h n (ground arith))
    ]
