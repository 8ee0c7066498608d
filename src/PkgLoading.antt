-- ===== src/PkgLoading.antt =====
-- pkgloading/pkgloading.go: the Loader interface, what is built on it, and the caching loader.
--
-- A Loader returns either packages or an error. What an error says is left to the parameter `E`.
pub mod Lookup
pub mod Filtering
pub mod Caching
pub mod Siblings
pub mod Tests
use tools_jvm_autodeps.Base.{
  ℕ, Bool, true, false, Option, none, some, List, [], ◌∷◌, ◌++◌, Text, ◌==◌, if◌then◌else◌, text_eq,
  ◌≡◌, refl, ◌⊎◌, inl, inr,
}
use tools_jvm_autodeps.GoMap.{GoMap, lookup, put, contains}
use tools_jvm_autodeps.Bazel.{Label, Package, PackageGroup, split}

pub data Result {ℓ κ} (E : Type ℓ) (A : Type κ) : Type (ℓ ⊔ κ) where
  ok : A → Result E A
  err : E → Result E A

infixl 5 ◌>>=◌
abbrev pub ◌>>=◌ {ℓ κ μ} :
    {E : Type ℓ} {A : Type κ} {B : Type μ} → Result E A → (A → Result E B) → Result E B
ok a >>= f = f a
err e >>= f = err e

-- Inversion of a successful step.
pub >>=-eq-ok {ℓ κ μ} :
    {E : Type ℓ} {A : Type κ} {B : Type μ} (m : Result E A) (f : A → Result E B) {b : B}
    → (m >>= f) ≡ ok b
    → (a : A) × (f a ≡ ok b) × (m ≡ ok a)
>>=-eq-ok (err e) f stopped = cc
>>=-eq-ok (ok a) f goes_on = (a, goes_on, refl)

pub Result-cases {ℓ κ} :
    {E : Type ℓ} {A : Type κ} (r : Result E A) → ((a : A) × (r ≡ ok a)) ⊎ ((e : E) × (r ≡ err e))
Result-cases (ok a) = inl (a, refl)
Result-cases (err e) = inr (e, refl)

abbrev pub Packages : Type 0 → Type 0
Packages Ref = GoMap Text (Package Ref)

-- the interface Loader
abbrev pub Loader : Type 0 → Type 0 → Type 0
Loader E Ref = List Text → Result E (Packages Ref)

-- distinctPkgs, with the set `pkgsSeen` of the packages that are already in the result
unfoldable pub distinct_from : List Text → List Label → List Text
unfolding split
distinct_from seen [] = []
distinct_from seen (l ∷ ls) =
    let pkg_name = (split l).0 in
    let skipped = distinct_from seen ls in
    let taken = pkg_name ∷ distinct_from (pkg_name ∷ seen) ls in
    if contains pkg_name seen then skipped else taken

unfoldable pub distinct_pkgs : List Label → List Text
unfolding distinct_from
distinct_pkgs = distinct_from []

module _ {ℓ} {V : Type ℓ} where
  abbrev pub add_found : Label → Option V → GoMap Label V → GoMap Label V
  add_found l none result = result
  add_found l (some v) result = put l v result

  -- the loop `for _, label := range labels` of LoadRules and LoadPackageGroups
  unfoldable pub collect : (Label → Option V) → GoMap Label V → List Label → GoMap Label V
  collect find result [] = result
  collect find result (l ∷ ls) = collect find (add_found l (find l) result) ls

module _ {Ref : Type 0} where
  abbrev rule_in : Text → Option (Package Ref) → Option Ref
  rule_in n none = none
  rule_in n (some pkg) = lookup n pkg.rules

  abbrev group_in : Text → Option (Package Ref) → Option PackageGroup
  group_in n none = none
  group_in n (some pkg) = lookup n pkg.package_groups

  -- the two nested tests of the loops, over the packages by name
  unfoldable pub find_rule : (Text → Option (Package Ref)) → Label → Option Ref
  unfolding split
  find_rule pkgs l = let (pkg_name, rule_name) = split l in rule_in rule_name (pkgs pkg_name)

  unfoldable pub find_group : (Text → Option (Package Ref)) → Label → Option PackageGroup
  unfolding split
  find_group pkgs l = let (pkg_name, group_name) = split l in group_in group_name (pkgs pkg_name)

module _ {E Ref : Type 0} where
  unfoldable pub load_rules : Loader E Ref → List Label → Result E (GoMap Label Ref × Packages Ref)
  unfolding distinct_pkgs collect find_rule
  load_rules load [] = ok ([], [])
  load_rules load (l ∷ ls) = do
    pkgs ← load (distinct_pkgs (l ∷ ls))
    ok (collect (find_rule (λ p. lookup p pkgs)) [] (l ∷ ls), pkgs)

  unfoldable pub load_package_groups :
      Loader E Ref → List Label → Result E (GoMap Label PackageGroup)
  unfolding distinct_pkgs collect find_group
  load_package_groups load [] = ok []
  load_package_groups load (l ∷ ls) = do
    pkgs ← load (distinct_pkgs (l ∷ ls))
    ok (collect (find_group (λ p. lookup p pkgs)) [] (l ∷ ls))

  -- What callers rely on: the packages that a call returns are those of one fixed workspace.
  abbrev pub IsConsistent : Loader E Ref → (Text → Option (Package Ref)) → Type 0
  IsConsistent load workspace =
      (names : List Text) (pkgs : Packages Ref)
      → load names ≡ ok pkgs
      → (n : Text) → contains n names ≡ true
      → lookup n pkgs ≡ workspace n
