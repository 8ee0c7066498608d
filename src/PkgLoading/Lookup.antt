-- ===== src/PkgLoading/Lookup.antt =====
-- LoadRules and LoadPackageGroups: what the returned map holds.
use tools_jvm_autodeps.Base.{
  ◌≡◌, refl, text_eq, ◌∷◌, [], none, some, Option, arith, if◌then◌else◌, ◌||◌, List, Text, true,
  text_beq_iff, ◌&&◌, is_some, Option-cases, inl, ap, inr,
}
use tools_jvm_autodeps.PkgLoading.{
  ok, distinct_from, distinct_pkgs, collect, add_found, Loader, load_package_groups, find_group,
  IsConsistent, >>=-eq-ok, group_in, load_rules, find_rule, Packages, rule_in,
}
use tools_jvm_autodeps.Bazel.{Label, split, Package, PackageGroup}
use tools_jvm_autodeps.GoMap.{contains, GoMap, lookup, lookup-put}

contains-distinct_from :
    (seen : List Text) (ls : List Label) (l : Label)
    → contains l ls ≡ true
    → (contains (split l).0 seen || contains (split l).0 (distinct_from seen ls)) ≡ true
unfolding distinct_from
contains-distinct_from seen [] l h = cc
contains-distinct_from seen (k ∷ ls) l h = ground (
  arith,
  text_beq_iff k l,
  text_beq_iff (split k).0 (split l).0,
  contains-distinct_from seen ls l,
  contains-distinct_from ((split k).0 ∷ seen) ls l,
)

-- The package of every label is asked for.
pub contains-distinct_pkgs :
    (ls : List Label) (l : Label)
    → contains l ls ≡ true
    → contains (split l).0 (distinct_pkgs ls) ≡ true
unfolding distinct_pkgs
contains-distinct_pkgs ls l h = contains-distinct_from [] ls l h

module _ {ℓ} {V : Type ℓ} where
  pub lookup-collect :
      (find : Label → Option V) (acc : GoMap Label V) (ls : List Label) (l : Label)
      → lookup l (collect find acc ls)
        ≡ (if contains l ls && is_some (find l) then find l else lookup l acc)
  unfolding collect
  lookup-collect find acc [] l = refl
  lookup-collect find acc (k ∷ ls) l = elim (Option-cases (find k)) [
    | inl e ↦
        ground (arith, text_beq_iff k l, ap find, lookup-collect find (add_found k none acc) ls l)
    | inr (v, e) ↦ ground (
      arith,
      text_beq_iff k l,
      lookup-collect find (add_found k (some v) acc) ls l,
      lookup-put k l v acc,
    )
  ]

module _ {E Ref : Type 0} (load : Loader E Ref) (workspace : Text → Option (Package Ref)) where
  -- Where the loader returns the packages of one workspace, LoadPackageGroups returns for each
  -- requested label the package group of that label in the workspace, and nothing where there is
  -- none.
  pub lookup-load_package_groups :
      IsConsistent load workspace
      → (ls : List Label) (groups : GoMap Label PackageGroup)
      → load_package_groups load ls ≡ ok groups
      → (l : Label) → contains l ls ≡ true
      → lookup l groups ≡ find_group workspace l
  unfolding load_package_groups find_group
  lookup-load_package_groups c [] groups h l m = cc
  lookup-load_package_groups c (k ∷ ls) groups h l m =
      let (pkgs, e, loaded) = >>=-eq-ok (load (distinct_pkgs (k ∷ ls))) _ h in
      let known =
        c (distinct_pkgs (k ∷ ls)) pkgs loaded (split l).0 (contains-distinct_pkgs (k ∷ ls) l m) in
      ground (
        arith,
        lookup-collect (find_group (λ p. lookup p pkgs)) [] (k ∷ ls) l,
        ap (group_in (split l).1) known,
      )

  -- Where the loader returns the packages of one workspace, LoadRules returns for each requested
  -- label the rule of that label in the workspace, and nothing where there is none.
  pub lookup-load_rules :
      IsConsistent load workspace
      → (ls : List Label) (rules : GoMap Label Ref) (loaded : Packages Ref)
      → load_rules load ls ≡ ok (rules, loaded)
      → (l : Label) → contains l ls ≡ true
      → lookup l rules ≡ find_rule workspace l
  unfolding load_rules find_rule
  lookup-load_rules c [] rules loaded h l m = cc
  lookup-load_rules c (k ∷ ls) rules loaded h l m =
      let (pkgs, e, asked) = >>=-eq-ok (load (distinct_pkgs (k ∷ ls))) _ h in
      let known =
        c (distinct_pkgs (k ∷ ls)) pkgs asked (split l).0 (contains-distinct_pkgs (k ∷ ls) l m) in
      ground (
        arith,
        lookup-collect (find_rule (λ p. lookup p pkgs)) [] (k ∷ ls) l,
        ap (rule_in (split l).1) known,
      )

-- A loader that never fails makes LoadPackageGroups one that never fails.
pub load_package_groups_total :
    {E Ref : Type 0} (load : Loader E Ref)
    → ((names : List Text) → (pkgs : Packages Ref) × (load names ≡ ok pkgs))
    → (ls : List Label)
    → (groups : GoMap Label PackageGroup) × (load_package_groups load ls ≡ ok groups)
unfolding load_package_groups
load_package_groups_total load total [] = ([], refl)
load_package_groups_total load total (l ∷ ls) =
    let (pkgs, e) = total (distinct_pkgs (l ∷ ls)) in
    (collect (find_group (λ p. lookup p pkgs)) [] (l ∷ ls), rw e)
