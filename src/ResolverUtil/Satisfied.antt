-- ===== src/ResolverUtil/Satisfied.antt =====
-- SatisfiedByExistingDeps against its specification.
use tools_jvm_autodeps.Base.{
  ◌≡◌, refl, ◌≢◌, ◌↔◌, inl, inr, true, Option, none, some, List, [], ◌∷◌, arith, if◌then◌else◌,
  Option-cases, is_some, ◌==◌, Text, text_beq_iff, nat_eq, text_eq,
}
use tools_jvm_autodeps.GoMap.{GoMap, contains, lookup, lookup-put, IsMap, lookup-none}
use tools_jvm_autodeps.Bazel.{Label}
use tools_jvm_autodeps.ResolverUtil.{cover, add_covered, class_loop, satisfied_by_existing_deps}
use tools_jvm_autodeps.ResolverUtil.Cover.{Covers, cover-Covers, cover_possible, cover_total}

abbrev or_else : Option (List Label) → Option (List Label) → Option (List Label)
or_else none o = o
or_else (some ds) o = some ds

abbrev pub covered : GoMap Label (List Label) → Option (List Label) → Option (List Label)
covered rules none = none
covered rules (some possible) = cover possible [] rules

lookup-add_covered :
    (k j : Text) (o : Option (List Label)) (m : GoMap Text (List Label))
    → lookup j (add_covered k o m) ≡ (if k == j then or_else o (lookup j m) else lookup j m)
lookup-add_covered k j none m = ground (arith, text_beq_iff k j)
lookup-add_covered k j (some ds) m = lookup-put k j ds m

lookup-class_loop :
    (rules : GoMap Label (List Label)) (acc satisfying : GoMap Text (List Label)) (cls : Text)
    → IsMap satisfying
    → lookup cls (class_loop rules acc satisfying)
      ≡ or_else (covered rules (lookup cls satisfying)) (lookup cls acc)
unfolding class_loop
lookup-class_loop rules acc [] cls u = refl
lookup-class_loop rules acc ((c, possible) ∷ satisfying) cls (fresh, u) = ground (
  arith,
  lookup-class_loop rules (add_covered c (cover possible [] rules) acc) satisfying cls u,
  lookup-add_covered c cls (cover possible [] rules) acc,
  lookup-none c satisfying,
  text_beq_iff c cls,
)

pub lookup-satisfied_by_existing_deps :
    (rules : GoMap Label (List Label)) (satisfying : GoMap Text (List Label)) (cls : Text)
    → rules ≢ []
    → IsMap satisfying
    → lookup cls (satisfied_by_existing_deps rules satisfying)
      ≡ covered rules (lookup cls satisfying)
unfolding satisfied_by_existing_deps
lookup-satisfied_by_existing_deps [] satisfying cls n u = ground arith
lookup-satisfied_by_existing_deps (rule ∷ rules) satisfying cls n u =
    ground (arith, lookup-class_loop (rule ∷ rules) [] satisfying cls u)

-- Where there is a consuming rule, SatisfiedByExistingDeps returns a class exactly if it has
-- possible dependencies among which every consuming rule has itself or one of its existing ones.
pub satisfied_by_existing_deps_iff :
    (rules : GoMap Label (List Label)) (satisfying : GoMap Text (List Label)) (cls : Text)
    → rules ≢ []
    → IsMap rules
    → IsMap satisfying
    → (is_some (lookup cls (satisfied_by_existing_deps rules satisfying)) ≡ true)
      ↔ ((possible : List Label) × (lookup cls satisfying ≡ some possible) × Covers rules possible)
satisfied_by_existing_deps_iff rules satisfying cls n r u =
    let e = lookup-satisfied_by_existing_deps rules satisfying cls n u in
    (
      λ h. elim (Option-cases (lookup cls satisfying)) [
        | inl absent ↦ ground arith
        | inr (possible, there) ↦ elim (Option-cases (cover possible [] rules)) [
          | inl fails ↦ ground arith
          | inr (ds, found) ↦ (possible, there, weaken possible ds found)
        ]
      ],
      λ (possible, there, c). let (ds, found) = cover_total possible [] rules r c in ground arith,
    )
  where
    weaken : (possible ds : List Label) → cover possible [] rules ≡ some ds → Covers rules possible
    weaken possible ds found rule existing l =
        let (d, i, s) = cover-Covers possible [] rules ds found rule existing l in
        (d, ground (arith, cover_possible possible [] rules ds d found i), s)

-- The labels that SatisfiedByExistingDeps returns for a class cover the consuming rules, and are
-- possible dependencies of the class.
pub satisfied_by_existing_deps-Covers :
    (rules : GoMap Label (List Label)) (satisfying : GoMap Text (List Label)) (cls : Text)
    (ds : List Label)
    → rules ≢ []
    → IsMap satisfying
    → lookup cls (satisfied_by_existing_deps rules satisfying) ≡ some ds
    → Covers rules ds
      × ((possible : List Label) × (lookup cls satisfying ≡ some possible)
          × ((d : Label) → contains d ds ≡ true → contains d possible ≡ true))
satisfied_by_existing_deps-Covers rules satisfying cls ds n u h =
    let e = lookup-satisfied_by_existing_deps rules satisfying cls n u in
    elim (Option-cases (lookup cls satisfying)) [
      | inl absent ↦ ground arith
      | inr (possible, there) ↦
          let found : cover possible [] rules ≡ some ds = ground arith in
          (
            cover-Covers possible [] rules ds found,
            (possible, there, λ d i. ground (arith, cover_possible possible [] rules ds d found i)),
          )
    ]
