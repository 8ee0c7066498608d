-- ===== src/ResolverUtil/Tests.antt =====
-- Two consuming rules that have different dependencies for a class.
use tools_jvm_autodeps.Base.{
  ◌≡◌, refl, ◌↔◌, true, some, List, [], ◌∷◌, is_some, Text, nat_eq, text_eq,
}
use tools_jvm_autodeps.GoMap.{GoMap, contains, lookup}
use tools_jvm_autodeps.Strings.{codes}
use tools_jvm_autodeps.Bazel.{Label}
use tools_jvm_autodeps.ResolverUtil.{
  first_satisfying, cover, class_loop, satisfied_by_existing_deps,
}
use tools_jvm_autodeps.ResolverUtil.Cover.{Covers}
use tools_jvm_autodeps.ResolverUtil.Satisfied.{
  satisfied_by_existing_deps_iff, satisfied_by_existing_deps-Covers,
}

abbrev rules : GoMap Label (List Label)
rules = (codes "//:f", codes "//:b" ∷ []) ∷ (codes "//:g", codes "//:c" ∷ []) ∷ []

abbrev satisfying : GoMap Text (List Label)
satisfying = (codes "B", codes "//:c" ∷ codes "//:b" ∷ []) ∷ (codes "Z", codes "//:b" ∷ []) ∷ []

satisfied_runs :
    satisfied_by_existing_deps rules satisfying ≡ (codes "B", codes "//:b" ∷ codes "//:c" ∷ []) ∷ []
unfolding satisfied_by_existing_deps class_loop cover first_satisfying
satisfied_runs = refl

satisfied_by_existing_deps_iff_example :
    (is_some (lookup (codes "Z") (satisfied_by_existing_deps rules satisfying)) ≡ true) ↔ (
      (possible : List Label) × (lookup (codes "Z") satisfying ≡ some possible)
      × Covers rules possible)
satisfied_by_existing_deps_iff_example =
    satisfied_by_existing_deps_iff rules satisfying (codes "Z") (λ h. cc) (refl, (refl, tt))
      (refl, (refl, tt))

satisfied_by_existing_deps-Covers_example :
    Covers rules (codes "//:b" ∷ codes "//:c" ∷ [])
    × ((possible : List Label) × (lookup (codes "B") satisfying ≡ some possible)
        × ((d : Label)
            → contains d (codes "//:b" ∷ codes "//:c" ∷ []) ≡ true
            → contains d possible ≡ true))
unfolding satisfied_by_existing_deps class_loop cover first_satisfying
satisfied_by_existing_deps-Covers_example =
    satisfied_by_existing_deps-Covers rules satisfying (codes "B")
      (codes "//:b" ∷ codes "//:c" ∷ []) (λ h. cc) (refl, (refl, tt)) refl
