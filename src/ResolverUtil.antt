-- ===== src/ResolverUtil.antt =====
-- resolverutil/resolverutil.go: the class names that the existing dependencies satisfy.
pub mod Cover
pub mod Satisfied
pub mod Tests
use tools_jvm_autodeps.Base.{
  Bool, ◌||◌, Option, none, some, List, [], ◌∷◌, ◌++◌, if◌then◌else◌, ◌==◌, Text, nat_eq, text_eq,
}
use tools_jvm_autodeps.GoMap.{GoMap, contains, put}
use tools_jvm_autodeps.Bazel.{Label}

-- the test of the inner loop
abbrev pub satisfies : Label → List Label → Label → Bool
satisfies consuming_rule existing_deps d = consuming_rule == d || contains d existing_deps

-- the inner loop, which ends at the first dependency that passes
unfoldable pub first_satisfying : Label → List Label → List Label → Option Label
first_satisfying consuming_rule existing_deps [] = none
first_satisfying consuming_rule existing_deps (d ∷ possible_deps) =
    let rest = first_satisfying consuming_rule existing_deps possible_deps in
    if satisfies consuming_rule existing_deps d then some d else rest

-- the loop over the consuming rules, where `none` is `continue classLoop`
unfoldable pub cover : List Label → List Label → GoMap Label (List Label) → Option (List Label)
cover possible_deps found [] = some found
cover possible_deps found ((consuming_rule, existing_deps) ∷ rules) =
    elim (first_satisfying consuming_rule existing_deps possible_deps) [
      | some d ↦ cover possible_deps (found ++ d ∷ []) rules
      | none ↦ none
    ]

abbrev pub add_covered :
    Text → Option (List Label) → GoMap Text (List Label) → GoMap Text (List Label)
add_covered cls none already_satisfied = already_satisfied
add_covered cls (some deps) already_satisfied = put cls deps already_satisfied

-- the loop over the classes
unfoldable pub class_loop :
    GoMap Label (List Label)
    → GoMap Text (List Label)
    → GoMap Text (List Label)
    → GoMap Text (List Label)
class_loop consuming_rules already_satisfied [] = already_satisfied
class_loop consuming_rules already_satisfied ((cls, possible_deps) ∷ satisfying_rules) =
    class_loop consuming_rules
      (add_covered cls (cover possible_deps [] consuming_rules) already_satisfied) satisfying_rules

unfoldable pub satisfied_by_existing_deps :
    GoMap Label (List Label) → GoMap Text (List Label) → GoMap Text (List Label)
unfolding class_loop
satisfied_by_existing_deps [] satisfying_rules = []
satisfied_by_existing_deps (rule ∷ rules) satisfying_rules =
    class_loop (rule ∷ rules) [] satisfying_rules
