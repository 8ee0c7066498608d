-- ===== src/Jadeplib/Selection/Tests.antt =====
-- A user who mistypes twice and then chooses the second option.
use tools_jvm_autodeps.Base.{
  ℕ, ◌≡◌, refl, ◌≢◌, true, none, some, List, [], ◌∷◌, nat_eq, text_eq, pos,
}
use tools_jvm_autodeps.GoMap.{GoMap, contains}
use tools_jvm_autodeps.Strings.{codes}
use tools_jvm_autodeps.Bazel.{Label}
use tools_jvm_autodeps.PkgLoading.{ok, err}
use tools_jvm_autodeps.Jadeplib.{ClassName}
use tools_jvm_autodeps.Jadeplib.Selection.{
  Read, word, panicked, ask_loop, ask, dep_already_satisfied, offer_options, select_classes,
  select_loop, select_deps_to_add, turn,
}
use tools_jvm_autodeps.Jadeplib.Selection.Safe.{
  options, select_deps_to_add_safe, select_classes_from,
}

abbrev classes : GoMap ClassName (List Label)
classes =
    (codes "C", codes "//b:y" ∷ codes "//b:z" ∷ [])
    ∷ (codes "D", codes "//b:z" ∷ codes "//b:w" ∷ [])
    ∷ []

abbrev input : List Read
input = word none ∷ word (some (pos 7)) ∷ word (some (pos 2)) ∷ []

select_runs :
    select_deps_to_add {Ref = ℕ} input ((5, classes) ∷ []) ≡ ok ((5, codes "//b:z" ∷ []) ∷ [])
unfolding select_deps_to_add select_loop select_classes turn offer_options ask ask_loop
    dep_already_satisfied
select_runs = refl

select_deps_to_add_safe_example :
    select_deps_to_add {Ref = ℕ} input ((5, classes) ∷ []) ≢ err panicked
select_deps_to_add_safe_example =
    select_deps_to_add_safe {Ref = ℕ} input ((5, classes) ∷ []) (((λ h. cc), ((λ h. cc), tt)), tt)

select_classes_from_example : contains (codes "//b:z") (options classes) ≡ true
unfolding select_classes turn offer_options ask ask_loop dep_already_satisfied
select_classes_from_example =
    select_classes_from classes input
      (record { added_deps = codes "//b:z" ∷ []; deps_to_add = codes "//b:z" ∷ []; input = [] })
      (codes "//b:z") ((λ h. cc), ((λ h. cc), tt)) refl refl
