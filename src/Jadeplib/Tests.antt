-- ===== src/Jadeplib/Tests.antt =====
-- Two resolvers that share the classes, and one that knows no rule for a class.
use tools_jvm_autodeps.Base.{
  ℕ, ◌≡◌, refl, inl, inr, false, none, some, List, [], ◌∷◌, map, if◌then◌else◌, Bool-cases, Text,
  nat_eq, text_eq, Option, true, Bool, ◌↔◌, ◌==◌, ◌≢◌,
}
use tools_jvm_autodeps.GoMap.{contains, lookup}
use tools_jvm_autodeps.Strings.{codes}
use tools_jvm_autodeps.Sorting.{sort_by}
use tools_jvm_autodeps.Jadeplib.{
  ClassName, DepsOfRules, Resolver, append_rules, take_answers, stage, resolve_loop, all_names,
  resolve_all,
}
use tools_jvm_autodeps.Jadeplib.Names.{exclude_class_names, exclude_class_names_iff}
use tools_jvm_autodeps.Jadeplib.Partition.{
  IsAnswer, Silenced, Parted, resolve_all-Parted, resolve_all_drops,
}

-- knows one class
abbrev knows : Text → ℕ → Resolver ℕ ℕ
knows c r names deps = (if contains c names then (c, r ∷ []) ∷ [] else [], none)

abbrev failing : Resolver ℕ ℕ
failing names deps = ([], some 3)

abbrev resolvers : List (Resolver ℕ ℕ)
resolvers = knows (codes "B") 1 ∷ failing ∷ knows (codes "A") 2 ∷ []

abbrev names : List ClassName
names = codes "Z" ∷ codes "A" ∷ codes "B" ∷ codes "A" ∷ []

resolve_all_runs : resolve_all resolvers names [] ≡ record {
  resolved = (codes "B", 1 ∷ []) ∷ (codes "A", 2 ∷ []) ∷ [];
  unresolved = codes "Z" ∷ [];
  errors = (1, 3) ∷ [];
}
unfolding resolve_all resolve_loop stage take_answers append_rules all_names sort_by
resolve_all_runs = refl

-- answers one class with no rule, as dictresolver does for labels that do not load
abbrev silences : Text → Resolver ℕ ℕ
silences c names deps = (if contains c names then (c, []) ∷ [] else [], none)

knows-IsAnswer :
    (c : Text) (r : ℕ) (asked : List ClassName) (deps : DepsOfRules)
    → IsAnswer asked (knows c r asked deps).0
knows-IsAnswer c r asked deps = elim (Bool-cases (contains c asked)) [
  | inl t ↦ rw t (t, tt)
  | inr f ↦ rw f tt
]

silences-IsAnswer :
    (c : Text) (asked : List ClassName) (deps : DepsOfRules)
    → IsAnswer asked (silences c asked deps).0
silences-IsAnswer c asked deps = elim (Bool-cases (contains c asked)) [
  | inl t ↦ rw t (t, tt)
  | inr f ↦ rw f tt
]

abbrev with_silence : List (Resolver ℕ ℕ)
with_silence = knows (codes "B") 1 ∷ silences (codes "Z") ∷ knows (codes "A") 2 ∷ []

resolve_all-Parted_example :
    Parted names (λ c. Silenced [] c with_silence) (resolve_all with_silence names [])
resolve_all-Parted_example = resolve_all-Parted with_silence names [] (
  knows-IsAnswer (codes "B") 1,
  (silences-IsAnswer (codes "Z"), (knows-IsAnswer (codes "A") 2, tt)),
)

abbrev knows_nothing : Resolver ℕ ℕ
knows_nothing asked deps = (map (λ c. (c, [])) asked, none)

resolve_all_drops_example :
    (lookup (codes "A") (resolve_all (knows_nothing ∷ []) (codes "A" ∷ []) []).resolved ≡ none)
    × (contains (codes "A") (resolve_all (knows_nothing ∷ []) (codes "A" ∷ []) []).unresolved
        ≡ false)
resolve_all_drops_example = resolve_all_drops knows_nothing (codes "A") [] refl

-- an expression that is the text itself, where the empty one does not compile
abbrev same_text : Text → Text → Option Bool
same_text regexp c = if regexp == [] then none else some (regexp == c)

exclude_class_names_iff_example :
    (contains (codes "A") (exclude_class_names same_text ([] ∷ codes "B" ∷ []) names) ≡ true) ↔ (
      (contains (codes "A") names ≡ true)
      × ((regexp : Text)
          → contains regexp ([] ∷ codes "B" ∷ []) ≡ true
          → same_text regexp (codes "A") ≢ some true))
exclude_class_names_iff_example =
    exclude_class_names_iff same_text ([] ∷ codes "B" ∷ []) names (codes "A")
