-- ===== src/ResolverUtil/Cover.antt =====
-- The two inner loops: one dependency for each consuming rule.
use tools_jvm_autodeps.Base.{
  ◌≡◌, refl, inl, inr, true, false, ◌||◌, none, some, List, [], ◌∷◌, ◌++◌, arith, Bool-cases,
  Option-cases, ◌==◌, text_beq_iff, nat_eq, text_eq,
}
use tools_jvm_autodeps.GoMap.{GoMap, contains, lookup, contains-concat, IsMap, lookup-none}
use tools_jvm_autodeps.Bazel.{Label}
use tools_jvm_autodeps.ResolverUtil.{satisfies, first_satisfying, cover}

-- Every consuming rule has a dependency among `ds` that satisfies it.
abbrev pub Covers : GoMap Label (List Label) → List Label → Type 0
Covers rules ds =
    (rule : Label) (existing : List Label)
    → lookup rule rules ≡ some existing
    → (d : Label) × (contains d ds ≡ true) × (satisfies rule existing d ≡ true)

pub first_satisfying-some :
    (rule : Label) (existing possible : List Label) (d : Label)
    → first_satisfying rule existing possible ≡ some d
    → (contains d possible ≡ true) × (satisfies rule existing d ≡ true)
unfolding first_satisfying
first_satisfying-some rule existing [] d h = cc
first_satisfying-some rule existing (p ∷ possible) d h =
    ground (arith, first_satisfying-some rule existing possible d, text_beq_iff p d)

pub first_satisfying-none :
    (rule : Label) (existing possible : List Label) (d : Label)
    → first_satisfying rule existing possible ≡ none
    → contains d possible ≡ true
    → satisfies rule existing d ≡ false
unfolding first_satisfying
first_satisfying-none rule existing [] d h m = cc
first_satisfying-none rule existing (p ∷ possible) d h m =
    ground (arith, first_satisfying-none rule existing possible d, text_beq_iff p d)

-- What was found before stays, and the rest covers the rules.
pub cover_keeps :
    (possible found : List Label) (rules : GoMap Label (List Label)) (ds : List Label) (d : Label)
    → cover possible found rules ≡ some ds
    → contains d found ≡ true
    → contains d ds ≡ true
unfolding cover
cover_keeps possible found [] ds d h m = ground arith
cover_keeps possible found ((rule, existing) ∷ rules) ds d h m =
    elim (Option-cases (first_satisfying rule existing possible)) [
      | inl n ↦ ground arith
      | inr (x, g) ↦
          cover_keeps possible (found ++ x ∷ []) rules ds d (ground arith)
            (ground (arith, contains-concat d x found))
    ]

pub cover-Covers :
    (possible found : List Label) (rules : GoMap Label (List Label)) (ds : List Label)
    → cover possible found rules ≡ some ds
    → Covers rules ds
unfolding cover
cover-Covers possible found [] ds h rule existing l = cc
cover-Covers possible found ((r, ex) ∷ rules) ds h rule existing l =
    elim (Option-cases (first_satisfying r ex possible)) [
      | inl n ↦ ground arith
      | inr (x, g) ↦
          let rest : cover possible (found ++ x ∷ []) rules ≡ some ds = ground arith in
          elim (Bool-cases (r == rule)) [
            | inl same ↦ (
              x,
              cover_keeps possible (found ++ x ∷ []) rules ds x rest
                  (ground (arith, contains-concat x x found, text_beq_iff x x)),
              ground (arith, first_satisfying-some r ex possible x g, text_beq_iff r rule),
            )
            | inr other ↦
                cover-Covers possible (found ++ x ∷ []) rules ds rest rule existing (ground arith)
          ]
    ]

-- All that is found is possible.
pub cover_possible :
    (possible found : List Label) (rules : GoMap Label (List Label)) (ds : List Label) (d : Label)
    → cover possible found rules ≡ some ds
    → contains d ds ≡ true
    → (contains d found || contains d possible) ≡ true
unfolding cover
cover_possible possible found [] ds d h m = ground arith
cover_possible possible found ((r, ex) ∷ rules) ds d h m =
    elim (Option-cases (first_satisfying r ex possible)) [
      | inl n ↦ ground arith
      | inr (x, g) ↦
          let rest : cover possible (found ++ x ∷ []) rules ≡ some ds = ground arith in
          ground (
            arith,
            cover_possible possible (found ++ x ∷ []) rules ds d rest m,
            contains-concat d x found,
            first_satisfying-some r ex possible x g,
            text_beq_iff x d,
          )
    ]

-- Where the possible dependencies cover the rules, the loops find some of them that do.
pub cover_total :
    (possible found : List Label) (rules : GoMap Label (List Label))
    → IsMap rules
    → Covers rules possible
    → (ds : List Label) × (cover possible found rules ≡ some ds)
unfolding cover
cover_total possible found [] u c = (found, refl)
cover_total possible found ((r, ex) ∷ rules) (fresh, u) c =
    elim (Option-cases (first_satisfying r ex possible)) [
      | inl n ↦
          let (d, i, s) = c r ex (ground (arith, text_beq_iff r r)) in
          ground (arith, first_satisfying-none r ex possible d n i)
      | inr (x, g) ↦
          let (ds, e) = cover_total possible (found ++ x ∷ []) rules u (λ rule existing l.
            c rule existing (ground (arith, text_beq_iff r rule, lookup-none r rules))) in
          (ds, ground arith)
    ]
