-- ===== src/Parser/Builtin/Order.antt =====
-- `<` on strings is a strict total order, and sort.Strings sorts by it.
use tools_jvm_autodeps.Base.{
  ◌≡◌, refl, inl, inr, true, false, ◌||◌, List, [], ◌∷◌, arith, Bool-cases, Text, nat_eq, text_eq,
}
use tools_jvm_autodeps.Sorting.{text_less, insert_by, sort_by}

-- What is below `u` is below `t`, or `t` is below `u`.
text_less_or : (s t u : Text) → text_less s u ≡ true → (text_less s t || text_less t u) ≡ true
text_less_or s t [] h = ground arith
text_less_or [] [] (c ∷ u) h = refl
text_less_or [] (d ∷ t) (c ∷ u) h = refl
text_less_or (x ∷ s) [] (c ∷ u) h = refl
text_less_or (x ∷ s) (d ∷ t) (c ∷ u) h = ground (arith, text_less_or s t u)

pub text_less_antisym : (s t : Text) → text_less s t ≡ false → text_less t s ≡ false → s ≡ t
text_less_antisym [] [] h k = refl
text_less_antisym [] (d ∷ t) h k = ground arith
text_less_antisym (c ∷ s) [] h k = ground arith
text_less_antisym (c ∷ s) (d ∷ t) h k = ground (arith, text_less_antisym s t)

pub text_less_irrefl : (s : Text) → text_less s s ≡ false
text_less_irrefl [] = refl
text_less_irrefl (c ∷ s) = ground (arith, text_less_irrefl s)

-- `s ≤ t ≤ u`
pub text_le_trans :
    (s t u : Text) → text_less t s ≡ false → text_less u t ≡ false → text_less u s ≡ false
text_le_trans s t u h k = ground (arith, text_less_or u t s)

pub text_less_asym : (s t : Text) → text_less s t ≡ true → text_less t s ≡ false
text_less_asym [] [] h = ground arith
text_less_asym [] (d ∷ t) h = refl
text_less_asym (c ∷ s) [] h = ground arith
text_less_asym (c ∷ s) (d ∷ t) h = ground (arith, text_less_asym s t)

-- No element is below `s`.
abbrev pub AllReach : Text → List Text → Type 0
AllReach s [] = Unit
AllReach s (t ∷ ts) = (text_less t s ≡ false) × AllReach s ts

abbrev pub IsSorted : List Text → Type 0
IsSorted [] = Unit
IsSorted (s ∷ ts) = AllReach s ts × IsSorted ts

pub AllReach-trans :
    (r s : Text) (ts : List Text) → text_less s r ≡ false → AllReach s ts → AllReach r ts
AllReach-trans r s [] h all = tt
AllReach-trans r s (t ∷ ts) h (one, all) = (text_le_trans r s t h one, AllReach-trans r s ts h all)

insert_by-AllReach :
    (r s : Text) (ts : List Text)
    → text_less s r ≡ false
    → AllReach r ts
    → AllReach r (insert_by text_less s ts)
insert_by-AllReach r s [] h all = (h, tt)
insert_by-AllReach r s (t ∷ ts) h (one, all) = elim (Bool-cases (text_less t s)) [
  | inl less ↦ rw less (one, insert_by-AllReach r s ts h all)
  | inr more ↦ rw more (h, (one, all))
]

insert_by-IsSorted : (s : Text) (ts : List Text) → IsSorted ts → IsSorted (insert_by text_less s ts)
insert_by-IsSorted s [] sorted = (tt, tt)
insert_by-IsSorted s (t ∷ ts) (all, sorted) = elim (Bool-cases (text_less t s)) [
  | inl less ↦
      rw less
        (insert_by-AllReach t s ts (text_less_asym t s less) all, insert_by-IsSorted s ts sorted)
  | inr more ↦ rw more ((more, AllReach-trans s t ts more all), (all, sorted))
]

pub sort_by-IsSorted : (ts : List Text) → IsSorted (sort_by text_less ts)
unfolding sort_by
sort_by-IsSorted [] = tt
sort_by-IsSorted (t ∷ ts) = insert_by-IsSorted t (sort_by text_less ts) (sort_by-IsSorted ts)
