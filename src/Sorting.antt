-- ===== src/Sorting.antt =====
-- Go's sort.Slice and sort.Strings, by insertion. Where `less` is a strict total order, the sorted
-- list is the only one; what sort.Slice does with equal elements is not specified.
use tools_jvm_autodeps.Base.{
  ◌≡◌, refl, Bool, true, false, ◌||◌, List, [], ◌∷◌, arith, ltb, if◌then◌else◌, Eq, ◌==◌, Text,
  nat_eq, text_eq,
}
use tools_jvm_autodeps.GoMap.{contains}

module _ {ℓ} {A : Type ℓ} where
  abbrev pub insert_by : (A → A → Bool) → A → List A → List A
  insert_by less x [] = x ∷ []
  insert_by less x (y ∷ ys) =
      let rest = insert_by less x ys in if less y x then y ∷ rest else x ∷ y ∷ ys

  unfoldable pub sort_by : (A → A → Bool) → List A → List A
  sort_by less [] = []
  sort_by less (x ∷ xs) = insert_by less x (sort_by less xs)

-- `<` on strings
abbrev pub text_less : Text → Text → Bool
text_less s [] = false
text_less [] (d ∷ t) = true
text_less (c ∷ s) (d ∷ t) = if c == d then text_less s t else ltb c d

module _ {ℓ} {K : Type ℓ} ⦃e : Eq K⦄ where
  contains-insert_by :
      (less : K → K → Bool) (x : K) (ys : List K) (z : K)
      → contains z (insert_by less x ys) ≡ (x == z || contains z ys)
  contains-insert_by less x [] z = refl
  contains-insert_by less x (y ∷ ys) z = ground (arith, contains-insert_by less x ys z)

  -- Sorting keeps the members.
  pub contains-sort_by :
      (less : K → K → Bool) (xs : List K) (z : K) → contains z (sort_by less xs) ≡ contains z xs
  unfolding sort_by
  contains-sort_by less [] z = refl
  contains-sort_by less (x ∷ xs) z =
      ground (arith, contains-insert_by less x (sort_by less xs) z, contains-sort_by less xs z)
