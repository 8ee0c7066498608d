-- ===== src/Counting.antt =====
-- Counting where a Boolean test fails, for the measures by which searches end.
use tools_jvm_autodeps.Base.{
  ℕ, ◌+◌, ◌*◌, ◌≤◌, ◌<◌, ◌≡◌, inl, inr, Bool, true, false, List, [], ◌∷◌, arith, if◌then◌else◌,
  Bool-cases, length, Eq, ◌==◌, nat_eq, text_eq,
}
use tools_jvm_autodeps.GoMap.{contains}

module _ {ℓ} {B : Type ℓ} ⦃b : Eq B⦄ where
  -- the members at which `p` is false
  abbrev pub count_row : (B → Bool) → List B → ℕ
  count_row p [] = 0
  count_row p (y ∷ ys) = (if p y then 0 else 1) + count_row p ys

  pub count_row_mono :
      (p q : B → Bool) (ys : List B)
      → ((y : B) → p y ≡ true → q y ≡ true)
      → count_row q ys ≤ count_row p ys
  count_row_mono p q [] h = omega arith
  count_row_mono p q (y ∷ ys) h = ground (arith, count_row_mono p q ys h, h y)

  pub count_row-le : (p : B → Bool) (ys : List B) → count_row p ys ≤ length ys
  count_row-le p [] = omega arith
  count_row-le p (y ∷ ys) = ground (arith, count_row-le p ys)

  pub count_row_lt :
      (p q : B → Bool) (ys : List B) (z : B)
      → ((y : B) → p y ≡ true → q y ≡ true)
      → contains z ys ≡ true
      → p z ≡ false
      → q z ≡ true
      → count_row q ys < count_row p ys
  count_row_lt p q [] z h m f g = cc
  count_row_lt p q (y ∷ ys) z h m f g = elim (Bool-cases (y == z)) [
    | inl same ↦ ground (arith, (b.beq_iff y z).0 same, count_row_mono p q ys h)
    | inr other ↦ ground (arith, count_row_lt p q ys z h, h y)
  ]

module _ {ℓ κ} {A : Type ℓ} {B : Type κ} ⦃a : Eq A⦄ ⦃b : Eq B⦄ where
  -- the pairs at which `p` is false
  abbrev pub count_pairs : (A → B → Bool) → List A → List B → ℕ
  count_pairs p [] ys = 0
  count_pairs p (x ∷ xs) ys = count_row (p x) ys + count_pairs p xs ys

  pub count_pairs_mono :
      (p q : A → B → Bool) (xs : List A) (ys : List B)
      → ((x : A) (y : B) → p x y ≡ true → q x y ≡ true)
      → count_pairs q xs ys ≤ count_pairs p xs ys
  count_pairs_mono p q [] ys h = omega arith
  count_pairs_mono p q (x ∷ xs) ys h =
      omega (arith, count_row_mono (p x) (q x) ys (h x), count_pairs_mono p q xs ys h)

  pub count_pairs_lt :
      (p q : A → B → Bool) (xs : List A) (ys : List B) (w : A) (z : B)
      → ((x : A) (y : B) → p x y ≡ true → q x y ≡ true)
      → contains w xs ≡ true
      → contains z ys ≡ true
      → p w z ≡ false
      → q w z ≡ true
      → count_pairs q xs ys < count_pairs p xs ys
  count_pairs_lt p q [] ys w z h m n f g = cc
  count_pairs_lt p q (x ∷ xs) ys w z h m n f g = elim (Bool-cases (x == w)) [
    | inl same ↦
        let e : x ≡ w = (a.beq_iff x w).0 same in
        let strict = count_row_lt (p x) (q x) ys z (h x) n (rw e f) (rw e g) in
        omega (arith, strict, count_pairs_mono p q xs ys h)
    | inr other ↦
        let rest = count_pairs_lt p q xs ys w z h (ground arith) n f g in
        omega (arith, rest, count_row_mono (p x) (q x) ys (h x))
  ]

  pub count_pairs-le :
      (p : A → B → Bool) (xs : List A) (ys : List B) → count_pairs p xs ys ≤ length xs * length ys
  count_pairs-le p [] ys = omega arith
  count_pairs-le p (x ∷ xs) ys = omega (arith, count_row-le (p x) ys, count_pairs-le p xs ys)
