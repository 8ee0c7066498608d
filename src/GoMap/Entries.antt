-- ===== src/GoMap/Entries.antt =====
-- What holds of every entry of a map, and maps built by writes.
use tools_jvm_autodeps.Base.{
  ◌≡◌, refl, subst₂, ◌⊎◌, inl, inr, Bool, true, false, ◌||◌, some, [], ◌∷◌, ◌++◌, arith,
  if◌then◌else◌, Bool-cases, Eq, ◌==◌, nat_eq, text_eq,
}
use tools_jvm_autodeps.GoMap.{GoMap, contains, lookup, put, delete, keys, IsMap}

module _ {K V : Type 0} ⦃e : Eq K⦄ where
  -- an entry of a map, found or not
  abbrev pub IsEntry : K → V → GoMap K V → Type 0
  IsEntry k v [] = ◌≡◌ {A = Bool} true false
  IsEntry k v ((j, w) ∷ m) = ((j ≡ k) × (w ≡ v)) ⊎ IsEntry k v m

  abbrev pub Every : (K → V → Type 0) → GoMap K V → Type 0
  Every P m = (k : K) (v : V) → IsEntry k v m → P k v

  pub IsEntry-of_lookup : (k : K) (v : V) (m : GoMap K V) → lookup k m ≡ some v → IsEntry k v m
  IsEntry-of_lookup k v [] h = cc
  IsEntry-of_lookup k v ((j, w) ∷ m) h = elim (Bool-cases (j == k)) [
    | inl same ↦ inl ((e.beq_iff j k).0 same, ground arith)
    | inr other ↦ inr (IsEntry-of_lookup k v m (ground arith))
  ]

  pub Every-put :
      (P : K → V → Type 0) (k : K) (v : V) (m : GoMap K V) → P k v → Every P m → Every P (put k v m)
  Every-put P k v [] p h = λ j w i. elim i [ inl (a, b) ↦ subst₂ P a b p | inr n ↦ h j w n ]
  Every-put P k v ((i, x) ∷ m) p h = elim (Bool-cases (i == k)) [
    | inl same ↦
        rw same (λ j w n. elim n [ inl (a, b) ↦ subst₂ P a b p | inr rest ↦ h j w (inr rest) ])
    | inr other ↦ rw other (λ j w n. elim n [
      | inl first ↦ h j w (inl first)
      | inr rest ↦ Every-put P k v m p (λ j w rest. h j w (inr rest)) j w rest
    ])
  ]

module _ {K V : Type 0} ⦃e : Eq K⦄ where
  -- A write to a new key goes to the end.
  pub put-fresh :
      (k : K) (v : V) (m : GoMap K V) → contains k (keys m) ≡ false → put k v m ≡ m ++ (k, v) ∷ []
  put-fresh k v [] h = refl
  put-fresh k v ((j, w) ∷ m) h = ground (arith, put-fresh k v m)

  pub contains-keys-put :
      (k j : K) (v : V) (m : GoMap K V)
      → contains j (keys (put k v m)) ≡ (k == j || contains j (keys m))
  contains-keys-put k j v [] = refl
  contains-keys-put k j v ((i, w) ∷ m) =
      ground (arith, e.beq_iff k j, e.beq_iff i k, e.beq_iff i j, contains-keys-put k j v m)

  pub IsMap-put : (k : K) (v : V) (m : GoMap K V) → IsMap m → IsMap (put k v m)
  IsMap-put k v [] h = (refl, tt)
  IsMap-put k v ((j, w) ∷ m) (fresh, h) = elim (Bool-cases (j == k)) [
    | inl same ↦ rw same (ground (arith, e.beq_iff j k), h)
    | inr other ↦
        rw other (
          ground (arith, contains-keys-put k j v m, e.beq_iff j k, e.beq_iff k j),
          IsMap-put k v m h,
        )
  ]

  pub contains-keys-delete :
      (k j : K) (m : GoMap K V)
      → contains j (keys (delete k m)) ≡ (if k == j then false else contains j (keys m))
  contains-keys-delete k j [] = ground arith
  contains-keys-delete k j ((i, w) ∷ m) =
      ground (arith, e.beq_iff k j, e.beq_iff i k, e.beq_iff i j, contains-keys-delete k j m)

  pub IsMap-delete : (k : K) (m : GoMap K V) → IsMap m → IsMap (delete k m)
  IsMap-delete k [] h = tt
  IsMap-delete k ((j, w) ∷ m) (fresh, h) = elim (Bool-cases (j == k)) [
    | inl same ↦ rw same (IsMap-delete k m h)
    | inr other ↦ rw other (ground (arith, contains-keys-delete k j m), IsMap-delete k m h)
  ]

  -- a key behind others
  pub fresh-middle :
      (m : GoMap K V) (k : K) (v : V) (rest : GoMap K V)
      → IsMap (m ++ (k, v) ∷ rest)
      → contains k (keys m) ≡ false
  fresh-middle [] k v rest h = refl
  fresh-middle ((j, w) ∷ m) k v rest (fresh, h) =
      ground (arith, fresh-middle m k v rest h, keys-has m k v rest, e.beq_iff j k)
    where
      keys-has :
          (m : GoMap K V) (k : K) (v : V) (rest : GoMap K V)
          → contains k (keys (m ++ (k, v) ∷ rest)) ≡ true
      keys-has [] k v rest = ground (arith, e.beq_iff k k)
      keys-has ((i, x) ∷ m) k v rest = ground (arith, keys-has m k v rest)
