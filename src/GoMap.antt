-- ===== src/GoMap.antt =====
-- Go's maps and sets. A `map[K]V` is the list of its entries: lookups and writes go by the key,
-- and a `range` loop goes through the entries in their order. The order of a Go map is not
-- specified, and the theorems hold for every order. A `map[K]bool` that only ever holds `true`
-- is the list of its keys.
pub mod Entries
use tools_jvm_autodeps.Base.{
  ◌≡◌, refl, ◌↔◌, Bool, true, false, ◌||◌, Option, none, some, List, [], ◌∷◌, ◌++◌, arith, Eq, ◌==◌,
  if◌then◌else◌,
}

abbrev pub GoMap {ℓ κ} : Type ℓ → Type κ → Type (ℓ ⊔ κ)
GoMap K V = List (K × V)

module _ {ℓ} {K : Type ℓ} ⦃e : Eq K⦄ where
  -- `set[k]`, for a set
  abbrev pub contains : K → List K → Bool
  contains k [] = false
  contains k (j ∷ s) = j == k || contains k s

  -- `set[k] = true`
  abbrev pub add : K → List K → List K
  add k s = if contains k s then s else s ++ k ∷ []

  pub contains-append :
      (k : K) (s t : List K) → contains k (s ++ t) ≡ (contains k s || contains k t)
  contains-append k [] t = refl
  contains-append k (j ∷ s) t = ground (arith, contains-append k s t)

module _ {ℓ} {K : Type ℓ} ⦃e : Eq K⦄ where
  pub contains-concat : (k j : K) (s : List K) → contains k (s ++ j ∷ []) ≡ (contains k s || j == k)
  contains-concat k j s = ground (arith, contains-append k s (j ∷ []))

module _ {ℓ κ} {K : Type ℓ} {V : Type κ} ⦃e : Eq K⦄ where
  -- `v, ok := m[k]`
  abbrev pub lookup : K → GoMap K V → Option V
  lookup k [] = none
  lookup k ((i, w) ∷ rest) = if i == k then some w else lookup k rest

  -- `m[k]`, with the zero value `d` for a missing key
  abbrev pub get : V → K → GoMap K V → V
  get d k [] = d
  get d k ((j, v) ∷ m) = if j == k then v else get d k m

  -- `m[k] = v`
  abbrev pub put : K → V → GoMap K V → GoMap K V
  put k v [] = (k, v) ∷ []
  put k v ((i, w) ∷ rest) = if i == k then (k, v) ∷ rest else (i, w) ∷ put k v rest

  -- `delete(m, k)`
  abbrev pub delete : K → GoMap K V → GoMap K V
  delete k [] = []
  delete k ((j, w) ∷ m) = let rest = delete k m in if j == k then rest else (j, w) ∷ rest

  -- the keys, in the order of a `range` loop
  abbrev pub keys : GoMap K V → List K
  keys [] = []
  keys ((j, w) ∷ m) = j ∷ keys m

module _ {ℓ κ} {K : Type ℓ} {V : Type κ} ⦃e : Eq K⦄ where
  pub lookup-put :
      (k j : K) (v : V) (m : GoMap K V)
      → lookup j (put k v m) ≡ (if k == j then some v else lookup j m)
  lookup-put k j v [] = refl
  lookup-put k j v ((i, w) ∷ m) =
      ground (arith, e.beq_iff k j, e.beq_iff i k, e.beq_iff i j, lookup-put k j v m)

  pub get-put :
      (d : V) (k j : K) (v : V) (m : GoMap K V)
      → get d j (put k v m) ≡ (if k == j then v else get d j m)
  get-put d k j v [] = refl
  get-put d k j v ((i, w) ∷ m) =
      ground (arith, e.beq_iff k j, e.beq_iff i k, e.beq_iff i j, get-put d k j v m)

  pub lookup-delete :
      (k j : K) (m : GoMap K V) → lookup j (delete k m) ≡ (if k == j then none else lookup j m)
  lookup-delete k j [] = ground arith
  lookup-delete k j ((i, w) ∷ m) =
      ground (arith, e.beq_iff k j, e.beq_iff i k, e.beq_iff i j, lookup-delete k j m)

module _ {ℓ} {K : Type ℓ} ⦃e : Eq K⦄ where
  -- `m[k]` is true exactly where `k` is there with true.
  pub get-eq-true_iff :
      (k : K) (m : GoMap K Bool) → (get false k m ≡ true) ↔ (lookup k m ≡ some true)
  get-eq-true_iff k [] = ground arith
  get-eq-true_iff k ((j, b) ∷ m) = ground (arith, get-eq-true_iff k m)

module _ {ℓ κ} {K : Type ℓ} {V : Type κ} ⦃e : Eq K⦄ where
  -- A Go map has one entry for each key.
  abbrev pub IsMap : GoMap K V → Type 0
  IsMap [] = Unit
  IsMap ((k, v) ∷ m) = (contains k (keys m) ≡ false) × IsMap m

  pub lookup-none : (k : K) (m : GoMap K V) → contains k (keys m) ≡ false → lookup k m ≡ none
  lookup-none k [] h = refl
  lookup-none k ((j, v) ∷ m) h = ground (arith, lookup-none k m)

  -- `m[k]` is the value of the entry, or the zero value.
  pub get-some : (d : V) (k : K) (v : V) (m : GoMap K V) → lookup k m ≡ some v → get d k m ≡ v
  get-some d k v [] h = cc
  get-some d k v ((j, w) ∷ m) h = ground (arith, get-some d k v m)

  pub get-none : (d : V) (k : K) (m : GoMap K V) → lookup k m ≡ none → get d k m ≡ d
  get-none d k [] h = refl
  get-none d k ((j, w) ∷ m) h = ground (arith, get-none d k m)

module _ {ℓ} {K : Type ℓ} ⦃e : Eq K⦄ where
  -- `delete(set, k)`
  abbrev pub remove : K → List K → List K
  remove k [] = []
  remove k (j ∷ s) = let rest = remove k s in if j == k then rest else j ∷ rest

module _ {ℓ} {K : Type ℓ} ⦃e : Eq K⦄ where
  pub contains-remove :
      (k j : K) (s : List K) → contains j (remove k s) ≡ (if k == j then false else contains j s)
  contains-remove k j [] = ground arith
  contains-remove k j (i ∷ s) =
      ground (arith, e.beq_iff k j, e.beq_iff i k, e.beq_iff i j, contains-remove k j s)

  pub contains-add : (k j : K) (s : List K) → contains j (add k s) ≡ (contains j s || k == j)
  contains-add k j s = ground (arith, contains-concat j k s, e.beq_iff k j)
