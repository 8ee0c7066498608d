-- ===== src/Parser/Builtin/Search.antt =====
-- The binary search finds a string exactly if a sorted list has it.
use tools_jvm_autodeps.Base.{
  ℕ, zero, suc, ◌+◌, ◌-◌, ◌/◌, ◌≤◌, ◌<◌, ◌≡◌, refl, ap, inl, inr, true, false, some, List, [], ◌∷◌,
  arith, ltb, Bool-cases, length, get_elem?, ◌==◌, Text, text_beq_iff, nat_eq, text_eq,
}
use tools_jvm_autodeps.GoMap.{contains}
use tools_jvm_autodeps.Sorting.{text_less}
use tools_jvm_autodeps.Parser.Builtin.{reaches, search_from, search_strings, is_string, is_builtin}
use tools_jvm_autodeps.Parser.Builtin.Order.{
  text_less_antisym, text_less_irrefl, AllReach-trans, AllReach, IsSorted,
}

AllReach-get_elem? :
    (s : Text) (strings : List Text) (i : ℕ)
    → AllReach s strings
    → reaches s (get_elem? strings i) ≡ true
AllReach-get_elem? s [] i all = refl
AllReach-get_elem? s (t ∷ ts) zero (one, all) = ground arith
AllReach-get_elem? s (t ∷ ts) (suc i) (one, all) = AllReach-get_elem? s ts i all

-- from one index on the test holds
reaches_on :
    (s : Text) (strings : List Text) (i j : ℕ)
    → IsSorted strings
    → i ≤ j
    → reaches s (get_elem? strings i) ≡ true
    → reaches s (get_elem? strings j) ≡ true
reaches_on s [] i j sorted le h = refl
reaches_on s (t ∷ ts) zero zero sorted le h = h
reaches_on s (t ∷ ts) zero (suc j) (all, sorted) le h =
    AllReach-get_elem? s ts j (AllReach-trans s t ts (ground arith) all)
reaches_on s (t ∷ ts) (suc i) zero sorted le h = absurd (omega arith)
reaches_on s (t ∷ ts) (suc i) (suc j) (all, sorted) le h =
    reaches_on s ts i j sorted (omega arith) h

-- `k` is where the test starts to hold
abbrev IsStart : List Text → Text → ℕ → Type 0
IsStart strings s k =
    ((m : ℕ) → m < k → reaches s (get_elem? strings m) ≡ false)
    × ((m : ℕ) → k ≤ m → reaches s (get_elem? strings m) ≡ true)

search_from-IsStart :
    (fuel : ℕ) (strings : List Text) (s : Text) (i j : ℕ)
    → IsSorted strings
    → i ≤ j
    → j - i < fuel
    → ((m : ℕ) → m < i → reaches s (get_elem? strings m) ≡ false)
    → ((m : ℕ) → j ≤ m → reaches s (get_elem? strings m) ≡ true)
    → (k : ℕ) × (search_from fuel strings s i j ≡ some k) × IsStart strings s k
unfolding search_from
search_from-IsStart zero strings s i j sorted le enough below above = absurd (omega arith)
search_from-IsStart (suc fuel) strings s i j sorted le enough below above =
    let h = (i + j) / 2 in
    elim (Bool-cases (ltb i j)) [
      | inr done ↦ (i, ground arith, (below, λ m up. above m (ground arith)))
      | inl more ↦ elim (Bool-cases (reaches s (get_elem? strings h))) [
        | inl there ↦
            let (k, ran, start) =
              search_from-IsStart fuel strings s i h sorted (ground arith) (ground arith) below
                (λ m up. reaches_on s strings h m sorted up there) in
            (k, ground arith, start)
        | inr not_there ↦
            let (k, ran, start) =
              search_from-IsStart fuel strings s (suc h) j sorted (ground arith) (ground arith)
                (λ m down. ground (arith, reaches_on s strings m h sorted)) above in
            (k, ground arith, start)
      ]
    ]

contains-AllReach :
    (s t : Text) (ts : List Text) → AllReach t ts → text_less s t ≡ true → contains s ts ≡ false
contains-AllReach s t [] all less = refl
contains-AllReach s t (x ∷ ts) (one, all) less =
    ground (arith, contains-AllReach s t ts all, text_beq_iff x s, ap (λ y. text_less y t))

-- Where the test starts to hold the string stands, if it is there.
is_string-contains :
    (strings : List Text) (s : Text) (k : ℕ)
    → IsSorted strings
    → IsStart strings s k
    → is_string s (get_elem? strings k) ≡ contains s strings
is_string-contains [] s k sorted start = refl
is_string-contains (t ∷ ts) s zero (all, sorted) (below, above) =
    let here = above 0 (omega arith) in
    elim (Bool-cases (t == s)) [
      | inl same ↦ ground arith
      | inr other ↦ elim (Bool-cases (text_less s t)) [
        | inl less ↦ ground (arith, contains-AllReach s t ts all)
        | inr not_less ↦ ground (arith, text_less_antisym s t, text_beq_iff t s)
      ]
    ]
is_string-contains (t ∷ ts) s (suc k) (all, sorted) (below, above) = ground (
  arith,
  below 0 (omega arith),
  text_less_irrefl s,
  text_beq_iff t s,
  ap (λ y. text_less y s),
  is_string-contains ts s k sorted
      (λ m down. below (suc m) (omega arith), λ m up. above (suc m) (omega arith)),
)

-- On a sorted list isBuiltin says whether the string is in it.
pub is_builtin-contains :
    (strings : List Text) (s : Text) → IsSorted strings → is_builtin strings s ≡ contains s strings
unfolding is_builtin search_strings
is_builtin-contains strings s sorted =
    let (k, ran, start) =
      search_from-IsStart (suc (length strings)) strings s 0 (length strings) sorted (omega arith)
        (omega arith) (λ m down. absurd (omega arith)) (λ m up. past strings m up) in
    ground (arith, is_string-contains strings s k sorted start)
  where
    past : (ts : List Text) (m : ℕ) → length ts ≤ m → reaches s (get_elem? ts m) ≡ true
    past [] m up = refl
    past (t ∷ ts) zero up = absurd (omega arith)
    past (t ∷ ts) (suc m) up = past ts m (omega arith)
