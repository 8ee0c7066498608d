-- ===== src/Strings/Laws.antt =====
-- Laws of the string functions: the byte that an index finds, prefixes, and cutting at a byte.
use tools_jvm_autodeps.Base.{
  ℕ, zero, suc, ◌≡◌, refl, inl, inr, true, false, none, some, List, [], ◌∷◌, ◌++◌, Text, ◌==◌,
  length, take, drop, text_eq, nat_eq, arith, Bool-cases, drop-length-append, Option-cases,
  beq_refl, Bool, ◌≢◌, List-cases,
}
use tools_jvm_autodeps.GoMap.{contains}
use tools_jvm_autodeps.Strings.{
  slash, has_prefix, trim_prefix, index_byte, base, dot, last_index_byte, index, split_byte,
  after_last, trim_right_slash, trim_left_slash,
}

pub has_prefix-append : (p s : Text) → has_prefix (p ++ s) p ≡ true
unfolding has_prefix
has_prefix-append [] s = refl
has_prefix-append (c ∷ p) s = ground (arith, has_prefix-append p s)

-- A text with a given prefix is that prefix and a rest.
pub has_prefix-split : (s p : Text) → has_prefix s p ≡ true → (rest : Text) × (s ≡ p ++ rest)
unfolding has_prefix
has_prefix-split s [] h = (s, refl)
has_prefix-split [] (c ∷ p) h = cc
has_prefix-split (d ∷ s) (c ∷ p) h =
    let (rest, e) = has_prefix-split s p (ground arith) in (rest, ground arith)

pub trim_prefix-append : (p s : Text) → trim_prefix (p ++ s) p ≡ s
unfolding trim_prefix
trim_prefix-append p s = rw (has_prefix-append p s) (drop-length-append p s)

-- The first occurrence of a byte is behind all the text that does not hold it.
pub index_byte-append :
    (s t : Text) (c : ℕ) → contains c s ≡ false → index_byte (s ++ c ∷ t) c ≡ some (length s)
unfolding index_byte
index_byte-append [] t c h = rw (beq_refl c)
index_byte-append (x ∷ s) t c h = ground (arith, index_byte-append s t c (ground arith))

pub index_byte-none : (s : Text) (c : ℕ) → contains c s ≡ false → index_byte s c ≡ none
unfolding index_byte
index_byte-none [] c h = refl
index_byte-none (x ∷ s) c h = ground (arith, index_byte-none s c (ground arith))

pub contains_of_index_byte-none : (s : Text) (c : ℕ) → index_byte s c ≡ none → contains c s ≡ false
unfolding index_byte
contains_of_index_byte-none [] c h = refl
contains_of_index_byte-none (x ∷ s) c h = elim (Option-cases (index_byte s c)) [
  | inl e ↦ ground (arith, contains_of_index_byte-none s c e)
  | inr (i, e) ↦ ground arith
]

-- An index that is found cuts the text at the byte, with none of it before.
pub index_byte-cut :
    (s : Text) (c i : ℕ)
    → index_byte s c ≡ some i
    → (s ≡ take i s ++ c ∷ drop (suc i) s) × (contains c (take i s) ≡ false)
unfolding index_byte
index_byte-cut [] c i h = cc
index_byte-cut (x ∷ s) c i h = elim (Bool-cases (x == c)) [
  | inl e ↦ ground arith
  | inr e ↦ elim (Option-cases (index_byte s c)) [
    | inl n ↦ ground arith
    | inr (j, f) ↦ ground (arith, index_byte-cut s c j f)
  ]
]

pub last_index_byte-none : (s : Text) (c : ℕ) → contains c s ≡ false → last_index_byte s c ≡ none
unfolding last_index_byte
last_index_byte-none [] c h = refl
last_index_byte-none (x ∷ s) c h = ground (arith, last_index_byte-none s c (ground arith))

pub contains_of_last_index_byte-none :
    (s : Text) (c : ℕ) → last_index_byte s c ≡ none → contains c s ≡ false
unfolding last_index_byte
contains_of_last_index_byte-none [] c h = refl
contains_of_last_index_byte-none (x ∷ s) c h = elim (Option-cases (last_index_byte s c)) [
  | inl e ↦ ground (arith, contains_of_last_index_byte-none s c e)
  | inr (i, e) ↦ ground arith
]

pub contains-drop-last_index_byte :
    (s : Text) (c i : ℕ) → last_index_byte s c ≡ some i → contains c (drop (suc i) s) ≡ false
unfolding last_index_byte
contains-drop-last_index_byte [] c i h = cc
contains-drop-last_index_byte (x ∷ s) c i h = elim (Option-cases (last_index_byte s c)) [
  | inl e ↦ ground (arith, contains_of_last_index_byte-none s c e)
  | inr (j, e) ↦ ground (arith, contains-drop-last_index_byte s c j e)
]

-- What stands behind the last occurrence of a byte does not hold that byte.
pub contains-after_last : (s : Text) (c : ℕ) → contains c (after_last s c) ≡ false
unfolding after_last
contains-after_last s c = elim (Option-cases (last_index_byte s c)) [
  | inl e ↦ rw (e, after_last) (contains_of_last_index_byte-none s c e)
  | inr (j, e) ↦ rw (e, after_last) (contains-drop-last_index_byte s c j e)
]

-- A byte that a text does not hold is in no part of it.
pub contains-drop : (s : Text) (c n : ℕ) → contains c s ≡ false → contains c (drop n s) ≡ false
contains-drop s c zero h = h
contains-drop [] c (suc n) h = refl
contains-drop (x ∷ s) c (suc n) h = contains-drop s c n (ground arith)

pub contains-after_last_of :
    (s : Text) (c d : ℕ) → contains d s ≡ false → contains d (after_last s c) ≡ false
unfolding after_last
contains-after_last_of s c d h = elim (Option-cases (last_index_byte s c)) [
  | inl e ↦ rw (e, after_last) h
  | inr (j, e) ↦ rw (e, after_last) (contains-drop s d (suc j) h)
]

pub contains-trim_right_slash :
    (s : Text) (c : ℕ) → contains c s ≡ false → contains c (trim_right_slash s) ≡ false
unfolding trim_right_slash
contains-trim_right_slash [] c h = refl
contains-trim_right_slash (x ∷ s) c h = ground (arith, contains-trim_right_slash s c)

-- A text with no slash has no pair of slashes.
pub index-none_of_contains :
    (s : Text) → contains slash s ≡ false → index s (slash ∷ slash ∷ []) ≡ none
unfolding index
index-none_of_contains [] h = refl
index-none_of_contains (c ∷ s) h = ground (arith, index-none_of_contains s)

pub trim_left_slash_idem : (s : Text) → trim_left_slash (trim_left_slash s) ≡ trim_left_slash s
unfolding trim_left_slash
trim_left_slash_idem [] = refl
trim_left_slash_idem (c ∷ s) = ground (arith, trim_left_slash_idem s)

pub split_byte-ne-nil :
    (s : Text) (c : ℕ) → (p : Text) × (ps : List Text) × (split_byte s c ≡ p ∷ ps)
unfolding split_byte
split_byte-ne-nil [] c = ([], [], refl)
split_byte-ne-nil (x ∷ s) c =
    let (p, ps, e) = split_byte-ne-nil s c in
    elim (Bool-cases (x == c)) [
      | inl h ↦ ([], p ∷ ps, ground arith)
      | inr h ↦ (x ∷ p, ps, ground arith)
    ]

-- Searching for one byte as a text is searching for the byte.
pub index-singleton : (s : Text) (c : ℕ) → index s (c ∷ []) ≡ index_byte s c
unfolding index index_byte
index-singleton [] c = refl
index-singleton (x ∷ s) c = ground (arith, index-singleton s c)

pub trim_left_slash_head :
    (s : Text) (c : ℕ) → (c == slash) ≡ false → trim_left_slash (c ∷ s) ≡ c ∷ s
unfolding trim_left_slash
trim_left_slash_head s c h = ground arith

-- Trimming leaves a text that starts with no slash.
pub has_prefix-trim_left_slash : (s : Text) → has_prefix (trim_left_slash s) (slash ∷ []) ≡ false
unfolding has_prefix trim_left_slash
has_prefix-trim_left_slash [] = refl
has_prefix-trim_left_slash (c ∷ s) = ground (arith, has_prefix-trim_left_slash s)

pub contains-base :
    (s : Text) (c : ℕ)
    → (dot == c) ≡ false
    → (slash == c) ≡ false
    → contains c s ≡ false
    → contains c (base s) ≡ false
unfolding base
contains-base s c d l h =
    ground
      (arith, contains-after_last_of (trim_right_slash s) slash c (contains-trim_right_slash s c h))

abbrev ends_in_slash : Text → Bool
ends_in_slash [] = false
ends_in_slash (c ∷ []) = c == slash
ends_in_slash (c ∷ d ∷ s) = ends_in_slash (d ∷ s)

ends_in_slash-trim_right_slash : (s : Text) → ends_in_slash (trim_right_slash s) ≡ false
unfolding trim_right_slash
ends_in_slash-trim_right_slash [] = refl
ends_in_slash-trim_right_slash (c ∷ s) = ground (arith, ends_in_slash-trim_right_slash s)

after_last-ne-nil :
    (s : Text) (c : ℕ) → ends_in_slash (c ∷ s) ≡ false → after_last (c ∷ s) slash ≢ []
unfolding after_last
after_last-ne-nil [] c h = ground arith
after_last-ne-nil (d ∷ s) c h = elim (Option-cases (last_index_byte (d ∷ s) slash)) [
  | inl e ↦ ground arith
  | inr (i, e) ↦
      let shorter = after_last-ne-nil s d h in
      λ f. shorter (rw (e, after_last) (rw (e, after_last, last_index_byte) at f))
]

trim_right_slash-cons :
    (s : Text) (c : ℕ) → (c == slash) ≡ false → (r : Text) × (trim_right_slash (c ∷ s) ≡ c ∷ r)
unfolding trim_right_slash
trim_right_slash-cons s c h = elim (List-cases (trim_right_slash s)) [
  | inl e ↦ ([], ground arith)
  | inr (d, t, e) ↦ (d ∷ t, ground arith)
]

-- The last element of a path that does not start with a slash holds no slash.
pub contains-slash-base :
    (s : Text) → has_prefix s (slash ∷ []) ≡ false → contains slash (base s) ≡ false
unfolding base has_prefix
contains-slash-base [] h = refl
contains-slash-base (c ∷ s) h =
    let (r, e) = trim_right_slash-cons s c (ground arith) in
    let ends = rw e at (ends_in_slash-trim_right_slash (c ∷ s)) in
    let full = after_last-ne-nil r c ends in
    let clean = contains-after_last (c ∷ r) slash in
    elim (List-cases (after_last (c ∷ r) slash)) [
      | inl f ↦ absurd (full f)
      | inr (d, t, f) ↦ ground arith
    ]

pub trim_left_slash_id : (s : Text) → has_prefix s (slash ∷ []) ≡ false → trim_left_slash s ≡ s
unfolding trim_left_slash has_prefix
trim_left_slash_id [] h = refl
trim_left_slash_id (c ∷ s) h = ground arith

-- A cut in front keeps a first byte from being another.
pub has_prefix-take :
    (s : Text) (c n : ℕ) → has_prefix s (c ∷ []) ≡ false → has_prefix (take n s) (c ∷ []) ≡ false
unfolding has_prefix
has_prefix-take s c zero h = refl
has_prefix-take [] c (suc n) h = refl
has_prefix-take (d ∷ s) c (suc n) h = h
