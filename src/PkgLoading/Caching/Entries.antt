-- ===== src/PkgLoading/Caching/Entries.antt =====
-- Counting: how often a package is to be requested, and which entries are there.
use tools_jvm_autodeps.Base.{
  ℕ, ◌+◌, ◌≡◌, inl, inr, true, ◌||◌, Option, none, some, List, [], ◌∷◌, ◌++◌, arith, if◌then◌else◌,
  Option-cases, is_some, ◌==◌, Text, text_beq_iff, nat_eq, text_eq,
}
use tools_jvm_autodeps.GoMap.{contains, lookup, put, lookup-put}
use tools_jvm_autodeps.PkgLoading.Caching.{Entry, pending, Cache, Phase, loading, filling, reserve}

abbrev pub count : Text → List Text → ℕ
count p [] = 0
count p (q ∷ qs) = (if q == p then 1 else 0) + count p qs

pub count-append : (p : Text) (xs ys : List Text) → count p (xs ++ ys) ≡ count p xs + count p ys
count-append p [] ys = omega arith
count-append p (x ∷ xs) ys = omega (arith, count-append p xs ys)

-- over all requests of a log
abbrev pub count_log : Text → List (List Text) → ℕ
count_log p [] = 0
count_log p (request ∷ log) = count p request + count_log p log

pub count_log-append :
    (p : Text) (log : List (List Text)) (request : List Text)
    → count_log p (log ++ request ∷ []) ≡ count_log p log + count p request
count_log-append p [] request = omega arith
count_log-append p (r ∷ log) request = omega (arith, count_log-append p log request)

module _ {E Ref : Type 0} where
  -- 1 for a package with an entry, and for one whose entry is not ready
  abbrev pub entered : Option (Entry E Ref) → ℕ
  entered none = 0
  entered (some x) = 1

  abbrev pub unready : Option (Entry E Ref) → ℕ
  unready (some pending) = 1
  unready _ = 0

  -- what a call is still to request, and what it is still to fill
  abbrev pub to_request : Text → Phase E Ref → ℕ
  to_request p (loading work all) = count p work
  to_request p _ = 0

  abbrev pub owed : Text → Phase E Ref → ℕ
  owed p (loading work all) = count p work
  owed p (filling work r all) = count p work
  owed p _ = 0

  abbrev pub sum_of : (Phase E Ref → ℕ) → List (Phase E Ref) → ℕ
  sum_of f [] = 0
  sum_of f (ph ∷ calls) = f ph + sum_of f calls

  pub sum_of-append :
      (f : Phase E Ref → ℕ) (xs ys : List (Phase E Ref))
      → sum_of f (xs ++ ys) ≡ sum_of f xs + sum_of f ys
  sum_of-append f [] ys = omega arith
  sum_of-append f (x ∷ xs) ys = omega (arith, sum_of-append f xs ys)

  -- A lock section makes one entry for each package that has none, and owes it.
  pub entered-reserve :
      (c : Cache E Ref) (ps : List Text) (p : Text)
      → entered (lookup p (reserve c ps).0) ≡ count p (reserve c ps).1 + entered (lookup p c)
  unfolding reserve
  entered-reserve c [] p = omega arith
  entered-reserve c (q ∷ ps) p = elim (Option-cases (lookup q c)) [
    | inl none_there ↦
        ground (
          arith,
          entered-reserve (put q pending c) ps p,
          lookup-put q p pending c,
          text_beq_iff q p,
        )
    | inr (x, there) ↦ ground (arith, entered-reserve c ps p)
  ]

  pub unready-reserve :
      (c : Cache E Ref) (ps : List Text) (p : Text)
      → unready (lookup p (reserve c ps).0) ≡ count p (reserve c ps).1 + unready (lookup p c)
  unfolding reserve
  unready-reserve c [] p = omega arith
  unready-reserve c (q ∷ ps) p = elim (Option-cases (lookup q c)) [
    | inl none_there ↦
        ground (
          arith,
          unready-reserve (put q pending c) ps p,
          lookup-put q p pending c,
          text_beq_iff q p,
        )
    | inr (x, there) ↦ ground (arith, unready-reserve c ps p)
  ]

  -- Every package that a call asks for has an entry afterwards.
  pub contains-reserve :
      (c : Cache E Ref) (ps : List Text) (p : Text)
      → (contains p ps || is_some (lookup p c)) ≡ true
      → is_some (lookup p (reserve c ps).0) ≡ true
  unfolding reserve
  contains-reserve c [] p h = h
  contains-reserve c (q ∷ ps) p h = elim (Option-cases (lookup q c)) [
    | inl none_there ↦
        ground (
          arith,
          contains-reserve (put q pending c) ps p,
          lookup-put q p pending c,
          text_beq_iff q p,
        )
    | inr (x, there) ↦ ground (arith, contains-reserve c ps p, text_beq_iff q p)
  ]
