-- ===== src/PkgLoading/Caching/Ends.antt =====
-- Every run of interleaved calls of Load ends, with all calls returned.
use mathlib.Core.WellFounded.{Acc}
use tools_jvm_autodeps.PkgLoading.{ok, Loader}
use tools_jvm_autodeps.Base.{
  ℕ, zero, suc, ◌+◌, ◌*◌, ◌≤◌, ◌<◌, ◌≡◌, refl, ap, ◌⊎◌, inl, inr, Bool, true, false, ◌&&◌, some,
  List, [], ◌∷◌, ◌++◌, arith, Bool-cases, Option-cases, length, Text, nat_eq, text_eq,
}
use tools_jvm_autodeps.GoMap.{lookup, put}
use tools_jvm_autodeps.PkgLoading.Caching.{
  pending, Cache, Phase, calling, loading, filling, waiting, returned, System, advance, receive,
  Step, Reachable, step, reserve,
}
use tools_jvm_autodeps.PkgLoading.Caching.Entries.{sum_of}
use tools_jvm_autodeps.PkgLoading.Caching.Once.{sum_of-calls}
use tools_jvm_autodeps.PkgLoading.Caching.Progress.{progress, is_returned}

module _ {E Ref : Type 0} where
  -- the pieces that a call is still to do, at most
  abbrev pub pieces : Phase E Ref → ℕ
  pieces (calling ps) = 2 * length ps + 5
  pieces (loading work all) = length work + length all + 4
  pieces (filling work r all) = length work + length all + 3
  pieces (waiting all result errors) = length all + 1
  pieces (returned result errors) = 0

  length-reserve : (c : Cache E Ref) (ps : List Text) → length (reserve c ps).1 ≤ length ps
  unfolding reserve
  length-reserve c [] = omega arith
  length-reserve c (q ∷ ps) = elim (Option-cases (lookup q c)) [
    | inl none_there ↦ ground (arith, length-reserve (put q pending c) ps)
    | inr (x, there) ↦ ground (arith, length-reserve c ps)
  ]

  advance-pieces :
      (answer : Loader E Ref) (c c' : Cache E Ref) (log log' : List (List Text))
      (ph ph' : Phase E Ref)
      → advance answer c log ph ≡ some (c', log', ph')
      → pieces ph' < pieces ph
  unfolding advance
  advance-pieces answer c c' log log' (calling ps) ph' a = ground (arith, length-reserve c ps)
  advance-pieces answer c c' log log' (loading [] all) ph' a = ground arith
  advance-pieces answer c c' log log' (loading (q ∷ work) all) ph' a = ground arith
  advance-pieces answer c c' log log' (filling [] r all) ph' a = ground arith
  advance-pieces answer c c' log log' (filling (q ∷ work) r all) ph' a = ground arith
  advance-pieces answer c c' log log' (waiting [] m es) ph' a = ground arith
  advance-pieces answer c c' log log' (waiting (q ∷ all) m es) ph' a =
      elim (Option-cases (receive (lookup q c))) [
        | inl blocked ↦ ground arith
        | inr (r, got) ↦ ground arith
      ]
  advance-pieces answer c c' log log' (returned m es) ph' a = cc

  -- Every step leaves fewer pieces to do.
  Step-shrinks : (s t : System E Ref) → Step s t → sum_of pieces t.calls < sum_of pieces s.calls
  Step-shrinks s t (step answer before after ph ph' es a et) = omega (
    arith,
    sum_of-calls pieces s before after ph es,
    sum_of-calls pieces t before after ph' et,
    advance-pieces answer s.cache t.cache s.log t.log ph ph' a,
  )

  abbrev pub all_returned : List (Phase E Ref) → Bool
  all_returned [] = true
  all_returned (ph ∷ calls) = is_returned ph && all_returned calls

  find_running :
      (calls : List (Phase E Ref))
      → (all_returned calls ≡ true)
        ⊎ ((before : List (Phase E Ref)) × (ph : Phase E Ref) × (after : List (Phase E Ref))
            × (calls ≡ before ++ ph ∷ after)
            × (is_returned ph ≡ false))
  find_running [] = inl refl
  find_running (ph ∷ calls) = elim (Bool-cases (is_returned ph)) [
    | inl t ↦ elim (find_running calls) [
      | inl ts ↦ inl (ground arith)
      | inr (before, found, after, e, n) ↦ inr (ph ∷ before, found, after, ap (λ l. ph ∷ l) e, n)
    ]
    | inr f ↦ inr ([], ph, calls, refl, f)
  ]

  abbrev pub Later : System E Ref → System E Ref → Type 0
  Later t s = Step s t

  finite : (fuel : ℕ) (s : System E Ref) → sum_of pieces s.calls < fuel → Acc Later s
  finite zero s h = ground arith
  finite (suc fuel) s h =
      Acc.intro s (λ t st. finite fuel t (omega (arith, h, Step-shrinks s t st)))

  -- In every state that any number of interleaved calls of Load can reach: no run from it goes on
  -- for ever, and where it has no next step, all calls have returned, though calls wait for the
  -- entries of others, and whatever the underlying loader answers.
  pub load_returns :
      (requests : List (List Text)) (s : System E Ref)
      → Reachable requests s
      → Acc Later s × (((t : System E Ref) × Step s t) ⊎ (all_returned s.calls ≡ true))
  load_returns requests s r = (
    finite (suc (sum_of pieces s.calls)) s (omega arith),
    elim (find_running s.calls) [
      | inl d ↦ inr d
      | inr (before, ph, after, e, n) ↦
          inl (progress requests s r (λ ps. ok []) before after ph e n)
    ],
  )
