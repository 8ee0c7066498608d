-- ===== src/PkgLoading/Caching/Progress.antt =====
-- No call of Load waits for ever, however the calls interleave.
use tools_jvm_autodeps.Base.{
  ℕ, zero, suc, ◌+◌, ◌≡◌, refl, ap, ◌≢◌, ◌⊎◌, inl, inr, Bool, true, false, Option, none, some, List,
  [], ◌∷◌, ◌++◌, arith, Option-cases, is_some, Text, text_beq_iff, nat_eq, text_eq,
}
use tools_jvm_autodeps.GoMap.{lookup, put, lookup-put}
use tools_jvm_autodeps.PkgLoading.{Loader}
use tools_jvm_autodeps.PkgLoading.Caching.{
  begin, next, ready, pending, Cache, Phase, calling, loading, filling, waiting, returned, System,
  advance, res_of, receive, Step, Reachable, Entry, step, reserve,
}
use tools_jvm_autodeps.PkgLoading.Caching.Entries.{count, entered, unready, owed, sum_of}
use tools_jvm_autodeps.PkgLoading.Caching.Once.{Reachable-Inv, sum_of-calls, sum_of-calling}

zero-or-not : (n : ℕ) → (n ≡ 0) ⊎ (n ≢ 0)
zero-or-not zero = inl refl
zero-or-not (suc n) = inr (omega arith)

module _ {E Ref : Type 0} where
  -- the entries that a call has asked the cache for and is still to receive
  abbrev pub awaited : Text → Phase E Ref → ℕ
  awaited p (loading work all) = count p all
  awaited p (filling work r all) = count p all
  awaited p (waiting all result errors) = count p all
  awaited p _ = 0

  awaited-reserve :
      (c : Cache E Ref) (ps : List Text) (p : Text)
      → entered (lookup p (reserve c ps).0) ≡ 0
      → count p ps + entered (lookup p c) ≡ 0
  unfolding reserve
  awaited-reserve c [] p h = omega (arith, h)
  awaited-reserve c (q ∷ ps) p h = elim (Option-cases (lookup q c)) [
    | inl none_there ↦
        ground (
          arith,
          awaited-reserve (put q pending c) ps p,
          lookup-put q p pending c,
          text_beq_iff q p,
        )
    | inr (x, there) ↦ ground (arith, awaited-reserve c ps p, text_beq_iff q p)
  ]

  -- One piece of a call takes no entry out, and asks for none that is not there.
  advance-entered :
      (answer : Loader E Ref) (c c' : Cache E Ref) (log log' : List (List Text))
      (ph ph' : Phase E Ref) (p : Text)
      → advance answer c log ph ≡ some (c', log', ph')
      → entered (lookup p c') ≡ 0
      → (entered (lookup p c) ≡ 0) × (awaited p ph ≡ 0 → awaited p ph' ≡ 0)
  unfolding advance
  advance-entered answer c c' log log' (calling ps) ph' p a h =
      ground (arith, awaited-reserve c ps p)
  advance-entered answer c c' log log' (loading [] all) ph' p a h = ground arith
  advance-entered answer c c' log log' (loading (q ∷ work) all) ph' p a h = ground arith
  advance-entered answer c c' log log' (filling [] r all) ph' p a h = ground arith
  advance-entered answer c c' log log' (filling (q ∷ work) r all) ph' p a h =
      ground (arith, lookup-put q p (ready (res_of r q)) c, text_beq_iff q p)
  advance-entered answer c c' log log' (waiting [] m es) ph' p a h = ground arith
  advance-entered answer c c' log log' (waiting (q ∷ all) m es) ph' p a h =
      elim (Option-cases (receive (lookup q c))) [
        | inl blocked ↦ ground arith
        | inr (r, got) ↦ ground arith
      ]
  advance-entered answer c c' log log' (returned m es) ph' p a h = cc

  -- Every entry that a call still waits for is in the cache.
  pub Reachable-awaited :
      {requests : List (List Text)} {s : System E Ref}
      → Reachable requests s
      → (p : Text) → entered (lookup p s.cache) ≡ 0
      → sum_of (awaited p) s.calls ≡ 0
  Reachable-awaited {requests} begin p h =
      omega (arith, sum_of-calling (awaited p) requests (λ ps. refl))
  Reachable-awaited (next {s} {t} r (step answer before after ph ph' es a et)) p h =
      let (absent, k) = advance-entered answer s.cache t.cache s.log t.log ph ph' p a h in
      let ih = Reachable-awaited r p absent in
      let now = sum_of-calls (awaited p) s before after ph es in
      let later = sum_of-calls (awaited p) t before after ph' et in
      let mine : awaited p ph ≡ 0 = omega (arith, ih, now) in omega (arith, ih, now, later, k mine)

  -- A call that owes an entry goes on.
  owed-advances :
      (answer : Loader E Ref) (c : Cache E Ref) (log : List (List Text)) (ph : Phase E Ref)
      (p : Text)
      → owed p ph ≢ 0
      → is_some (advance answer c log ph) ≡ true
  unfolding advance
  owed-advances answer c log (loading [] all) p h = refl
  owed-advances answer c log (loading (q ∷ work) all) p h = refl
  owed-advances answer c log (filling [] r all) p h = refl
  owed-advances answer c log (filling (q ∷ work) r all) p h = refl
  owed-advances answer c log (calling ps) p h = refl
  owed-advances answer c log (waiting all m es) p h = ground arith
  owed-advances answer c log (returned m es) p h = ground arith

  abbrev pub is_returned : Phase E Ref → Bool
  is_returned (returned result errors) = true
  is_returned _ = false

  -- A call that cannot go on has returned, or it waits for an entry that is not ready.
  blocked-on :
      (answer : Loader E Ref) (c : Cache E Ref) (log : List (List Text)) (ph : Phase E Ref)
      → is_returned ph ≡ false
      → advance answer c log ph ≡ none
      → (p : Text) × (awaited p ph ≢ 0) × (receive (lookup p c) ≡ none)
  unfolding advance
  blocked-on answer c log (calling ps) n h = cc
  blocked-on answer c log (loading [] all) n h = cc
  blocked-on answer c log (loading (q ∷ work) all) n h = cc
  blocked-on answer c log (filling [] r all) n h = cc
  blocked-on answer c log (filling (q ∷ work) r all) n h = cc
  blocked-on answer c log (waiting [] m es) n h = cc
  blocked-on answer c log (waiting (q ∷ all) m es) n h =
      elim (Option-cases (receive (lookup q c))) [
        | inl blocked ↦ (q, ground (arith, text_beq_iff q q), blocked)
        | inr (r, got) ↦ ground arith
      ]
  blocked-on answer c log (returned m es) n h = cc

  find_positive :
      (f : Phase E Ref → ℕ) (calls : List (Phase E Ref))
      → sum_of f calls ≢ 0
      → (before : List (Phase E Ref)) × (ph : Phase E Ref) × (after : List (Phase E Ref)) × (calls
          ≡ before ++ ph ∷ after)
        × (f ph ≢ 0)
  find_positive f [] h = ground arith
  find_positive f (ph ∷ calls) h = elim (zero-or-not (f ph)) [
    | inl z ↦
        let (before, found, after, e, k) = find_positive f calls (omega arith) in
        (ph ∷ before, found, after, ap (λ l. ph ∷ l) e, k)
    | inr k ↦ ([], ph, calls, refl, k)
  ]

  Step-of_advance :
      (answer : Loader E Ref) (s : System E Ref) (before after : List (Phase E Ref))
      (ph : Phase E Ref)
      → s.calls ≡ before ++ ph ∷ after
      → is_some (advance answer s.cache s.log ph) ≡ true
      → (t : System E Ref) × Step s t
  Step-of_advance answer s before after ph e h =
      elim (Option-cases (advance answer s.cache s.log ph)) [
        | inl n ↦ ground arith
        | inr ((c', log', ph'), g) ↦ (
          record { cache = c'; log = log'; calls = before ++ ph' ∷ after },
          step answer before after ph ph' e g refl,
        )
      ]

  unready-of_blocked : (o : Option (Entry E Ref)) → entered o ≢ 0 → receive o ≡ none → unready o ≡ 1
  unready-of_blocked none h b = ground arith
  unready-of_blocked (some pending) h b = refl
  unready-of_blocked (some (ready r)) h b = cc

  -- In every state that interleaved calls of Load can reach, while a call has not returned, some
  -- call can go on, whatever the underlying loader answers.
  pub progress :
      (requests : List (List Text)) (s : System E Ref)
      → Reachable requests s
      → (answer : Loader E Ref) (before after : List (Phase E Ref)) (ph : Phase E Ref)
      → s.calls ≡ before ++ ph ∷ after
      → is_returned ph ≡ false
      → (t : System E Ref) × Step s t
  progress requests s r answer before after ph e n =
      elim (Option-cases (advance answer s.cache s.log ph)) [
        | inl stuck ↦
            let (p, asks, blocked) = blocked-on answer s.cache s.log ph n stuck in
            let there : entered (lookup p s.cache) ≢ 0 = λ absent. asks (
              omega (
                arith,
                Reachable-awaited r p absent,
                sum_of-calls (awaited p) s before after ph e,
              )) in
            let debt = unready-of_blocked (lookup p s.cache) there blocked in
            let (before', debtor, after', e', owes) =
              find_positive (owed p) s.calls (omega (arith, (Reachable-Inv r).debts p, debt)) in
            Step-of_advance answer s before' after' debtor e'
              (owed-advances answer s.cache s.log debtor p owes)
        | inr (x, goes) ↦ Step-of_advance answer s before after ph e (ground arith)
      ]
