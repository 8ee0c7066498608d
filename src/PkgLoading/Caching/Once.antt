-- ===== src/PkgLoading/Caching/Once.antt =====
-- However the calls interleave, the underlying loader is asked for each package once at most.
use tools_jvm_autodeps.Base.{
  ℕ, ◌+◌, ◌≤◌, ◌≡◌, refl, ap, inl, inr, Option, none, some, List, [], ◌∷◌, ◌++◌, map, arith,
  Option-cases, Text, text_beq_iff, nat_eq, text_eq,
}
use tools_jvm_autodeps.GoMap.{lookup, lookup-put}
use tools_jvm_autodeps.PkgLoading.{Loader}
use tools_jvm_autodeps.PkgLoading.Caching.{
  begin, next, ready, pending, Cache, Phase, calling, loading, filling, waiting, returned, System,
  advance, res_of, receive, Step, Reachable, Entry, step,
}
use tools_jvm_autodeps.PkgLoading.Caching.Entries.{
  count_log, count_log-append, entered, unready, to_request, owed, sum_of, entered-reserve,
  unready-reserve, sum_of-append,
}

module _ {E Ref : Type 0} where
  -- For each package: the requests made and to be made are as many as its entries, and the entries
  -- that are not ready are as many as the calls that owe them.
  pub record Inv (s : System E Ref) : Type 0 where
    pub requests :
        (p : Text) → count_log p s.log + sum_of (to_request p) s.calls ≡ entered (lookup p s.cache)
    pub debts : (p : Text) → sum_of (owed p) s.calls ≡ unready (lookup p s.cache)

  unready-le : (o : Option (Entry E Ref)) → unready o ≤ 1
  unready-le none = omega arith
  unready-le (some pending) = omega arith
  unready-le (some (ready r)) = omega arith

  unready-le-entered : (o : Option (Entry E Ref)) → unready o ≤ entered o
  unready-le-entered none = omega arith
  unready-le-entered (some pending) = omega arith
  unready-le-entered (some (ready r)) = omega arith

  -- One piece of a call, beside what the others have to request and owe.
  pub advance-requests :
      (answer : Loader E Ref) (c c' : Cache E Ref) (log log' : List (List Text))
      (ph ph' : Phase E Ref) (p : Text) (n : ℕ)
      → advance answer c log ph ≡ some (c', log', ph')
      → count_log p log + (n + to_request p ph) ≡ entered (lookup p c)
      → owed p ph ≤ unready (lookup p c)
      → count_log p log' + (n + to_request p ph') ≡ entered (lookup p c')
  unfolding advance
  advance-requests answer c c' log log' (calling ps) ph' p n a h d =
      ground (arith, entered-reserve c ps p)
  advance-requests answer c c' log log' (loading [] all) ph' p n a h d = ground arith
  advance-requests answer c c' log log' (loading (q ∷ work) all) ph' p n a h d =
      ground (arith, count_log-append p log (q ∷ work))
  advance-requests answer c c' log log' (filling [] r all) ph' p n a h d = ground arith
  advance-requests answer c c' log log' (filling (q ∷ work) r all) ph' p n a h d = ground (
    arith,
    lookup-put q p (ready (res_of r q)) c,
    text_beq_iff q p,
    unready-le-entered (lookup p c),
  )
  advance-requests answer c c' log log' (waiting [] m es) ph' p n a h d = ground arith
  advance-requests answer c c' log log' (waiting (q ∷ all) m es) ph' p n a h d =
      elim (Option-cases (receive (lookup q c))) [
        | inl blocked ↦ ground arith
        | inr (r, got) ↦ ground arith
      ]
  advance-requests answer c c' log log' (returned m es) ph' p n a h d = cc

  pub advance-debts :
      (answer : Loader E Ref) (c c' : Cache E Ref) (log log' : List (List Text))
      (ph ph' : Phase E Ref) (p : Text) (n : ℕ)
      → advance answer c log ph ≡ some (c', log', ph')
      → n + owed p ph ≡ unready (lookup p c)
      → n + owed p ph' ≡ unready (lookup p c')
  unfolding advance
  advance-debts answer c c' log log' (calling ps) ph' p n a d =
      ground (arith, unready-reserve c ps p)
  advance-debts answer c c' log log' (loading [] all) ph' p n a d = ground arith
  advance-debts answer c c' log log' (loading (q ∷ work) all) ph' p n a d = ground arith
  advance-debts answer c c' log log' (filling [] r all) ph' p n a d = ground arith
  advance-debts answer c c' log log' (filling (q ∷ work) r all) ph' p n a d =
      ground
        (arith, lookup-put q p (ready (res_of r q)) c, text_beq_iff q p, unready-le (lookup p c))
  advance-debts answer c c' log log' (waiting [] m es) ph' p n a d = ground arith
  advance-debts answer c c' log log' (waiting (q ∷ all) m es) ph' p n a d =
      elim (Option-cases (receive (lookup q c))) [
        | inl blocked ↦ ground arith
        | inr (r, got) ↦ ground arith
      ]
  advance-debts answer c c' log log' (returned m es) ph' p n a d = cc

  pub sum_of-calls :
      (f : Phase E Ref → ℕ) (s : System E Ref) (before after : List (Phase E Ref))
      (ph : Phase E Ref)
      → s.calls ≡ before ++ ph ∷ after
      → sum_of f s.calls ≡ sum_of f before + sum_of f after + f ph
  sum_of-calls f s before after ph e =
      omega (arith, ap (sum_of f) e, sum_of-append f before (ph ∷ after))

  Step-Inv : {s t : System E Ref} → Step s t → Inv s → Inv t
  Step-Inv {s} {t} (step answer before after ph ph' es a et) h = record {
    requests = λ p.
        let n = sum_of (to_request p) before + sum_of (to_request p) after in
        let now = sum_of-calls (to_request p) s before after ph es in
        let then_ = sum_of-calls (to_request p) t before after ph' et in
        let due : owed p ph ≤ unready (lookup p s.cache) =
          omega (arith, h.debts p, sum_of-calls (owed p) s before after ph es) in
        let k =
          advance-requests answer s.cache t.cache s.log t.log ph ph' p n a
            (omega (arith, h.requests p)) due in
        omega (arith, k);
    debts = λ p.
        let n = sum_of (owed p) before + sum_of (owed p) after in
        let now = sum_of-calls (owed p) s before after ph es in
        let then_ = sum_of-calls (owed p) t before after ph' et in
        let k =
          advance-debts answer s.cache t.cache s.log t.log ph ph' p n a
            (omega (arith, h.debts p)) in
        omega (arith, k);
  }

  pub sum_of-calling :
      (f : Phase E Ref → ℕ) (requests : List (List Text))
      → ((ps : List Text) → f (calling ps) ≡ 0)
      → sum_of f (map calling requests) ≡ 0
  sum_of-calling f [] h = refl
  sum_of-calling f (ps ∷ requests) h = omega (arith, h ps, sum_of-calling f requests h)

  pub Reachable-Inv :
      {requests : List (List Text)} {s : System E Ref} → Reachable requests s → Inv s
  Reachable-Inv {requests} begin = record {
    requests = λ p. omega (arith, sum_of-calling (to_request p) requests (λ ps. refl));
    debts = λ p. omega (arith, sum_of-calling (owed p) requests (λ ps. refl));
  }
  Reachable-Inv (next r st) = Step-Inv st (Reachable-Inv r)

  entered-le : (o : Option (Entry E Ref)) → entered o ≤ 1
  entered-le none = omega arith
  entered-le (some x) = omega arith

  -- In every state that any number of interleaved calls of Load can reach, the requests made of the
  -- underlying loader name each package once at most, whatever it answers.
  pub requested_once :
      (requests : List (List Text)) (s : System E Ref)
      → Reachable requests s
      → (p : Text) → count_log p s.log ≤ 1
  requested_once requests s r p =
      omega (arith, (Reachable-Inv r).requests p, entered-le (lookup p s.cache))
