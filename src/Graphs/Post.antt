-- ===== src/Graphs/Post.antt =====
-- What a call of `visit` leaves: the nodes reached from its argument, each once.
use tools_jvm_autodeps.Base.{
  ℕ, zero, suc, ◌+◌, ◌≤◌, ◌≡◌, refl, subst, inl, inr, true, false, Option, some, List, [], ◌∷◌,
  ◌++◌, arith, if◌then◌else◌, Bool-cases, Option-cases, ◌==◌, Text, text_beq_iff, nat_eq, text_eq,
}
use tools_jvm_autodeps.GoMap.{contains, get, contains-concat}
use tools_jvm_autodeps.Graphs.{Graph, each, visit}

-- a path of edges
pub data Reach (graph : Graph) : Text → Text → Type 0 where
  here : {u : Text} → Reach graph u u
  edge : {u v w : Text} → contains v (get [] u graph) ≡ true → Reach graph v w → Reach graph u w

abbrev pub occurrences : Text → List Text → ℕ
occurrences x [] = 0
occurrences x (y ∷ ys) = (if y == x then 1 else 0) + occurrences x ys

occurrences-append :
    (x : Text) (ys zs : List Text) → occurrences x (ys ++ zs) ≡ occurrences x ys + occurrences x zs
occurrences-append x [] zs = omega arith
occurrences-append x (y ∷ ys) zs = omega (arith, occurrences-append x ys zs)

occurrences_none : (x : Text) (ys : List Text) → contains x ys ≡ false → occurrences x ys ≡ 0
occurrences_none x [] h = refl
occurrences_none x (y ∷ ys) h = ground (arith, occurrences_none x ys)

-- From `s` to `t`, with the nodes that are asked for.
pub record Post (graph : Graph) (roots s t : List Text) : Type 0 where
  pub grows : (x : Text) → contains x s ≡ true → contains x t ≡ true
  pub roots_in : (x : Text) → contains x roots ≡ true → contains x t ≡ true
  pub closed :
      (x v : Text)
      → contains x t ≡ true
      → contains x s ≡ false
      → contains v (get [] x graph) ≡ true
      → contains v t ≡ true
  pub sound :
      (x : Text)
      → contains x t ≡ true
      → contains x s ≡ false
      → (r : Text) × (contains r roots ≡ true) × Reach graph r x
  pub once : ((x : Text) → occurrences x s ≤ 1) → (x : Text) → occurrences x t ≤ 1

pub Post-none : (graph : Graph) (s : List Text) → Post graph [] s s
Post-none graph s = record {
  grows = λ x h. h;
  roots_in = λ x h. cc;
  closed = λ x v h k m. cc;
  sound = λ x h k. cc;
  once = λ h. h;
}

pub Post-seen :
    (graph : Graph) (s : List Text) (u : Text) → contains u s ≡ true → Post graph (u ∷ []) s s
Post-seen graph s u m = record {
  grows = λ x h. h;
  roots_in = λ x h. ground (arith, text_beq_iff u x);
  closed = λ x v h k n. cc;
  sound = λ x h k. cc;
  once = λ h. h;
}

pub Post-then :
    (graph : Graph) (v : Text) (vs s m t : List Text)
    → Post graph (v ∷ []) s m
    → Post graph vs m t
    → Post graph (v ∷ vs) s t
Post-then graph v vs s m t p q = record {
  grows = λ x h. q.grows x (p.grows x h);
  roots_in = λ x h. ground (arith, q.roots_in x, p.roots_in x, q.grows x);
  closed = λ x w h k n. elim (Bool-cases (contains x m)) [
    | inl old ↦ q.grows w (p.closed x w old k n)
    | inr new ↦ q.closed x w h new n
  ];
  sound = λ x h k. elim (Bool-cases (contains x m)) [
    | inl old ↦ let (r, i, path) = p.sound x old k in (r, ground arith, path)
    | inr new ↦ let (r, i, path) = q.sound x h new in (r, ground arith, path)
  ];
  once = λ h. q.once (p.once h);
}

pub each-Post :
    (graph : Graph) (go : List Text → Text → Option (List Text))
    → ((s : List Text) (u : Text) (t : List Text) → go s u ≡ some t → Post graph (u ∷ []) s t)
    → (s vs t : List Text) → each go s vs ≡ some t
    → Post graph vs s t
unfolding each
each-Post graph go h s [] t e = subst (λ l. Post graph [] s l) (cc) (Post-none graph s)
each-Post graph go h s (v ∷ vs) t e = elim (Option-cases (go s v)) [
  | inl n ↦ ground arith
  | inr (m, g) ↦ Post-then graph v vs s m t (h s v m g) (each-Post graph go h m vs t (ground arith))
]

-- `u` is put in, then its successors are visited.
Post-put :
    (graph : Graph) (u : Text) (s t : List Text)
    → contains u s ≡ false
    → Post graph (get [] u graph) (s ++ u ∷ []) t
    → Post graph (u ∷ []) s t
Post-put graph u s t new q =
    let in_both = λ (x : Text). contains-concat x u s in
    let u_in : contains u t ≡ true = q.grows u (ground (arith, in_both u, text_beq_iff u u)) in
    record {
      grows = λ x h. q.grows x (ground (arith, in_both x));
      roots_in = λ x h. ground (arith, text_beq_iff u x);
      closed = λ x w h k n. elim (Bool-cases (u == x)) [
        | inl same ↦ q.roots_in w (rw ((text_beq_iff u x).0 same) n)
        | inr other ↦ q.closed x w h (ground (arith, in_both x)) n
      ];
      sound = λ x h k. elim (Bool-cases (u == x)) [
        | inl same ↦ (
          u,
          ground (arith, text_beq_iff u u),
          subst (λ y. Reach graph u y) ((text_beq_iff u x).0 same) here,
        )
        | inr other ↦
            let (r, i, path) = q.sound x h (ground (arith, in_both x)) in
            (u, ground (arith, text_beq_iff u u), edge i path)
      ];
      once = λ h. q.once (λ x.
          ground
            (arith, h x, occurrences-append x s (u ∷ []), text_beq_iff u x, occurrences_none u s));
    }

pub visit-Post :
    (fuel : ℕ) (graph : Graph) (s : List Text) (u : Text) (t : List Text)
    → visit fuel graph s u ≡ some t
    → Post graph (u ∷ []) s t
unfolding visit
visit-Post zero graph s u t e = cc
visit-Post (suc fuel) graph s u t e = elim (Bool-cases (contains u s)) [
  | inl old ↦ subst (λ l. Post graph (u ∷ []) s l) (ground arith) (Post-seen graph s u old)
  | inr new ↦ Post-put graph u s t new (
      each-Post graph (visit fuel graph) (visit-Post fuel graph) (s ++ u ∷ []) (get [] u graph) t
        (ground arith))
]
