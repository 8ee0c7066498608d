-- ===== src/Filter/Search/Step.antt =====
-- One package group of a layer keeps the invariant, whether it is missing, grants visibility, or is
-- expanded to the groups that it includes.
use tools_jvm_autodeps.Base.{
  ◌≡◌, refl, subst, subst₂, inl, inr, ⊎_elim, Bool, true, ◌&&◌, ◌||◌, Option, none, some, foldl,
  arith, Bool-cases, Eq, ◌==◌, text_beq_iff, nat_eq, text_eq, beq_refl, List,
}
use tools_jvm_autodeps.GoMap.{contains, lookup, put, lookup-put}
use tools_jvm_autodeps.Filter.Search.Inv.{Inv, Expanded, Settled, Visible, Reach, next}
use tools_jvm_autodeps.Filter.{unknown, spec_visible_to}
use tools_jvm_autodeps.Filter.Search.{
  VisQuery, vis_query_eq, vis_query_beq_iff, State, offer, local_answer,
}
use tools_jvm_autodeps.Filter.Search.Offer.{
  seen, seen-foldl-offer, ret-foldl-offer, queued-foldl-offer, listed-foldl-offer,
}
use tools_jvm_autodeps.Bazel.{Rule, Label, PackageGroup}

module _ {Ref : Type 0} ⦃e : Eq Ref⦄ (deref : Ref → Rule)
    (world : Label → Option PackageGroup) where
  module _ (query : List (VisQuery Ref)) (later : VisQuery Ref → Label → Bool) (vq : VisQuery Ref)
      (l : Label) where
    abbrev pub now : VisQuery Ref → Label → Bool
    now w x = vq == w && l == x || later w x

    -- The group's own label, once nothing is left to do of it.
    Settled-now :
        (s : State Ref) (w : VisQuery Ref) (x : Label)
        → Expanded deref world s vq l
        → Settled deref world (now w x) s w x
        → Settled deref world (later w x) s w x
    Settled-now s w x done (inl h) = inl h
    Settled-now s w x done (inr (inr h)) = inr (inr h)
    Settled-now s w x done (inr (inl h)) = elim (Bool-cases (vq == w && l == x)) [
      | inl same ↦
          let ew : vq ≡ w = (vis_query_beq_iff vq w).0 (ground arith) in
          let ex : l ≡ x = (text_beq_iff l x).0 (ground arith) in
          inr (inr (subst₂ (λ w x. Expanded deref world s w x) ew ex done))
      | inr other ↦ inr (inl (ground arith))
    ]

    pub Inv-none :
        (s : State Ref)
        → world l ≡ none
        → Inv deref world query now s
        → Inv deref world query later s
    Inv-none s n h = record {
      sound = h.sound;
      never_false = h.never_false;
      reached = h.reached;
      asked = h.asked;
      open_local = h.open_local;
      listed_seen = h.listed_seen;
      answered = h.answered;
      started = h.started;
      pending_seen = λ w x p. h.pending_seen w x (ground arith);
      closed = λ w x k. Settled-now s w x (λ g f. cc) (h.closed w x k);
    }

    Settled-granted :
        (s : State Ref) (w : VisQuery Ref) (x : Label)
        → Settled deref world (now w x) s w x
        → Settled deref world (later w x) (record s { ret = put vq true s.ret }) w x
    Settled-granted s w x h = elim (Bool-cases (vq == w)) [
      | inl same ↦ inl (rw (lookup-put vq w true s.ret, same) refl)
      | inr other ↦
          ⊎_elim (λ r. inl (rw (lookup-put vq w true s.ret, other) r))
            (⊎_elim (λ q. inr (inl (ground arith))) (λ d. inr (inr d))) h
    ]

    Visible-granted :
        (s : State Ref) (w : VisQuery Ref)
        → Visible deref world vq
        → (lookup w s.ret ≡ some true → Visible deref world w)
        → lookup w (put vq true s.ret) ≡ some true
        → Visible deref world w
    Visible-granted s w v sound r = elim (Bool-cases (vq == w)) [
      | inl same ↦ subst (Visible deref world) ((vis_query_beq_iff vq w).0 same) v
      | inr other ↦ sound (ground (arith, lookup-put vq w true s.ret))
    ]

    pub Inv-granted :
        (s : State Ref)
        → Visible deref world vq
        → Inv deref world query now s
        → Inv deref world query later (record s { ret = put vq true s.ret })
    Inv-granted s v h = record {
      sound = λ w r. Visible-granted s w v (h.sound w) r;
      never_false = λ w r. ground (arith, lookup-put vq w true s.ret, h.never_false w);
      reached = h.reached;
      asked = h.asked;
      open_local = h.open_local;
      listed_seen = h.listed_seen;
      answered = λ w m g. ground (arith, lookup-put vq w true s.ret, h.answered w m g);
      started = h.started;
      pending_seen = λ w x p. h.pending_seen w x (ground arith);
      closed = λ w x k. Settled-granted s w x (h.closed w x k);
    }

    module _ (s : State Ref) (g : PackageGroup) where
      abbrev after : State Ref
      after = foldl (offer vq) s g.includes

      Reach-after :
          (w : VisQuery Ref) (x : Label)
          → Reach deref world vq l
          → world l ≡ some g
          → (seen s w x ≡ true → Reach deref world w x)
          → seen after w x ≡ true
          → Reach deref world w x
      Reach-after w x r f old k = elim (Bool-cases (seen s w x)) [
        | inl k' ↦ old k'
        | inr k' ↦
            let new : (vq == w && contains x g.includes) ≡ true =
              ground (arith, seen-foldl-offer vq w x s g.includes) in
            let same : vq ≡ w = (vis_query_beq_iff vq w).0 (ground arith) in
            subst (λ w. Reach deref world w x) same (next r f (ground arith))
      ]

      open_local-after :
          (w : VisQuery Ref) (x : Label)
          → local_answer deref vq ≡ unknown
          → (seen s w x ≡ true → local_answer deref w ≡ unknown)
          → seen after w x ≡ true
          → local_answer deref w ≡ unknown
      open_local-after w x r old k = elim (Bool-cases (seen s w x)) [
        | inl k' ↦ old k'
        | inr k' ↦
            let new : (vq == w && contains x g.includes) ≡ true =
              ground (arith, seen-foldl-offer vq w x s g.includes) in
            let same : vq ≡ w = (vis_query_beq_iff vq w).0 (ground arith) in
            subst (λ w. local_answer deref w ≡ unknown) same r
      ]

      asked-after :
          (w : VisQuery Ref) (x : Label)
          → contains vq query ≡ true
          → (seen s w x ≡ true → contains w query ≡ true)
          → seen after w x ≡ true
          → contains w query ≡ true
      asked-after w x r old k = elim (Bool-cases (seen s w x)) [
        | inl k' ↦ old k'
        | inr k' ↦
            let new : (vq == w && contains x g.includes) ≡ true =
              ground (arith, seen-foldl-offer vq w x s g.includes) in
            let same : vq ≡ w = (vis_query_beq_iff vq w).0 (ground arith) in
            subst (λ w. contains w query ≡ true) same r
      ]

      -- What was expanded stays so, since a query only sees more.
      Expanded-after :
          (w : VisQuery Ref) (x : Label)
          → Expanded deref world s w x
          → Expanded deref world after w x
      Expanded-after w x d pg f =
          let (u, all) = d pg f in
          (u, λ inc m. ground (arith, seen-foldl-offer vq w inc s g.includes, all inc m))

      -- The group itself is expanded: all that it includes is seen.
      Expanded-self :
          world l ≡ some g
          → spec_visible_to g.specs vq.pkg ≡ unknown
          → Expanded deref world after vq l
      Expanded-self f u pg f' =
          let same : g ≡ pg = cc in
          subst
            (λ pg.
              (spec_visible_to pg.specs vq.pkg ≡ unknown)
              × ((inc : Label) → contains inc pg.includes ≡ true → seen after vq inc ≡ true))
            same
            (
              u,
              λ inc m. ground (
                arith,
                seen-foldl-offer vq vq inc s g.includes,
                (vis_query_beq_iff vq vq).1 refl,
              ),
            )

      Settled-after :
          (w : VisQuery Ref) (x : Label)
          → Settled deref world (now w x) s w x
          → Settled deref world (now w x) after w x
      Settled-after w x (inl r) = inl (rw (ret-foldl-offer vq s g.includes) r)
      Settled-after w x (inr (inl p)) =
          inr (inl (ground (arith, queued-foldl-offer vq w x s g.includes)))
      Settled-after w x (inr (inr d)) = inr (inr (Expanded-after w x d))

      closed-after :
          (w : VisQuery Ref) (x : Label)
          → Expanded deref world after vq l
          → (seen s w x ≡ true → Settled deref world (now w x) s w x)
          → seen after w x ≡ true
          → Settled deref world (later w x) after w x
      closed-after w x self old k = elim (Bool-cases (seen s w x)) [
        | inl k' ↦ Settled-now after w x self (Settled-after w x (old k'))
        | inr k' ↦ inr (
            inl (
              ground (
                arith,
                seen-foldl-offer vq w x s g.includes,
                queued-foldl-offer vq w x s g.includes,
              )))
      ]

      pub Inv-unknown :
          world l ≡ some g
          → spec_visible_to g.specs vq.pkg ≡ unknown
          → Inv deref world query now s
          → Inv deref world query later after
      Inv-unknown f u h =
          let seen_now =
            h.pending_seen vq l (ground (arith, (vis_query_beq_iff vq vq).1 refl, beq_refl l)) in
          record {
            sound = λ w r. h.sound w (rw (ret-foldl-offer vq s g.includes) at r);
            never_false = λ w r. h.never_false w (rw (ret-foldl-offer vq s g.includes) at r);
            reached = λ w x k. Reach-after w x (h.reached vq l seen_now) f (h.reached w x) k;
            asked = λ w x k. asked-after w x (h.asked vq l seen_now) (h.asked w x) k;
            open_local =
                λ w x k. open_local-after w x (h.open_local vq l seen_now) (h.open_local w x) k;
            listed_seen = λ w x q. ground (
              arith,
              seen-foldl-offer vq w x s g.includes,
              listed-foldl-offer vq w x s g.includes q,
              h.listed_seen w x,
            );
            answered = λ w m r. rw (ret-foldl-offer vq s g.includes) (h.answered w m r);
            started = λ w x m u i.
                ground (arith, seen-foldl-offer vq w x s g.includes, h.started w x m u i);
            pending_seen =
                λ w x p. ground (arith, seen-foldl-offer vq w x s g.includes, h.pending_seen w x);
            closed = λ w x k. closed-after w x (Expanded-self f u) (h.closed w x) k;
          }
