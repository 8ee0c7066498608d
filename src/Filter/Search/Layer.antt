-- ===== src/Filter/Search/Layer.antt =====
-- One layer of the search keeps the invariant.
use tools_jvm_autodeps.Base.{
  ◌≡◌, refl, sym, subst, fun_ext, ◌≢◌, ◌⊎◌, inl, inr, Bool, true, false, ◌&&◌, ◌||◌, Option, none,
  some, List, [], ◌∷◌, arith, Eq, ◌==◌, nat_eq, text_eq, beq_refl,
}
use tools_jvm_autodeps.GoMap.{GoMap, contains, lookup, get, contains-append}
use tools_jvm_autodeps.Filter.{spec_visible_to}
use tools_jvm_autodeps.Bazel.{Label, Rule, PackageGroup}
use tools_jvm_autodeps.Filter.Search.{
  VisQuery, vis_query_eq, vis_query_beq_iff, State, Nodes, Groups, visit_group, answer,
  visit_labels, visit_nodes, layer, drop_decided, labels,
}
use tools_jvm_autodeps.Filter.Search.Offer.{listed, listed-get}
use tools_jvm_autodeps.Filter.Search.Inv.{
  Inv, Settled, Tri-cases, spec_visible_to-ne-denied, by_group,
}
use tools_jvm_autodeps.Filter.Search.Step.{now, Inv-none, Inv-granted, Inv-unknown}

module _ {Ref : Type 0} ⦃e : Eq Ref⦄ (deref : Ref → Rule) (world : Label → Option PackageGroup)
    (query : List (VisQuery Ref)) where
  -- the invariant depends on the pending nodes only through their values
  Inv-congr :
      (p q : VisQuery Ref → Label → Bool) (s : State Ref)
      → ((w : VisQuery Ref) (x : Label) → p w x ≡ q w x)
      → Inv deref world query p s
      → Inv deref world query q s
  Inv-congr p q s same h =
      subst (λ p. Inv deref world query p s) (fun_ext λ w. fun_ext λ x. same w x) h

  Inv-answer :
      (later : VisQuery Ref → Label → Bool) (vq : VisQuery Ref) (l : Label) (g : PackageGroup)
      (s : State Ref)
      → world l ≡ some g
      → Inv deref world query (now deref world query later vq l) s
      → Inv deref world query later (visit_group vq (some g) s)
  unfolding visit_group answer
  Inv-answer later vq l g s f h = elim (Tri-cases (spec_visible_to g.specs vq.pkg)) [
    | inl d ↦ absurd (spec_visible_to-ne-denied g.specs vq.pkg d)
    | inr (inl a) ↦
        let k =
          h.pending_seen vq l (ground (arith, (vis_query_beq_iff vq vq).1 refl, beq_refl l)) in
        rw a (
          Inv-granted deref world query later vq l s
            (by_group (h.open_local vq l k) (h.reached vq l k) f a) h)
    | inr (inr u) ↦ rw u (Inv-unknown deref world query later vq l s g f u h)
  ]

  Inv-visit_group :
      (later : VisQuery Ref → Label → Bool) (vq : VisQuery Ref) (l : Label)
      (o : Option PackageGroup) (s : State Ref)
      → o ≡ world l
      → Inv deref world query (now deref world query later vq l) s
      → Inv deref world query later (visit_group vq o s)
  unfolding visit_group
  Inv-visit_group later vq l none s f h = Inv-none deref world query later vq l s (sym f) h
  Inv-visit_group later vq l (some g) s f h = Inv-answer later vq l g s (sym f) h

  module _ (groups : Groups) where
    Inv-visit_labels :
        (later : VisQuery Ref → Label → Bool) (vq : VisQuery Ref) (ls : List Label) (s : State Ref)
        → ((l : Label) → contains l ls ≡ true → lookup l groups ≡ world l)
        → Inv deref world query (λ w x. vq == w && contains x ls || later w x) s
        → Inv deref world query later (visit_labels groups vq s ls)
    unfolding visit_labels
    Inv-visit_labels later vq [] s known h = Inv-congr _ later s (λ w x. ground arith) h
    Inv-visit_labels later vq (l ∷ ls) s known h =
        let rest = λ (w : VisQuery Ref) (x : Label). vq == w && contains x ls || later w x in
        let h' = Inv-congr _ (now deref world query rest vq l) s (λ w x. ground arith) h in
        Inv-visit_labels later vq ls _ (λ k m. known k (ground arith))
          (Inv-visit_group rest vq l _ s (known l (ground (arith, beq_refl l))) h')

    Inv-visit_nodes :
        (nodes : Nodes Ref) (s : State Ref)
        → ((l : Label) → contains l (labels nodes) ≡ true → lookup l groups ≡ world l)
        → Inv deref world query (λ w x. listed nodes w x) s
        → Inv deref world query (λ w x. false) (visit_nodes groups s nodes)
    unfolding visit_nodes labels
    Inv-visit_nodes [] s known h = h
    Inv-visit_nodes ((vq, ls) ∷ nodes) s known h =
        Inv-visit_nodes nodes _
          (λ l m. known l (rw (contains-append l ls (labels nodes)) (ground arith)))
          (Inv-visit_labels (λ w x. listed nodes w x) vq ls s
            (λ l m. known l (rw (contains-append l ls (labels nodes)) (ground arith))) h)

  -- At the start of a layer the queued nodes become the pending ones.
  Inv-begin :
      (s : State Ref)
      → Inv deref world query (λ w x. false) s
      → Inv deref world query (λ w x. listed s.new_nodes w x) (record s { new_nodes = [] })
  Inv-begin s h = record {
    sound = h.sound;
    never_false = h.never_false;
    reached = h.reached;
    asked = h.asked;
    open_local = h.open_local;
    listed_seen = λ w x p. cc;
    pending_seen = h.listed_seen;
    closed = λ w x k. Settled-begin w x (h.closed w x k);
    answered = h.answered;
    started = h.started;
  }
    where
      Settled-begin :
          (w : VisQuery Ref) (x : Label)
          → Settled deref world false s w x
          → Settled deref world (listed s.new_nodes w x) (record s { new_nodes = [] }) w x
      Settled-begin w x (inl r) = inl r
      Settled-begin w x (inr (inl q)) = inr (inl (ground (arith, listed-get s.new_nodes w x)))
      Settled-begin w x (inr (inr d)) = inr (inr d)

module _ {Ref : Type 0} ⦃e : Eq Ref⦄ (ret : GoMap (VisQuery Ref) Bool) where
  pub listed-drop_decided :
      (nodes : Nodes Ref) (w : VisQuery Ref) (x : Label)
      → listed (drop_decided ret nodes) w x ≡ true
      → listed nodes w x ≡ true
  unfolding drop_decided
  listed-drop_decided [] w x h = h
  listed-drop_decided ((vq, ls) ∷ nodes) w x h = ground (arith, listed-drop_decided nodes w x)

  -- The nodes of a query with no answer stay.
  get-drop_decided :
      (nodes : Nodes Ref) (w : VisQuery Ref)
      → lookup w ret ≡ none
      → get [] w (drop_decided ret nodes) ≡ get [] w nodes
  unfolding drop_decided
  get-drop_decided [] w h = refl
  get-drop_decided ((vq, ls) ∷ nodes) w h =
      ground (arith, get-drop_decided nodes w, vis_query_beq_iff vq w)

Bool-option-cases : (o : Option Bool) → (o ≡ none) ⊎ ((o ≡ some false) ⊎ (o ≡ some true))
Bool-option-cases none = inl refl
Bool-option-cases (some false) = inr (inl refl)
Bool-option-cases (some true) = inr (inr refl)

module _ {Ref : Type 0} ⦃e : Eq Ref⦄ (deref : Ref → Rule) (world : Label → Option PackageGroup)
    (query : List (VisQuery Ref)) where
  Settled-drop :
      (s : State Ref) (w : VisQuery Ref) (x : Label)
      → lookup w s.ret ≢ some false
      → Settled deref world false s w x
      → Settled deref world false (record s { new_nodes = drop_decided s.ret s.new_nodes }) w x
  Settled-drop s w x no_false (inl r) = inl r
  Settled-drop s w x no_false (inr (inr d)) = inr (inr d)
  Settled-drop s w x no_false (inr (inl q)) = elim (Bool-option-cases (lookup w s.ret)) [
    | inl open_query ↦ inr (inl (rw (get-drop_decided s.ret s.new_nodes w open_query) q))
    | inr (inl f) ↦ absurd (no_false f)
    | inr (inr r) ↦ inl r
  ]

  -- A layer that visits all queued nodes, with their groups loaded, keeps the invariant.
  pub Inv-layer :
      (groups : Groups) (s : State Ref)
      → ((l : Label) → contains l (labels s.new_nodes) ≡ true → lookup l groups ≡ world l)
      → Inv deref world query (λ w x. false) s
      → Inv deref world query (λ w x. false) (layer groups s)
  unfolding layer
  Inv-layer groups s known h =
      let t = visit_nodes groups (record s { new_nodes = [] }) s.new_nodes in
      let k =
        Inv-visit_nodes deref world query groups s.new_nodes (record s { new_nodes = [] }) known
          (Inv-begin deref world query s h) in
      record {
        sound = k.sound;
        never_false = k.never_false;
        reached = k.reached;
        asked = k.asked;
        open_local = k.open_local;
        listed_seen = λ w x p. k.listed_seen w x (listed-drop_decided t.ret t.new_nodes w x p);
        pending_seen = k.pending_seen;
        closed = λ w x v. Settled-drop t w x (k.never_false w) (k.closed w x v);
        answered = k.answered;
        started = k.started;
      }
