-- ===== src/Filter/Search/Measure.antt =====
-- What a layer adds: it keeps what was seen, and queues only labels that are seen for the first time.
use tools_jvm_autodeps.Base.{
  ◌≡◌, ◌≢◌, inl, inr, Bool, true, false, Option, none, some, List, [], ◌∷◌, foldl, arith,
  Bool-cases, is_some, concat-ne-nil, Eq, ◌==◌, nat_eq, text_eq,
}
use tools_jvm_autodeps.GoMap.{GoMap, contains, lookup, get, put}
use tools_jvm_autodeps.Bazel.{Label, PackageGroup}
use tools_jvm_autodeps.Filter.{Tri, denied, granted, unknown}
use tools_jvm_autodeps.Filter.Search.{
  VisQuery, vis_query_eq, State, Nodes, Groups, offer, answer, visit_group, visit_labels,
  visit_nodes, layer, drop_decided,
}
use tools_jvm_autodeps.Filter.Search.Offer.{seen, listed, seen-offer, listed-offer}
use tools_jvm_autodeps.Filter.Search.Layer.{listed-drop_decided}

module _ {Ref : Type 0} ⦃e : Eq Ref⦄ where
  -- What offers keep, and what does not depend on the answers, holds after the nodes are visited.
  module _ (P : State Ref → Type 0)
      (offers : (vq : VisQuery Ref) (s : State Ref) (l : Label) → P s → P (offer vq s l))
      (rets : (s : State Ref) (ret : GoMap (VisQuery Ref) Bool)
        → P s
        → P (record s { ret = ret })) where
    induct_foldl :
        (vq : VisQuery Ref) (s : State Ref) (ls : List Label) → P s → P (foldl (offer vq) s ls)
    induct_foldl vq s [] h = h
    induct_foldl vq s (l ∷ ls) h = induct_foldl vq (offer vq s l) ls (offers vq s l h)

    induct_answer :
        (vq : VisQuery Ref) (g : PackageGroup) (t : Tri) (s : State Ref) → P s → P (answer vq g t s)
    unfolding answer
    induct_answer vq g denied s h = rets s _ h
    induct_answer vq g granted s h = rets s _ h
    induct_answer vq g unknown s h = induct_foldl vq s g.includes h

    induct_group :
        (vq : VisQuery Ref) (o : Option PackageGroup) (s : State Ref) → P s → P (visit_group vq o s)
    unfolding visit_group
    induct_group vq none s h = h
    induct_group vq (some g) s h = induct_answer vq g _ s h

    induct_labels :
        (groups : Groups) (vq : VisQuery Ref) (s : State Ref) (ls : List Label)
        → P s
        → P (visit_labels groups vq s ls)
    unfolding visit_labels
    induct_labels groups vq s [] h = h
    induct_labels groups vq s (l ∷ ls) h =
        induct_labels groups vq (visit_group vq (lookup l groups) s) ls (induct_group vq _ s h)

    pub induct_nodes :
        (groups : Groups) (s : State Ref) (nodes : Nodes Ref) → P s → P (visit_nodes groups s nodes)
    unfolding visit_nodes
    induct_nodes groups s [] h = h
    induct_nodes groups s ((vq, ls) ∷ nodes) h =
        induct_nodes groups (visit_labels groups vq s ls) nodes (induct_labels groups vq s ls h)

  abbrev pub NoEmpty : Nodes Ref → Type 0
  NoEmpty [] = Unit
  NoEmpty ((vq, ls) ∷ nodes) = (ls ≢ []) × NoEmpty nodes

  -- What the visits of a layer make of the state `s` that it starts from.
  pub record Grown (s t : State Ref) : Type 0 where
    pub kept : (w : VisQuery Ref) (x : Label) → seen s w x ≡ true → seen t w x ≡ true
    pub new : (w : VisQuery Ref) (x : Label) → listed t.new_nodes w x ≡ true → seen s w x ≡ false
    pub full : NoEmpty t.new_nodes

  NoEmpty-put :
      (vq : VisQuery Ref) (ls : List Label) (nodes : Nodes Ref)
      → ls ≢ []
      → NoEmpty nodes
      → NoEmpty (put vq ls nodes)
  NoEmpty-put vq ls [] n h = (n, tt)
  NoEmpty-put vq ls ((k, ms) ∷ nodes) n h = elim (Bool-cases (k == vq)) [
    | inl same ↦ rw same (n, h.1)
    | inr other ↦ rw other (h.0, NoEmpty-put vq ls nodes n h.1)
  ]

  NoEmpty-offer :
      (vq : VisQuery Ref) (s : State Ref) (l : Label)
      → NoEmpty s.new_nodes
      → NoEmpty (offer vq s l).new_nodes
  unfolding offer
  NoEmpty-offer vq s l h = elim (Bool-cases (contains l (get [] vq s.visited))) [
    | inl old ↦ rw old h
    | inr new ↦ rw new (NoEmpty-put vq _ s.new_nodes (concat-ne-nil (get [] vq s.new_nodes) l) h)
  ]

  Grown-offer :
      (s : State Ref) (vq : VisQuery Ref) (t : State Ref) (l : Label)
      → Grown s t
      → Grown s (offer vq t l)
  Grown-offer s vq t l h = record {
    kept = λ w x k. ground (arith, seen-offer vq t l w x, h.kept w x k);
    new = λ w x p. ground (arith, listed-offer vq t l w x p, h.new w x, h.kept w x);
    full = NoEmpty-offer vq t l h.full;
  }

  NoEmpty-drop_decided :
      (ret : GoMap (VisQuery Ref) Bool) (nodes : Nodes Ref)
      → NoEmpty nodes
      → NoEmpty (drop_decided ret nodes)
  unfolding drop_decided
  NoEmpty-drop_decided ret [] h = h
  NoEmpty-drop_decided ret ((vq, ls) ∷ nodes) h = elim (Bool-cases (is_some (lookup vq ret))) [
    | inl old ↦ rw old (NoEmpty-drop_decided ret nodes h.1)
    | inr new ↦ rw new (h.0, NoEmpty-drop_decided ret nodes h.1)
  ]

  pub Grown-layer : (groups : Groups) (s : State Ref) → Grown s (layer groups s)
  unfolding layer
  Grown-layer groups s =
      let t = visit_nodes groups (record s { new_nodes = [] }) s.new_nodes in
      let h : Grown s t =
        induct_nodes (Grown s) (Grown-offer s)
          (λ t ret h. record { kept = h.kept; new = h.new; full = h.full }) groups
          (record s { new_nodes = [] }) s.new_nodes
          (record { kept = λ w x k. k; new = λ w x p. cc; full = tt }) in
      record {
        kept = h.kept;
        new = λ w x p. h.new w x (listed-drop_decided t.ret t.new_nodes w x p);
        full = NoEmpty-drop_decided t.ret t.new_nodes h.full;
      }
