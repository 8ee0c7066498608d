-- ===== src/Filter/Search/Inv.antt =====
-- What one layer of the search keeps: the answers given so far are right, and whatever a query has
-- seen is answered, waits, or has been expanded.
use tools_jvm_autodeps.Base.{
  ◌≡◌, refl, ◌≢◌, ◌⊎◌, inl, inr, Bool, true, false, ◌&&◌, ◌||◌, Option, some, List, [], ◌∷◌, arith,
  Eq, Text, nat_eq, text_eq,
}
use tools_jvm_autodeps.GoMap.{contains, lookup}
use tools_jvm_autodeps.Filter.{Tri, denied, granted, unknown, spec_visible_to}
use tools_jvm_autodeps.Filter.Search.{VisQuery, vis_query_eq, State, is_group_label, local_answer}
use tools_jvm_autodeps.Filter.Search.Offer.{seen, queued, listed}
use tools_jvm_autodeps.Bazel.{Rule, Label, PackageGroup, label_list_attr}
use tools_jvm_autodeps.Strings.{codes}

-- The specs of a package group grant visibility or leave it open: `case no` is never taken.
pub spec_visible_to-ne-denied :
    (specs : List Text) (cons_pkg : Text) → spec_visible_to specs cons_pkg ≢ denied
unfolding spec_visible_to
spec_visible_to-ne-denied [] cons_pkg = λ h. cc
spec_visible_to-ne-denied (spec ∷ specs) cons_pkg =
    λ h. ground (arith, spec_visible_to-ne-denied specs cons_pkg)

pub Tri-cases : (t : Tri) → (t ≡ denied) ⊎ ((t ≡ granted) ⊎ (t ≡ unknown))
Tri-cases denied = inl refl
Tri-cases granted = inr (inl refl)
Tri-cases unknown = inr (inr refl)

module _ {Ref : Type 0} ⦃e : Eq Ref⦄ (deref : Ref → Rule)
    (world : Label → Option PackageGroup) where
  -- the package groups that the visibility attribute of a query's rule names
  abbrev pub names_group : VisQuery Ref → Label → Bool
  names_group vq l =
      contains l (label_list_attr (deref vq.rule) (codes "visibility")) && is_group_label deref l

  -- those, and the ones that they include
  pub data Reach (vq : VisQuery Ref) : Label → Type 0 where
    first : {l : Label} → names_group vq l ≡ true → Reach vq l
    next :
        {l inc : Label} {g : PackageGroup}
        → Reach vq l
        → world l ≡ some g
        → contains inc g.includes ≡ true
        → Reach vq inc

  -- what it is for a rule to be visible to a package
  pub data Visible (vq : VisQuery Ref) : Type 0 where
    local : local_answer deref vq ≡ granted → Visible vq
    by_group :
        {l : Label} {g : PackageGroup}
        → local_answer deref vq ≡ unknown
        → Reach vq l
        → world l ≡ some g
        → spec_visible_to g.specs vq.pkg ≡ granted
        → Visible vq

  -- what is left to do of a group: nothing, if it is not there, or if it left the query open and all
  -- that it includes is seen
  abbrev pub Expanded : State Ref → VisQuery Ref → Label → Type 0
  Expanded s w x =
      (g : PackageGroup)
      → world x ≡ some g
      → (spec_visible_to g.specs w.pkg ≡ unknown)
        × ((inc : Label) → contains inc g.includes ≡ true → seen s w inc ≡ true)

  abbrev pub Settled : Bool → State Ref → VisQuery Ref → Label → Type 0
  Settled pending s w x =
      (lookup w s.ret ≡ some true) ⊎ (((pending || queued s w x) ≡ true) ⊎ Expanded s w x)

  -- The state of a search for the queries `query`, with `pending` the nodes that this layer has
  -- still to visit.
  pub record Inv (query : List (VisQuery Ref)) (pending : VisQuery Ref → Label → Bool)
      (s : State Ref) : Type 0 where
    pub sound : (w : VisQuery Ref) → lookup w s.ret ≡ some true → Visible w
    pub never_false : (w : VisQuery Ref) → lookup w s.ret ≢ some false
    pub reached : (w : VisQuery Ref) (x : Label) → seen s w x ≡ true → Reach w x
    pub asked : (w : VisQuery Ref) (x : Label) → seen s w x ≡ true → contains w query ≡ true
    pub open_local :
        (w : VisQuery Ref) (x : Label) → seen s w x ≡ true → local_answer deref w ≡ unknown
    pub listed_seen :
        (w : VisQuery Ref) (x : Label) → listed s.new_nodes w x ≡ true → seen s w x ≡ true
    pub pending_seen : (w : VisQuery Ref) (x : Label) → pending w x ≡ true → seen s w x ≡ true
    pub closed : (w : VisQuery Ref) (x : Label) → seen s w x ≡ true → Settled (pending w x) s w x
    pub answered :
        (w : VisQuery Ref)
        → contains w query ≡ true
        → local_answer deref w ≡ granted
        → lookup w s.ret ≡ some true
    pub started :
        (w : VisQuery Ref) (x : Label)
        → contains w query ≡ true
        → local_answer deref w ≡ unknown
        → names_group w x ≡ true
        → seen s w x ≡ true
