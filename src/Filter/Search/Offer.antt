-- ===== src/Filter/Search/Offer.antt =====
-- Offering labels to a query: what is visited and what is queued afterwards.
use tools_jvm_autodeps.Base.{
  ◌≡◌, refl, text_eq, ◌∷◌, [], ◌++◌, arith, ◌==◌, ◌&&◌, ◌||◌, foldl, Eq, Bool, not, List, ◌∙◌,
  text_beq_iff, false, true,
}
use tools_jvm_autodeps.Filter.Search.{
  VisQuery, vis_query_eq, vis_query_beq_iff, State, offer, Nodes,
}
use tools_jvm_autodeps.Bazel.{Label}
use tools_jvm_autodeps.GoMap.{contains, get-put, get, contains-concat, put}

module _ {Ref : Type 0} ⦃e : Eq Ref⦄ where
  -- `visited[w][x]`, and whether `x` is in `newNodes[w]`
  abbrev pub seen : State Ref → VisQuery Ref → Label → Bool
  seen s w x = contains x (get [] w s.visited)

  abbrev pub queued : State Ref → VisQuery Ref → Label → Bool
  queued s w x = contains x (get [] w s.new_nodes)

  -- whether `x` is in an entry of `nodes` for `w`
  abbrev pub listed : Nodes Ref → VisQuery Ref → Label → Bool
  listed [] w x = false
  listed ((vq, ls) ∷ nodes) w x = vq == w && contains x ls || listed nodes w x

  pub listed-get :
      (nodes : Nodes Ref) (w : VisQuery Ref) (x : Label)
      → contains x (get [] w nodes) ≡ true
      → listed nodes w x ≡ true
  listed-get [] w x h = cc
  listed-get ((vq, ls) ∷ nodes) w x h = ground (arith, listed-get nodes w x)

  listed-put :
      (vq : VisQuery Ref) (ls : List Label) (nodes : Nodes Ref) (w : VisQuery Ref) (x : Label)
      → listed (put vq ls nodes) w x ≡ true
      → (listed nodes w x || vq == w && contains x ls) ≡ true
  listed-put vq ls [] w x h = ground arith
  listed-put vq ls ((k, ms) ∷ nodes) w x h = ground (arith, listed-put vq ls nodes w x)

  module _ (vq : VisQuery Ref) (s : State Ref) (l : Label) (w : VisQuery Ref) (x : Label) where
    pub listed-offer :
        listed (offer vq s l).new_nodes w x ≡ true
        → (listed s.new_nodes w x || vq == w && (l == x && not (seen s w x))) ≡ true
    unfolding offer
    listed-offer h = ground (
      arith,
      listed-put vq (get [] vq s.new_nodes ++ l ∷ []) s.new_nodes w x,
      listed-get s.new_nodes w x,
      contains-concat x l (get [] vq s.new_nodes),
      vis_query_beq_iff vq w,
      text_beq_iff l x,
    )

    pub seen-offer : seen (offer vq s l) w x ≡ (seen s w x || vq == w && l == x)
    unfolding offer
    seen-offer = ground (
      arith,
      get-put [] vq w (l ∷ get [] vq s.visited) s.visited,
      vis_query_beq_iff vq w,
      text_beq_iff l x,
    )

    pub queued-offer :
        queued (offer vq s l) w x ≡ (queued s w x || vq == w && (l == x && not (seen s w x)))
    unfolding offer
    queued-offer = ground (
      arith,
      get-put [] vq w (get [] vq s.new_nodes ++ l ∷ []) s.new_nodes,
      contains-concat x l (get [] vq s.new_nodes),
      vis_query_beq_iff vq w,
      text_beq_iff l x,
    )

    pub ret-offer : (offer vq s l).ret ≡ s.ret
    unfolding offer
    ret-offer = ground arith

module _ {Ref : Type 0} ⦃e : Eq Ref⦄ where
  module _ (vq w : VisQuery Ref) (x : Label) where
    pub seen-foldl-offer :
        (s : State Ref) (ls : List Label)
        → seen (foldl (offer vq) s ls) w x ≡ (seen s w x || vq == w && contains x ls)
    seen-foldl-offer s [] = ground arith
    seen-foldl-offer s (l ∷ ls) =
        ground (arith, seen-foldl-offer (offer vq s l) ls, seen-offer vq s l w x)

    pub queued-foldl-offer :
        (s : State Ref) (ls : List Label)
        → queued (foldl (offer vq) s ls) w x
          ≡ (queued s w x || vq == w && (contains x ls && not (seen s w x)))
    queued-foldl-offer s [] = ground arith
    queued-foldl-offer s (l ∷ ls) = ground (
      arith,
      queued-foldl-offer (offer vq s l) ls,
      seen-offer vq s l w x,
      queued-offer vq s l w x,
    )

  pub listed-foldl-offer :
      (vq w : VisQuery Ref) (x : Label) (s : State Ref) (ls : List Label)
      → listed (foldl (offer vq) s ls).new_nodes w x ≡ true
      → (listed s.new_nodes w x || vq == w && contains x ls) ≡ true
  listed-foldl-offer vq w x s [] h = ground arith
  listed-foldl-offer vq w x s (l ∷ ls) h =
      ground (arith, listed-foldl-offer vq w x (offer vq s l) ls, listed-offer vq s l w x)

  pub ret-foldl-offer :
      (vq : VisQuery Ref) (s : State Ref) (ls : List Label) → (foldl (offer vq) s ls).ret ≡ s.ret
  ret-foldl-offer vq s [] = refl
  ret-foldl-offer vq s (l ∷ ls) = ret-foldl-offer vq (offer vq s l) ls ∙ ret-offer vq s l vq l
