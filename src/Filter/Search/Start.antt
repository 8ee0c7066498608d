-- ===== src/Filter/Search/Start.antt =====
-- The state in which the search starts: the answers that need no loading, and for every other query
-- the package groups that its rule names.
use tools_jvm_autodeps.Base.{
  ◌≡◌, refl, ap, inl, inr, Bool, true, false, ◌&&◌, ◌||◌, some, List, [], ◌∷◌, arith, if◌then◌else◌,
  Bool-cases, Eq, ◌==◌, text_beq_iff, nat_eq, text_eq, Option, ◌∙◌, none, sym,
}
use tools_jvm_autodeps.GoMap.{GoMap, contains, lookup, put, lookup-put}
use tools_jvm_autodeps.Filter.{Tri, granted, unknown}
use tools_jvm_autodeps.Bazel.{Label, Rule, label_list_attr, PackageGroup}
use tools_jvm_autodeps.Filter.Search.{
  VisQuery, vis_query_eq, vis_query_beq_iff, State, offer, offer_groups, is_group_label,
  granted_queries, undecided_queries, local_answer, pkg_groups_in_visibility, start,
}
use tools_jvm_autodeps.Filter.Search.Offer.{
  seen, seen-offer, queued, queued-offer, ret-offer, listed, listed-offer,
}
use tools_jvm_autodeps.Strings.{codes}
use tools_jvm_autodeps.Filter.Search.Inv.{Inv, names_group, local, Tri-cases, first}

abbrev is_granted : Tri → Bool
is_granted granted = true
is_granted _ = false

abbrev is_unknown : Tri → Bool
is_unknown unknown = true
is_unknown _ = false

module _ {Ref : Type 0} ⦃e : Eq Ref⦄ (deref : Ref → Rule) where
  lookup-granted_queries :
      (acc : GoMap (VisQuery Ref) Bool) (query : List (VisQuery Ref)) (w : VisQuery Ref)
      → lookup w (granted_queries deref acc query) ≡ (
          if contains w query && is_granted (local_answer deref w) then some true else lookup w acc)
  unfolding granted_queries
  lookup-granted_queries acc [] w = refl
  lookup-granted_queries acc (vq ∷ query) w = elim (Bool-cases (vq == w)) [
    | inl same ↦
        let f : local_answer deref vq ≡ local_answer deref w =
          ap (local_answer deref) ((vis_query_beq_iff vq w).0 same) in
        ground (
          arith,
          lookup-granted_queries (put vq true acc) query w,
          lookup-granted_queries acc query w,
          lookup-put vq w true acc,
        )
    | inr other ↦ ground (
      arith,
      lookup-granted_queries (put vq true acc) query w,
      lookup-granted_queries acc query w,
      lookup-put vq w true acc,
    )
  ]

  contains-undecided_queries :
      (query : List (VisQuery Ref)) (w : VisQuery Ref)
      → contains w (undecided_queries deref query)
        ≡ (contains w query && is_unknown (local_answer deref w))
  unfolding undecided_queries
  contains-undecided_queries [] w = refl
  contains-undecided_queries (vq ∷ query) w = elim (Bool-cases (vq == w)) [
    | inl same ↦
        let f : local_answer deref vq ≡ local_answer deref w =
          ap (local_answer deref) ((vis_query_beq_iff vq w).0 same) in
        ground (arith, contains-undecided_queries query w)
    | inr other ↦ ground (arith, contains-undecided_queries query w)
  ]

  module _ (w : VisQuery Ref) (x : Label) where
    seen-offer_groups :
        (vq : VisQuery Ref) (s : State Ref) (vis : List Label)
        → seen (offer_groups deref vq s vis) w x
          ≡ (seen s w x || vq == w && (contains x vis && is_group_label deref x))
    unfolding offer_groups
    seen-offer_groups vq s [] = ground arith
    seen-offer_groups vq s (l ∷ vis) = elim (Bool-cases (l == x)) [
      | inl same ↦
          let f : is_group_label deref l ≡ is_group_label deref x =
            ap (is_group_label deref) ((text_beq_iff l x).0 same) in
          ground (
            arith,
            seen-offer_groups vq s vis,
            seen-offer_groups vq (offer vq s l) vis,
            seen-offer vq s l w x,
          )
      | inr other ↦ ground (
        arith,
        seen-offer_groups vq s vis,
        seen-offer_groups vq (offer vq s l) vis,
        seen-offer vq s l w x,
      )
    ]

  abbrev groups_of : VisQuery Ref → List Label
  groups_of vq = label_list_attr (deref vq.rule) (codes "visibility")

  seen-pkg_groups_in_visibility :
      (w : VisQuery Ref) (x : Label) (s : State Ref) (query : List (VisQuery Ref))
      → seen (pkg_groups_in_visibility deref s query) w x
        ≡ (seen s w x || contains w query && (contains x (groups_of w) && is_group_label deref x))
  unfolding pkg_groups_in_visibility
  seen-pkg_groups_in_visibility w x s [] = ground arith
  seen-pkg_groups_in_visibility w x s (vq ∷ query) = elim (Bool-cases (vq == w)) [
    | inl same ↦
        let f : groups_of vq ≡ groups_of w = ap groups_of ((vis_query_beq_iff vq w).0 same) in
        ground (
          arith,
          seen-pkg_groups_in_visibility w x (offer_groups deref vq s (groups_of vq)) query,
          seen-offer_groups w x vq s (groups_of vq),
        )
    | inr other ↦ ground (
      arith,
      seen-pkg_groups_in_visibility w x (offer_groups deref vq s (groups_of vq)) query,
      seen-offer_groups w x vq s (groups_of vq),
    )
  ]

  -- Until the first layer, what is seen is queued.
  record Fresh (s : State Ref) : Type 0 where
    same : (w : VisQuery Ref) (x : Label) → seen s w x ≡ queued s w x
    listed_seen : (w : VisQuery Ref) (x : Label) → listed s.new_nodes w x ≡ true → seen s w x ≡ true

  offer-Fresh : (vq : VisQuery Ref) (s : State Ref) (l : Label) → Fresh s → Fresh (offer vq s l)
  offer-Fresh vq s l h = record {
    same = λ w x. ground (arith, seen-offer vq s l w x, queued-offer vq s l w x, h.same w x);
    listed_seen = λ w x p.
        ground (arith, seen-offer vq s l w x, listed-offer vq s l w x p, h.listed_seen w x);
  }

  offer_groups-Fresh :
      (vq : VisQuery Ref) (s : State Ref) (vis : List Label)
      → Fresh s
      → Fresh (offer_groups deref vq s vis)
  unfolding offer_groups
  offer_groups-Fresh vq s [] h = h
  offer_groups-Fresh vq s (l ∷ vis) h = elim (Bool-cases (is_group_label deref l)) [
    | inl g ↦ rw g (offer_groups-Fresh vq (offer vq s l) vis (offer-Fresh vq s l h))
    | inr g ↦ rw g (offer_groups-Fresh vq s vis h)
  ]

  pkg_groups_in_visibility-Fresh :
      (s : State Ref) (query : List (VisQuery Ref))
      → Fresh s
      → Fresh (pkg_groups_in_visibility deref s query)
  unfolding pkg_groups_in_visibility
  pkg_groups_in_visibility-Fresh s [] h = h
  pkg_groups_in_visibility-Fresh s (vq ∷ query) h =
      pkg_groups_in_visibility-Fresh (offer_groups deref vq s (groups_of vq)) query
        (offer_groups-Fresh vq s (groups_of vq) h)

  ret-offer_groups :
      (vq : VisQuery Ref) (s : State Ref) (vis : List Label)
      → (offer_groups deref vq s vis).ret ≡ s.ret
  unfolding offer_groups
  ret-offer_groups vq s [] = refl
  ret-offer_groups vq s (l ∷ vis) = ground (
    arith,
    ret-offer_groups vq s vis,
    ret-offer_groups vq (offer vq s l) vis,
    ret-offer vq s l vq l,
  )

  ret-pkg_groups_in_visibility :
      (s : State Ref) (query : List (VisQuery Ref))
      → (pkg_groups_in_visibility deref s query).ret ≡ s.ret
  unfolding pkg_groups_in_visibility
  ret-pkg_groups_in_visibility s [] = refl
  ret-pkg_groups_in_visibility s (vq ∷ query) =
      ret-pkg_groups_in_visibility (offer_groups deref vq s (groups_of vq)) query
      ∙ ret-offer_groups vq s (groups_of vq)

  module _ (world : Label → Option PackageGroup) (query : List (VisQuery Ref)) where
    ret-start :
        (w : VisQuery Ref)
        → lookup w (start deref query).ret
          ≡ (if contains w query && is_granted (local_answer deref w) then some true else none)
    unfolding start
    ret-start w =
        ap (lookup w) (ret-pkg_groups_in_visibility _ (undecided_queries deref query))
        ∙ lookup-granted_queries [] query w

    seen-start :
        (w : VisQuery Ref) (x : Label)
        → seen (start deref query) w x
          ≡ (contains w query && is_unknown (local_answer deref w) && names_group deref world w x)
    unfolding start
    seen-start w x =
        seen-pkg_groups_in_visibility w x _ (undecided_queries deref query)
        ∙ ground (arith, contains-undecided_queries query w)

    Fresh-start : Fresh (start deref query)
    unfolding start
    Fresh-start =
        pkg_groups_in_visibility-Fresh _ (undecided_queries deref query)
          (record { same = λ w x. refl; listed_seen = λ w x p. cc })

    pub Inv-start : Inv deref world query (λ w x. false) (start deref query)
    Inv-start = record {
      sound = λ w r. local (elim (Tri-cases (local_answer deref w)) [
        | inl d ↦ ground (arith, ret-start w)
        | inr (inl g) ↦ g
        | inr (inr u) ↦ ground (arith, ret-start w)
      ]);
      never_false = λ w r. ground (arith, ret-start w);
      reached = λ w x k. first (ground (arith, seen-start w x));
      asked = λ w x k. ground (arith, seen-start w x);
      open_local = λ w x k. elim (Tri-cases (local_answer deref w)) [
        | inl d ↦ ground (arith, seen-start w x)
        | inr (inl g) ↦ ground (arith, seen-start w x)
        | inr (inr u) ↦ u
      ];
      listed_seen = Fresh-start.listed_seen;
      pending_seen = λ w x p. cc;
      closed = λ w x k. inr (inl (sym (Fresh-start.same w x) ∙ k));
      answered = λ w m g. ground (arith, ret-start w);
      started = λ w x m u n. ground (arith, seen-start w x);
    }
