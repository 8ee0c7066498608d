-- ===== src/Filter/Search/Correct.antt =====
-- What CheckVisibility answers.
use tools_jvm_autodeps.Base.{
  ℕ, zero, suc, ◌≡◌, ap, ◌↔◌, ◌⊎◌, inl, inr, Bool, true, false, Option, some, List, [], arith,
  List-cases, Eq, Text, nat_eq, text_eq,
}
use tools_jvm_autodeps.GoMap.{GoMap, contains, lookup, get, get-eq-true_iff}
use tools_jvm_autodeps.Bazel.{Label, Rule, PackageGroup, Package}
use tools_jvm_autodeps.PkgLoading.{
  Loader, IsConsistent, find_group, load_package_groups, Result-cases,
}
use tools_jvm_autodeps.PkgLoading.Lookup.{lookup-load_package_groups}
use tools_jvm_autodeps.Filter.{unknown}
use tools_jvm_autodeps.Filter.Search.{
  VisQuery, vis_query_eq, State, Nodes, done, loop, layer, start, check_visibility, local_answer,
  labels,
}
use tools_jvm_autodeps.Filter.Search.Offer.{seen}
use tools_jvm_autodeps.Filter.Search.Inv.{Inv, Reach, first, next, Visible, local, by_group}
use tools_jvm_autodeps.Filter.Search.Layer.{Inv-layer}
use tools_jvm_autodeps.Filter.Search.Start.{Inv-start}

module _ {E Ref : Type 0} ⦃e : Eq Ref⦄ (deref : Ref → Rule) (load : Loader E Ref)
    (workspace : Text → Option (Package Ref)) (query : List (VisQuery Ref)) where
  abbrev pub world : Label → Option PackageGroup
  world = find_group workspace

  abbrev pub Between : State Ref → Type 0
  Between s = Inv deref world query (λ w x. false) s

  -- A search that ends has emptied its nodes.
  loop-Inv :
      IsConsistent load workspace
      → (fuel : ℕ) (s : State Ref) (ret : GoMap (VisQuery Ref) Bool) → Between s
      → loop load fuel s ≡ done ret
      → (t : State Ref) × Between t × (t.new_nodes ≡ []) × (t.ret ≡ ret)
  unfolding loop
  loop-Inv c zero s ret h f = elim (List-cases s.new_nodes) [
    | inl empty ↦ (s, h, empty, ground arith)
    | inr (n, rest, e') ↦ absurd (ground arith)
  ]
  loop-Inv c (suc fuel) s ret h f = elim (List-cases s.new_nodes) [
    | inl empty ↦ (s, h, empty, ground arith)
    | inr (n, rest, e') ↦ elim (Result-cases (load_package_groups load (labels s.new_nodes))) [
      | inl (groups, g) ↦
          loop-Inv c fuel (layer groups s) ret
            (Inv-layer deref world query groups s
              (lookup-load_package_groups load workspace c (labels s.new_nodes) groups g) h)
            (ground arith)
      | inr (error, g) ↦ absurd (ground arith)
    ]
  ]

  -- At the end a query without an answer has seen all groups that it reaches.
  seen_of_Reach :
      (t : State Ref) (w : VisQuery Ref)
      → Between t
      → t.new_nodes ≡ []
      → contains w query ≡ true
      → local_answer deref w ≡ unknown
      → {x : Label} → Reach deref world w x
      → (lookup w t.ret ≡ some true) ⊎ (seen t w x ≡ true)
  seen_of_Reach t w h empty m u (first {l} n) = inr (h.started w l m u n)
  seen_of_Reach t w h empty m u (next {l} {inc} {g} r f k) =
      elim (seen_of_Reach t w h empty m u r) [
        | inl a ↦ inl a
        | inr s ↦ elim (h.closed w l s) [
          | inl a ↦ inl a
          | inr (inl q) ↦
              absurd (ground (arith, ap (λ (n : Nodes Ref). contains l (get [] w n)) empty))
          | inr (inr d) ↦ inr ((d g f).1 inc k)
        ]
      ]

  answer_of_Visible :
      (t : State Ref) (w : VisQuery Ref)
      → Between t
      → t.new_nodes ≡ []
      → contains w query ≡ true
      → Visible deref world w
      → lookup w t.ret ≡ some true
  answer_of_Visible t w h empty m (local g) = h.answered w m g
  answer_of_Visible t w h empty m (by_group {l} {g} u r f a) =
      elim (seen_of_Reach t w h empty m u r) [
        | inl b ↦ b
        | inr s ↦ elim (h.closed w l s) [
          | inl b ↦ b
          | inr (inl q) ↦
              absurd (ground (arith, ap (λ (n : Nodes Ref). contains l (get [] w n)) empty))
          | inr (inr d) ↦ absurd (ground (arith, (d g f).0))
        ]
      ]

  -- Where the loader returns the packages of one workspace and CheckVisibility returns, its result
  -- is true for a query exactly if the rule is visible to the package: by its own visibility
  -- attribute, or by a package group that the attribute names or that is reached from one through
  -- includes.
  pub check_visibility_correct :
      IsConsistent load workspace
      → (fuel : ℕ) (ret : GoMap (VisQuery Ref) Bool)
      → check_visibility deref load fuel query ≡ done ret
      → (w : VisQuery Ref) → contains w query ≡ true
      → (get false w ret ≡ true) ↔ Visible deref world w
  unfolding check_visibility
  check_visibility_correct c fuel ret f w m =
      let (t, h, empty, same) =
        loop-Inv c fuel (start deref query) ret (Inv-start deref world query) f in
      (
        λ g. h.sound w (rw same ((get-eq-true_iff w ret).0 g)),
        λ v. (get-eq-true_iff w ret).1 (rw (← same) (answer_of_Visible t w h empty m v)),
      )
