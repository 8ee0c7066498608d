-- ===== src/Filter/Search/Ends.antt =====
-- The search ends: every layer that goes on sees a label for the first time.
use tools_jvm_autodeps.Base.{
  ℕ, zero, suc, ◌*◌, ◌<◌, ◌≡◌, refl, ◌≢◌, ◌↔◌, ◌⊎◌, inl, inr, Bool, true, false, Option, some, List,
  [], ◌∷◌, arith, length, List-cases, Eq, Text, nat_eq, text_eq, beq_refl,
}
use tools_jvm_autodeps.GoMap.{GoMap, contains, get}
use tools_jvm_autodeps.Bazel.{Label, Rule, PackageGroup, Package}
use tools_jvm_autodeps.PkgLoading.{Loader, ok, IsConsistent, find_group, load_package_groups}
use tools_jvm_autodeps.Counting.{count_pairs, count_pairs_lt, count_pairs-le}
use tools_jvm_autodeps.PkgLoading.Lookup.{lookup-load_package_groups, load_package_groups_total}
use tools_jvm_autodeps.Filter.Search.{
  VisQuery, vis_query_eq, State, Nodes, done, loop, layer, start, check_visibility, labels,
}
use tools_jvm_autodeps.Filter.Search.Offer.{seen, listed}
use tools_jvm_autodeps.Filter.Search.Inv.{Reach, first, next, Visible, names_group}
use tools_jvm_autodeps.Filter.Search.Layer.{Inv-layer}
use tools_jvm_autodeps.Filter.Search.Start.{Inv-start}
use tools_jvm_autodeps.Filter.Search.Measure.{Grown-layer, NoEmpty}
use tools_jvm_autodeps.Filter.Search.Correct.{Between, check_visibility_correct}

module _ {Ref : Type 0} ⦃e : Eq Ref⦄ where
  -- Nodes with no empty entry list a label, where there are any.
  listed_some :
      (nodes : Nodes Ref)
      → NoEmpty nodes
      → (nodes ≡ []) ⊎ ((w : VisQuery Ref) × (x : Label) × (listed nodes w x ≡ true))
  listed_some [] h = inl refl
  listed_some ((vq, []) ∷ nodes) h = absurd (h.0 refl)
  listed_some ((vq, l ∷ ls) ∷ nodes) h = inr (vq, l, ground (arith, beq_refl vq, beq_refl l))

module _ {E Ref : Type 0} ⦃e : Eq Ref⦄ (deref : Ref → Rule) (load : Loader E Ref)
    (workspace : Text → Option (Package Ref)) (query : List (VisQuery Ref))
    (universe : List Label) where
  -- A list of labels that holds all that the queries can reach.
  pub record IsUniverse : Type 0 where
    pub named :
        (w : VisQuery Ref) (x : Label)
        → names_group deref (find_group workspace) w x ≡ true
        → contains x universe ≡ true
    pub included :
        (x inc : Label) (g : PackageGroup)
        → find_group workspace x ≡ some g
        → contains inc g.includes ≡ true
        → contains inc universe ≡ true

  contains_of_Reach :
      IsUniverse
      → (w : VisQuery Ref) {x : Label} → Reach deref (find_group workspace) w x
      → contains x universe ≡ true
  contains_of_Reach u w (first {l} n) = u.named w l n
  contains_of_Reach u w (next {l} {inc} {g} r f k) = u.included l inc g f k

  -- the labels of the universe that are not yet seen, over all queries
  abbrev unseen : State Ref → ℕ
  unseen s = count_pairs (seen s) query universe

  unseen-layer :
      (groups : GoMap Label PackageGroup) (s : State Ref)
      → IsUniverse
      → Between deref load workspace query (layer groups s)
      → ((layer groups s).new_nodes ≡ []) ⊎ (unseen (layer groups s) < unseen s)
  unseen-layer groups s u h =
      let g = Grown-layer groups s in
      elim (listed_some (layer groups s).new_nodes g.full) [
        | inl empty ↦ inl empty
        | inr (w, x, p) ↦
            let now = h.listed_seen w x p in
            inr (
              count_pairs_lt (seen s) (seen (layer groups s)) query universe w x g.kept
                (h.asked w x now) (contains_of_Reach u w (h.reached w x now)) (g.new w x p) now)
      ]

  loop-empty : (fuel : ℕ) (s : State Ref) → s.new_nodes ≡ [] → loop load fuel s ≡ done s.ret
  unfolding loop
  loop-empty zero s h = ground arith
  loop-empty (suc fuel) s h = ground arith

  loop_turn :
      (fuel : ℕ) (s : State Ref) (groups : GoMap Label PackageGroup)
      (ret : GoMap (VisQuery Ref) Bool)
      → s.new_nodes ≢ []
      → load_package_groups load (labels s.new_nodes) ≡ ok groups
      → loop load fuel (layer groups s) ≡ done ret
      → loop load (suc fuel) s ≡ done ret
  unfolding loop
  loop_turn fuel s groups ret n g f = ground arith

  loop_ends :
      IsConsistent load workspace
      → ((names : List Text) → (pkgs : GoMap Text (Package Ref)) × (load names ≡ ok pkgs))
      → IsUniverse
      → (fuel : ℕ) (s : State Ref) → Between deref load workspace query s
      → unseen s < fuel
      → (ret : GoMap (VisQuery Ref) Bool) × (loop load fuel s ≡ done ret)
  loop_ends c total u zero s h m = elim m [ ]
  loop_ends c total u (suc fuel) s h m = elim (List-cases s.new_nodes) [
    | inl empty ↦ (s.ret, loop-empty (suc fuel) s empty)
    | inr (n, rest, e') ↦
        let (groups, g) = load_package_groups_total load total (labels s.new_nodes) in
        let h' =
          Inv-layer deref (find_group workspace) query groups s
            (lookup-load_package_groups load workspace c (labels s.new_nodes) groups g) h in
        let (ret, f) : (ret : GoMap (VisQuery Ref) Bool) × (loop load fuel (layer groups s)
              ≡ done ret) =
          elim (unseen-layer groups s u h') [
            | inl empty ↦ ((layer groups s).ret, loop-empty fuel (layer groups s) empty)
            | inr less ↦ loop_ends c total u fuel (layer groups s) h' (omega arith)
          ] in
        (ret, loop_turn fuel s groups ret (λ empty. ground arith) g f)
  ]

  -- It ends, for any query.
  pub check_visibility_ends :
      IsConsistent load workspace
      → ((names : List Text) → (pkgs : GoMap Text (Package Ref)) × (load names ≡ ok pkgs))
      → IsUniverse
      → (ret : GoMap (VisQuery Ref) Bool) × (check_visibility deref load
            (suc (length query * length universe))
            query
          ≡ done ret)
  unfolding check_visibility
  check_visibility_ends c total u =
      loop_ends c total u (suc (length query * length universe)) (start deref query)
        (Inv-start deref (find_group workspace) query)
        (omega (arith, count_pairs-le (seen (start deref query)) query universe))

  -- Where the loader returns the packages of one workspace without errors, and a finite list holds
  -- all package groups that can be reached, CheckVisibility ends within one layer more than there
  -- are pairs of a query and a label of that list. Its result is true for a query exactly if the
  -- rule is visible to the package.
  pub check_visibility_decides :
      IsConsistent load workspace
      → ((names : List Text) → (pkgs : GoMap Text (Package Ref)) × (load names ≡ ok pkgs))
      → IsUniverse
      → (w : VisQuery Ref) → contains w query ≡ true
      → (ret : GoMap (VisQuery Ref) Bool) × (check_visibility deref load
            (suc (length query * length universe))
            query
          ≡ done ret)
        × ((get false w ret ≡ true) ↔ Visible deref (find_group workspace) w)
  check_visibility_decides c total u w m =
      let (ret, f) = check_visibility_ends c total u in
      (ret, f, check_visibility_correct deref load workspace query c _ ret f w m)
