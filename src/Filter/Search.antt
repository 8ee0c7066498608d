-- ===== src/Filter/Search.antt =====
-- CheckVisibility of filter/filter.go: the search over `package_group()`s, layer by layer. The proofs
-- are in the modules below.
--
-- The `for len(nodes) > 0` loop takes fuel, one unit a layer; `Ends` gives an amount that is enough.
pub mod Offer
pub mod Inv
pub mod Step
pub mod Layer
pub mod Start
pub mod Correct
pub mod Measure
pub mod Ends
pub mod Tests
use tools_jvm_autodeps.Base.{
  ℕ, zero, suc, Bool, true, false, ◌&&◌, ◌||◌, not, Option, none, some, List, [], ◌∷◌, ◌++◌, Text,
  ◌==◌, if◌then◌else◌, text_eq, Eq, is_some, foldl, ◌≡◌, ◌↔◌, text_beq_iff, arith,
}
use tools_jvm_autodeps.GoMap.{GoMap, lookup, get, put, contains}
use tools_jvm_autodeps.Strings.{codes}
use tools_jvm_autodeps.Bazel.{Label, Rule, PackageGroup, split, label_list_attr}
use tools_jvm_autodeps.PkgLoading.{Result, ok, err, Loader, load_package_groups}
use tools_jvm_autodeps.Filter.{
  Tri, denied, granted, unknown, local_visible_to, spec_visible_to, pkg_visibility_name,
  subpackages_visibility_name,
}

pub record VisQuery (Ref : Type 0) : Type 0 where
  pub rule : Ref
  pub pkg : Text

module _ {Ref : Type 0} ⦃e : Eq Ref⦄ where
  abbrev pub vis_query_beq : VisQuery Ref → VisQuery Ref → Bool
  vis_query_beq a b = a.rule == b.rule && a.pkg == b.pkg

  pub vis_query_beq_iff : (a b : VisQuery Ref) → (vis_query_beq a b ≡ true) ↔ (a ≡ b)
  vis_query_beq_iff a b = ground (arith, e.beq_iff a.rule b.rule, text_beq_iff a.pkg b.pkg)

  instance abbrev pub vis_query_eq : Eq (VisQuery Ref)
  vis_query_eq = record { beq = vis_query_beq; beq_iff = vis_query_beq_iff }

-- a `map[VisQuery][]bazel.Label`, and `visited`, a `map[VisQuery]map[bazel.Label]bool`
abbrev pub Nodes : Type 0 → Type 0
Nodes Ref = GoMap (VisQuery Ref) (List Label)

-- `ret`, `visited` and `newNodes`
pub record State (Ref : Type 0) : Type 0 where
  pub ret : GoMap (VisQuery Ref) Bool
  pub visited : Nodes Ref
  pub new_nodes : Nodes Ref

abbrev pub Groups : Type 0
Groups = GoMap Label PackageGroup

-- labels
unfoldable pub labels {ℓ} : {K : Type ℓ} → GoMap K (List Label) → List Label
labels [] = []
labels ((vq, ls) ∷ nodes) = ls ++ labels nodes

module _ {Ref : Type 0} ⦃e : Eq Ref⦄ where
  -- `if !visited[vq][l] { visited[vq][l] = true; newNodes[vq] = append(newNodes[vq], l) }`
  unfoldable pub offer : VisQuery Ref → State Ref → Label → State Ref
  offer vq s l = if contains l (get [] vq s.visited) then s else record s {
    visited = put vq (l ∷ get [] vq s.visited) s.visited;
    new_nodes = put vq (get [] vq s.new_nodes ++ l ∷ []) s.new_nodes;
  }

  -- the switch on what the specs of a package group say
  unfoldable pub answer : VisQuery Ref → PackageGroup → Tri → State Ref → State Ref
  answer vq pg denied s = record s { ret = put vq false s.ret }
  answer vq pg granted s = record s { ret = put vq true s.ret }
  answer vq pg unknown s = foldl (offer vq) s pg.includes

  -- `pg := pkgGroups[pkgGroupLabel]`, where nil is skipped
  unfoldable pub visit_group : VisQuery Ref → Option PackageGroup → State Ref → State Ref
  visit_group vq none s = s
  visit_group vq (some pg) s = answer vq pg (spec_visible_to pg.specs vq.pkg) s

  -- `for _, pkgGroupLabel := range pkgGroupLabels`
  unfoldable pub visit_labels : Groups → VisQuery Ref → State Ref → List Label → State Ref
  visit_labels groups vq s [] = s
  visit_labels groups vq s (l ∷ ls) = visit_labels groups vq (visit_group vq (lookup l groups) s) ls

  -- `for vq, pkgGroupLabels := range nodes`
  unfoldable pub visit_nodes : Groups → State Ref → Nodes Ref → State Ref
  visit_nodes groups s [] = s
  visit_nodes groups s ((vq, ls) ∷ nodes) = visit_nodes groups (visit_labels groups vq s ls) nodes

  -- `for n := range newNodes { if _, ok := ret[n]; ok { delete(newNodes, n) } }`
  unfoldable pub drop_decided : GoMap (VisQuery Ref) Bool → Nodes Ref → Nodes Ref
  drop_decided ret [] = []
  drop_decided ret ((vq, ls) ∷ nodes) =
      let rest = drop_decided ret nodes in if is_some (lookup vq ret) then rest else (vq, ls) ∷ rest

  -- one turn of the loop, on the groups that were loaded for `nodes`
  unfoldable pub layer : Groups → State Ref → State Ref
  layer groups s =
      let t = visit_nodes groups (record s { new_nodes = [] }) s.new_nodes in
      record t { new_nodes = drop_decided t.ret t.new_nodes }

pub data Outcome (E Ref : Type 0) : Type 0 where
  done : GoMap (VisQuery Ref) Bool → Outcome E Ref
  failed : E → Outcome E Ref
  out_of_fuel : Outcome E Ref

module _ {E Ref : Type 0} ⦃e : Eq Ref⦄ (load : Loader E Ref) where
  -- The next nodes stand in `new_nodes` between the turns.
  unfoldable pub loop : ℕ → State Ref → Outcome E Ref
  loop zero s = elim s.new_nodes [ [] ↦ done s.ret | _ ∷ _ ↦ out_of_fuel ]
  loop (suc fuel) s = elim s.new_nodes [
    | [] ↦ done s.ret
    | _ ∷ _ ↦ elim (load_package_groups load (labels s.new_nodes)) [
      | ok groups ↦ loop fuel (layer groups s)
      | err error ↦ failed error
    ]
  ]

module _ {Ref : Type 0} ⦃e : Eq Ref⦄ (deref : Ref → Rule) where
  abbrev pub local_answer : VisQuery Ref → Tri
  local_answer vq = local_visible_to (deref vq.rule) vq.pkg

  -- the first loop over the queries: what is granted, and what is not decided
  unfoldable pub granted_queries :
      GoMap (VisQuery Ref) Bool → List (VisQuery Ref) → GoMap (VisQuery Ref) Bool
  granted_queries ret [] = ret
  granted_queries ret (vq ∷ query) =
      granted_queries (elim (local_answer vq) [ granted ↦ put vq true ret | _ ↦ ret ]) query

  unfoldable pub undecided_queries : List (VisQuery Ref) → List (VisQuery Ref)
  undecided_queries [] = []
  undecided_queries (vq ∷ query) =
      let rest = undecided_queries query in
      elim (local_answer vq) [ unknown ↦ vq ∷ rest | _ ↦ rest ]

  -- the test of pkgGroupsInVisibility that skips the entries that name no package group
  abbrev pub is_group_label : Label → Bool
  is_group_label l =
      let vis_name = (split l).1 in
      not (vis_name == pkg_visibility_name || vis_name == subpackages_visibility_name)

  unfoldable pub offer_groups : VisQuery Ref → State Ref → List Label → State Ref
  unfolding offer
  offer_groups vq s [] = s
  offer_groups vq s (l ∷ vis) = offer_groups vq (if is_group_label l then offer vq s l else s) vis

  -- pkgGroupsInVisibility, on the state that holds `visited` and the result
  unfoldable pub pkg_groups_in_visibility : State Ref → List (VisQuery Ref) → State Ref
  pkg_groups_in_visibility s [] = s
  pkg_groups_in_visibility s (vq ∷ query) =
      pkg_groups_in_visibility
        (offer_groups vq s (label_list_attr (deref vq.rule) (codes "visibility"))) query

  unfoldable pub start : List (VisQuery Ref) → State Ref
  start query =
      pkg_groups_in_visibility
        (record { ret = granted_queries [] query; visited = []; new_nodes = [] })
        (undecided_queries query)

  unfoldable pub check_visibility :
      {E : Type 0} → Loader E Ref → ℕ → List (VisQuery Ref) → Outcome E Ref
  check_visibility load fuel query = loop load fuel (start query)
