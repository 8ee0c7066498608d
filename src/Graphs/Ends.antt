-- ===== src/Graphs/Ends.antt =====
-- DFS ends, and visits the nodes that can be reached, each once.
use tools_jvm_autodeps.Base.{
  ℕ, zero, suc, ◌≤◌, ◌<◌, ◌≡◌, refl, sym, subst, ◌↔◌, inl, inr, true, Option, some, List, [], ◌∷◌,
  ◌++◌, arith, Bool-cases, length, Text, text_beq_iff, nat_eq, text_eq,
}
use tools_jvm_autodeps.GoMap.{contains, get, contains-concat, contains-append}
use tools_jvm_autodeps.Counting.{count_row, count_row_mono, count_row_lt, count_row-le}
use tools_jvm_autodeps.Graphs.{Graph, each, visit, dfs}
use tools_jvm_autodeps.Graphs.Post.{Reach, here, edge, occurrences, Post, visit-Post}

-- the ends of all edges
abbrev pub targets : Graph → List Text
targets [] = []
targets ((u, vs) ∷ graph) = vs ++ targets graph

contains-targets :
    (u v : Text) (graph : Graph)
    → contains v (get [] u graph) ≡ true
    → contains v (targets graph) ≡ true
contains-targets u v [] h = cc
contains-targets u v ((w, vs) ∷ graph) h =
    ground (arith, contains-append v vs (targets graph), contains-targets u v graph)

-- the nodes that are not visited
abbrev pub unseen : List Text → List Text → ℕ
unseen nodes s = count_row (λ x. contains x s) nodes

-- Visiting does not stop short where the fuel is more than the nodes left.
each_total :
    (graph : Graph) (nodes : List Text) (fuel : ℕ) (go : List Text → Text → Option (List Text))
    → ((s : List Text) (u : Text)
        → contains u nodes ≡ true
        → unseen nodes s < fuel
        → (t : List Text) × (go s u ≡ some t))
    → ((s : List Text) (u : Text) (t : List Text) → go s u ≡ some t → Post graph (u ∷ []) s t)
    → (s vs : List Text) → ((v : Text) → contains v vs ≡ true → contains v nodes ≡ true)
    → unseen nodes s < fuel
    → (t : List Text) × (each go s vs ≡ some t)
unfolding each
each_total graph nodes fuel go total post s [] inside h = (s, refl)
each_total graph nodes fuel go total post s (v ∷ vs) inside h =
    let (m, g) = total s v (inside v (ground (arith, text_beq_iff v v))) h in
    let fewer : unseen nodes m ≤ unseen nodes s =
      count_row_mono (λ x. contains x s) (λ x. contains x m) nodes (post s v m g).grows in
    let (t, e) =
      each_total graph nodes fuel go total post m vs (λ w k. inside w (ground arith))
        (omega (arith, fewer, h)) in
    (t, ground arith)

visit_total :
    (graph : Graph) (nodes : List Text)
    → ((u v : Text)
        → contains u nodes ≡ true
        → contains v (get [] u graph) ≡ true
        → contains v nodes ≡ true)
    → (fuel : ℕ) (s : List Text) (u : Text) → contains u nodes ≡ true
    → unseen nodes s < fuel
    → (t : List Text) × (visit fuel graph s u ≡ some t)
unfolding visit
visit_total graph nodes inside zero s u m h = ground arith
visit_total graph nodes inside (suc fuel) s u m h = elim (Bool-cases (contains u s)) [
  | inl old ↦ (s, ground arith)
  | inr new ↦
      let less : unseen nodes (s ++ u ∷ []) < unseen nodes s =
        count_row_lt (λ x. contains x s) (λ x. contains x (s ++ u ∷ [])) nodes u
          (λ x k. ground (arith, contains-concat x u s)) m new
          (ground (arith, contains-concat u u s, text_beq_iff u u)) in
      let (t, e) =
        each_total graph nodes fuel (visit fuel graph) (visit_total graph nodes inside fuel)
          (visit-Post fuel graph) (s ++ u ∷ []) (get [] u graph) (λ v k. inside u v m k)
          (omega (arith, less, h)) in
      (t, ground arith)
]

contains_of_Reach :
    (graph : Graph) (t : List Text)
    → ((x v : Text)
        → contains x t ≡ true
        → contains v (get [] x graph) ≡ true
        → contains v t ≡ true)
    → {u w : Text} → Reach graph u w
    → contains u t ≡ true
    → contains w t ≡ true
contains_of_Reach graph t closed here h = h
contains_of_Reach graph t closed (edge {u} {v} m r) h =
    contains_of_Reach graph t closed r (closed u v h m)

Reach-one :
    (graph : Graph) (u r x : Text) → contains r (u ∷ []) ≡ true → Reach graph r x → Reach graph u x
Reach-one graph u r x i p =
    subst (λ y. Reach graph y x) (sym ((text_beq_iff u r).0 (ground arith))) p

-- DFS ends with fuel for one more than the nodes that the graph names. It calls `f` exactly for the
-- nodes that a path leads to from the starting node, and for each of them once.
pub dfs_visits :
    (graph : Graph) (starting_node : Text)
    → (t : List Text) × (dfs (suc (suc (length (targets graph)))) graph starting_node ≡ some t)
      × ((x : Text) → (contains x t ≡ true) ↔ Reach graph starting_node x)
      × ((x : Text) → occurrences x t ≤ 1)
unfolding dfs
dfs_visits graph u =
    let nodes = u ∷ targets graph in
    let inside : (x v : Text)
        → contains x nodes ≡ true
        → contains v (get [] x graph) ≡ true
        → contains v nodes ≡ true =
      λ x v h k. ground (arith, contains-targets x v graph k) in
    let (t, e) =
      visit_total graph nodes inside (suc (suc (length (targets graph)))) [] u
        (ground (arith, text_beq_iff u u))
        (omega (arith, count_row-le (λ x. contains x []) nodes)) in
    let p = visit-Post (suc (suc (length (targets graph)))) graph [] u t e in
    (
      t,
      e,
      λ x. (
        λ h. let (r, i, path) = p.sound x h refl in Reach-one graph u r x i path,
        λ path.
            contains_of_Reach graph t (λ y v h k. p.closed y v h refl k) path
              (p.roots_in u (ground (arith, text_beq_iff u u))),
      ),
      p.once (λ x. omega arith),
    )
