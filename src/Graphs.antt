-- ===== src/Graphs.antt =====
-- graphs/graphs.go: depth-first search.
--
-- A node is visited when it is put into `visited`, and `f` is called at once, so the list of the
-- visited nodes, the oldest first, is both the set and the sequence of the calls of `f`.
pub mod Post
pub mod Ends
pub mod Tests
use tools_jvm_autodeps.Base.{
  ℕ, zero, suc, true, false, Option, none, some, List, [], ◌∷◌, ◌++◌, Text, nat_eq, text_eq,
}
use tools_jvm_autodeps.GoMap.{GoMap, contains, get}

abbrev pub Graph : Type 0
Graph = GoMap Text (List Text)

-- `for _, v := range vs { visit(v) }`, where `none` is out of fuel
unfoldable pub each :
    (List Text → Text → Option (List Text)) → List Text → List Text → Option (List Text)
each visit visited [] = some visited
each visit visited (v ∷ vs) = elim (visit visited v) [
  | some later ↦ each visit later vs
  | none ↦ none
]

-- the inner function, with fuel for the depth of its recursion
unfoldable pub visit : ℕ → Graph → List Text → Text → Option (List Text)
visit zero graph visited u = none
visit (suc fuel) graph visited u = elim (contains u visited) [
  | true ↦ some visited
  | false ↦ each (visit fuel graph) (visited ++ u ∷ []) (get [] u graph)
]

unfoldable pub dfs : ℕ → Graph → Text → Option (List Text)
unfolding visit
dfs fuel graph starting_node = visit fuel graph [] starting_node
