-- ===== src/Graphs/Tests.antt =====
-- DFS on a graph with a cycle.
use tools_jvm_autodeps.Base.{
  suc, ◌≤◌, ◌≡◌, refl, ◌↔◌, true, some, List, [], ◌∷◌, length, Text, nat_eq, text_eq,
}
use tools_jvm_autodeps.GoMap.{contains}
use tools_jvm_autodeps.Strings.{codes}
use tools_jvm_autodeps.Graphs.{Graph, each, visit, dfs}
use tools_jvm_autodeps.Graphs.Post.{Reach, occurrences}
use tools_jvm_autodeps.Graphs.Ends.{targets, dfs_visits}

abbrev graph : Graph
graph =
    (codes "a", codes "b" ∷ codes "c" ∷ [])
    ∷ (codes "b", codes "a" ∷ codes "d" ∷ [])
    ∷ (codes "e", codes "a" ∷ [])
    ∷ []

dfs_runs : dfs 6 graph (codes "a") ≡ some (codes "a" ∷ codes "b" ∷ codes "d" ∷ codes "c" ∷ [])
unfolding dfs visit each
dfs_runs = refl

dfs_visits_example :
    (t : List Text) × (dfs (suc (suc (length (targets graph)))) graph (codes "a") ≡ some t)
    × ((x : Text) → (contains x t ≡ true) ↔ Reach graph (codes "a") x)
    × ((x : Text) → occurrences x t ≤ 1)
dfs_visits_example = dfs_visits graph (codes "a")
