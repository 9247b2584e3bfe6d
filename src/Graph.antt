-- ===== src/Graph.antt =====
-- The dependency graph of the stories (internal/graph/graph.go). The set of nodes is a list
-- without repetition, and the map of edges an association list. Go walks both in no fixed order;
-- the code sorts what it collects, so that the order of these lists is not seen.
pub mod Ready
pub mod Topo
pub mod Waves
mod Tests
use vortex_dispatch.Prelude.{
  ℕ, String, Bool, true, false, not, ◌&&◌, List, [], ◌∷◌, ◌++◌, if◌then◌else◌, has, sort, select,
  length, Dict, value, assign,
}

-- An edge from A to B means that A depends on B.
pub record Dag : Type 0 where
  pub nodes : List String
  pub edges : Dict (List String)

pub empty : Dag
empty = record { nodes = []; edges = [] }

unfoldable pub add_node : String → Dag → Dag
add_node id g = if has id g.nodes then g else record g { nodes = g.nodes ++ id ∷ [] }

unfoldable pub add_edge : String → String → Dag → Dag
add_edge from to g = record g { edges = assign from (value [] g.edges from ++ to ∷ []) g.edges }

abbrev pub dependencies_of : Dag → String → List String
dependencies_of g id = value [] g.edges id

abbrev pub node_count : Dag → ℕ
node_count g = length g.nodes

-- The inner loop of ReadyNodes, left at the first dependency that is not complete.
abbrev pub all_complete : List String → List String → Bool
all_complete completed [] = true
all_complete completed (dep ∷ deps) =
    if has dep completed then all_complete completed deps else false

abbrev pub is_ready : Dag → List String → String → Bool
is_ready g completed node =
    if has node completed then false else all_complete completed (dependencies_of g node)

unfoldable pub ready_nodes : Dag → List String → List String
ready_nodes g completed = sort (select (is_ready g completed) g.nodes)
