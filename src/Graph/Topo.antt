-- ===== src/Graph/Topo.antt =====
-- TopologicalSort, Kahn's algorithm (internal/graph/topo.go).
pub mod Init
pub mod Round
pub mod Result
use vortex_dispatch.Graph.{Dag, node_count}
use vortex_dispatch.Prelude.{
  Dict, List, String, [], assign, if◌then◌else◌, keys, length, pred, select, sort, suc, value, zero,
  ℕ, ◌++◌, ◌+◌, ◌==◌, ◌∷◌,
}

-- The two maps that TopologicalSort fills before its loop.
pub record Degrees : Type 0 where
  pub in_degree : Dict ℕ
  pub dependents : Dict (List String)

unfoldable pub zero_degrees : List String → Dict ℕ → Dict ℕ
zero_degrees [] m = m
zero_degrees (node ∷ nodes) m = zero_degrees nodes (assign node 0 m)

-- One edge: `node` depends on `dep`.
unfoldable pub link_one : String → String → Degrees → Degrees
link_one node dep t = record {
  in_degree = assign node (value 0 t.in_degree node + 1) t.in_degree;
  dependents = assign dep (value [] t.dependents dep ++ node ∷ []) t.dependents;
}

-- The loop over the dependencies of one node.
unfoldable pub link : String → List String → Degrees → Degrees
link node [] t = t
link node (dep ∷ deps) t = link node deps (link_one node dep t)

unfoldable pub link_all : Dict (List String) → Degrees → Degrees
link_all [] t = t
link_all ((node, deps) ∷ edges) t = link_all edges (link node deps t)

unfoldable pub degrees : Dag → Degrees
degrees g = link_all g.edges (record { in_degree = zero_degrees g.nodes []; dependents = [] })

unfoldable pub seeds : Dict ℕ → List String
seeds m = sort (select (λ node. value 0 m node == 0) (keys m))

pub record Kahn : Type 0 where
  pub in_degree : Dict ℕ
  pub queue : List String
  pub order : List String

-- `inDegree[dependent]--`, and the test whether it is 0 now: whether it was 1. Go's int would fall
-- below 0 where this stays at 0, and in neither case is the test met then or later.
unfoldable pub relax : String → Kahn → Kahn
relax dependent s =
    let degree = value 0 s.in_degree dependent in
    record s {
      in_degree = assign dependent (pred degree) s.in_degree;
      queue = if degree == 1 then s.queue ++ dependent ∷ [] else s.queue;
    }

unfoldable pub relax_all : List String → Kahn → Kahn
relax_all [] s = s
relax_all (dependent ∷ dependents) s = relax_all dependents (relax dependent s)

-- One round, after `node` has left the head of the queue.
unfoldable pub process : Dict (List String) → String → List String → Kahn → Kahn
process dependents node rest s =
    relax_all (sort (value [] dependents node))
      (record s { queue = rest; order = s.order ++ node ∷ [] })

pub data Outcome : Type 0 where
  sorted : List String → Outcome
  cycle_detected : ℕ → ℕ → Outcome
  out_of_fuel : Outcome

abbrev pub check_count : Dag → List String → Outcome
check_count g order =
    if length order == node_count g
    then sorted order
    else cycle_detected (length order) (node_count g)

-- The `for len(queue) > 0` loop and the count after it. A node enters the queue once, so that
-- there are at most as many rounds as nodes (see Result).
unfoldable pub loop : Dag → Dict (List String) → ℕ → Kahn → Outcome
loop g dependents zero s = elim s.queue [ [] ↦ check_count g s.order | _ ∷ _ ↦ out_of_fuel ]
loop g dependents (suc fuel) s = elim s.queue [
  | [] ↦ check_count g s.order
  | node ∷ rest ↦ loop g dependents fuel (process dependents node rest s)
]

unfoldable pub start : Degrees → Kahn
start t = record { in_degree = t.in_degree; queue = seeds t.in_degree; order = [] }

unfoldable pub topological_sort : Dag → Outcome
topological_sort g = let t = degrees g in loop g t.dependents (node_count g) (start t)
