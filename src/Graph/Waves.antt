-- ===== src/Graph/Waves.antt =====
-- Waves (internal/graph/topo.go): the nodes in groups that can run at the same time.
pub mod Cover
use vortex_dispatch.Graph.Topo
use vortex_dispatch.Graph.{Dag, node_count, ready_nodes}
use vortex_dispatch.Graph.Topo.{cycle_detected, out_of_fuel, sorted, topological_sort}
use vortex_dispatch.Prelude.{List, String, [], if◌then◌else◌, length, ltb, suc, zero, ℕ, ◌++◌, ◌∷◌}

pub data Plan : Type 0 where
  planned : List (List String) → Plan
  refused : Plan
  unfinished : Plan

-- The `for len(completed) < len(g.nodes)` loop; `completed` holds the keys of the map. What is
-- ready is not completed, so that the map grows by all of it.
unfoldable pub collect : Dag → ℕ → List String → List (List String) → Plan
collect g zero completed waves =
    if ltb (length completed) (node_count g) then unfinished else planned waves
collect g (suc fuel) completed waves =
    let ready = ready_nodes g completed in
    let more = collect g fuel (completed ++ ready) (waves ++ ready ∷ []) in
    if ltb (length completed) (node_count g)
    then (elim ready [ [] ↦ planned waves | _ ∷ _ ↦ more ])
    else planned waves

unfoldable pub waves : Dag → Plan
waves g = elim (topological_sort g) [
  | sorted _ ↦ collect g (node_count g) [] []
  | cycle_detected _ _ ↦ refused
  | out_of_fuel ↦ unfinished
]
