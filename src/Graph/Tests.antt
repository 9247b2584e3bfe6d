-- ===== src/Graph/Tests.antt =====
-- Small graphs, and what the program does on them.
use vortex_dispatch.Graph.{Dag, add_edge, add_node, dependencies_of, empty, node_count, ready_nodes}
use vortex_dispatch.Graph.Ready.{
  IsWellFormed, add_edge-IsWellFormed, add_node-IsWellFormed, empty-IsWellFormed, ready_nodes_exact,
}
use vortex_dispatch.Graph.Topo.{
  cycle_detected, degrees, link, link_all, link_one, loop, process, relax, relax_all, seeds, sorted,
  start, topological_sort, zero_degrees,
}
use vortex_dispatch.Graph.Topo.Result.{
  IsStuck, Verdict, topological_sort-Verdict, topological_sort-cycle,
}
use vortex_dispatch.Graph.Waves.{collect, planned, waves}
use vortex_dispatch.Graph.Waves.Cover.{PlanVerdict, waves-PlanVerdict}
use vortex_dispatch.Prelude.{
  Bool-cases, IsSorted, IsSubset, String, [], arith, assign, false, has, inl, inr, refl, sort,
  str_eq, str_eq_iff, true, ℕ, ◌↔◌, ◌∷◌, ◌≡◌,
}

-- "c" depends on "a" and "b", and "b" on "a".
abbrev chain : Dag
chain = add_edge "c" "b" (
    add_edge "c" "a"
      (add_edge "b" "a" (add_node "a" (add_node "b" (add_node "c" (add_node "d" empty))))))

abbrev loop_of_two : Dag
loop_of_two = add_edge "b" "a" (add_edge "a" "b" (add_node "b" (add_node "a" empty)))

program : Unit {0}
unfolding add_node add_edge empty ready_nodes sort topological_sort degrees zero_degrees link_all
    link link_one seeds start loop process relax_all relax waves collect assign
program = tt

topological_sort-chain : topological_sort chain ≡ sorted ("a" ∷ "d" ∷ "b" ∷ "c" ∷ [])
unfolding program
topological_sort-chain = refl

waves-chain : waves chain ≡ planned (("a" ∷ "d" ∷ []) ∷ ("b" ∷ []) ∷ ("c" ∷ []) ∷ [])
unfolding program
waves-chain = refl

topological_sort_loop : topological_sort loop_of_two ≡ cycle_detected 0 2
unfolding program
topological_sort_loop = refl

chain-IsWellFormed : IsWellFormed chain
unfolding program
chain-IsWellFormed = add_edge-IsWellFormed "c" "b" _ refl refl (
    add_edge-IsWellFormed "c" "a" _ refl refl (
      add_edge-IsWellFormed "b" "a" _ refl refl (
        add_node-IsWellFormed "a" _ (
          add_node-IsWellFormed "b" _
            (add_node-IsWellFormed "c" _ (add_node-IsWellFormed "d" _ empty-IsWellFormed))))))

loop_of_two-IsWellFormed : IsWellFormed loop_of_two
unfolding program
loop_of_two-IsWellFormed = add_edge-IsWellFormed "b" "a" _ refl refl (
    add_edge-IsWellFormed "a" "b" _ refl refl
      (add_node-IsWellFormed "b" _ (add_node-IsWellFormed "a" _ empty-IsWellFormed)))

ready_nodes_exact_example :
    IsSorted (ready_nodes chain ("a" ∷ []))
    × ((node : String)
        → (has node (ready_nodes chain ("a" ∷ [])) ≡ true) ↔ (
            (has node chain.nodes ≡ true)
            × (has node ("a" ∷ []) ≡ false)
            × IsSubset (dependencies_of chain node) ("a" ∷ [])))
ready_nodes_exact_example = ready_nodes_exact chain ("a" ∷ [])

topological_sort-Verdict_example : Verdict chain (topological_sort chain)
topological_sort-Verdict_example = topological_sort-Verdict chain chain-IsWellFormed

loop_of_two-IsStuck : IsStuck loop_of_two ("a" ∷ "b" ∷ [])
unfolding program
loop_of_two-IsStuck = record { some_node = λ e. cc; waits = waits }
  where
    waits :
        (n : String)
        → has n ("a" ∷ "b" ∷ []) ≡ true
        → (has n loop_of_two.nodes ≡ true)
          × ((d : String) × (has d (dependencies_of loop_of_two n) ≡ true)
              × (has d ("a" ∷ "b" ∷ []) ≡ true))
    waits n h = elim (Bool-cases (str_eq n "a")) [
      | inl e ↦ rw ((str_eq_iff n "a").0 e) (refl, ("b", refl, refl))
      | inr e ↦
          let b : n ≡ "b" = (str_eq_iff n "b").0 (ground (arith, e, h)) in
          rw b (refl, ("a", refl, refl))
    ]

topological_sort-cycle_example :
    (processed : ℕ) × (topological_sort loop_of_two
      ≡ cycle_detected processed (node_count loop_of_two))
topological_sort-cycle_example =
    topological_sort-cycle loop_of_two ("a" ∷ "b" ∷ []) loop_of_two-IsWellFormed loop_of_two-IsStuck

waves-PlanVerdict_example : PlanVerdict chain (waves chain)
waves-PlanVerdict_example = waves-PlanVerdict chain chain-IsWellFormed
