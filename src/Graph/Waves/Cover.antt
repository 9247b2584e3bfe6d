-- ===== src/Graph/Waves/Cover.antt =====
-- Waves groups all nodes, each as early as its dependencies allow.
use vortex_dispatch.Graph.{Dag, dependencies_of, empty, node_count, ready_nodes}
use vortex_dispatch.Graph.Ready.{
  IsWellFormed, ready_nodes-IsDistinct, ready_nodes_complete, ready_nodes_exact, ready_nodes_sound,
}
use vortex_dispatch.Graph.Topo.{Outcome, cycle_detected, out_of_fuel, sorted, topological_sort}
use vortex_dispatch.Graph.Topo.Result.{IsStuck, IsTopological, Verdict, topological_sort-Verdict}
use vortex_dispatch.Graph.Topo.Round.{DepsBefore}
use vortex_dispatch.Graph.Waves.{Plan, collect, planned, refused, unfinished, waves}
use vortex_dispatch.Prelude.{
  Bool-cases, IsDistinct, IsDistinct-join, IsSubset, List, List-cases, String, [], ap, append-nil,
  append_assoc, arith, false, ge→ltb, has, has-append, has_head, inl, inr, length, length-append,
  length-le_of_subset, ltb, ltb→lt, str_eq_iff, subset_of_length, suc, true, zero, ℕ, ◌++◌, ◌+◌,
  ◌<◌, ◌↔◌, ◌∷◌, ◌≡◌, ◌≢◌, ◌≤◌, ◌⊎◌,
}

-- From `completed` on, each wave is not empty and holds, each once, exactly the nodes that are ready
-- when it begins, none of them completed before; and at the end every node is completed.
abbrev pub IsPlan : Dag → List String → List (List String) → Type 0
IsPlan g completed [] = IsSubset g.nodes completed
IsPlan g completed (wave ∷ waves) =
    (wave ≢ [])
    × IsDistinct wave
    × ((n : String)
        → (has n wave ≡ true) ↔ (
            (has n g.nodes ≡ true)
            × (has n completed ≡ false)
            × IsSubset (dependencies_of g n) completed))
    × IsPlan g (completed ++ wave) waves

-- While a node of a topological order is not completed, some node is ready.
some_ready :
    (g : Dag) (completed order seen : List String)
    → DepsBefore g seen order
    → IsSubset seen completed
    → IsSubset order completed
      ⊎ ((n : String) × (has n order ≡ true)
          × (has n completed ≡ false)
          × IsSubset (dependencies_of g n) completed)
some_ready g completed [] seen b s = inl (λ x h. cc)
some_ready g completed (x ∷ xs) seen b s = elim (Bool-cases (has x completed)) [
  | inr e ↦ inr (x, has_head x xs, e, λ d m. s d (b.0 d m))
  | inl e ↦
      elim (some_ready g completed xs (x ∷ seen) b.1
        (λ y m. ground (arith, s y, e, str_eq_iff y x))) [
          | inl all ↦ inl (λ y m. ground (arith, all y, e, str_eq_iff y x))
          | inr (n, a, c, d) ↦ inr (n, rw (a) (ground (arith, a)), c, d)
        ]
]

-- The waves that the loop adds behind those it has.
module _ (g : Dag) (w : IsWellFormed g) (order : List String) (t : IsTopological g order) where
  ready_or_done :
      (completed : List String) → IsSubset g.nodes completed ⊎ (ready_nodes g completed ≢ [])
  ready_or_done completed = elim (some_ready g completed order [] t.behind (λ x h. cc)) [
    | inl all ↦ inl (λ n h. all n (t.all_nodes n h))
    | inr (n, a, c, d) ↦ inr (λ empty.
        let found = ready_nodes_complete g completed n (t.only_nodes n a) c d in
        let missing : has n (ready_nodes g completed) ≡ false = rw empty in cc)
  ]

  module _ (completed : List String) (d : IsDistinct completed)
      (s : IsSubset completed g.nodes) where
    abbrev ready : List String
    ready = ready_nodes g completed

    ready_apart : IsDistinct (completed ++ ready)
    ready_apart =
        IsDistinct-join completed ready d (ready_nodes-IsDistinct g completed w.nodes_distinct)
          (λ n h. (ready_nodes_sound g completed n h).1)

    ready_inside : IsSubset (completed ++ ready) g.nodes
    ready_inside n h = elim (Bool-cases (has n completed)) [
      | inl e ↦ s n e
      | inr e ↦
          (ready_nodes_sound g completed n (ground (arith, e, h, has-append n completed ready))).0
    ]

    full : node_count g ≤ length completed → IsSubset g.nodes completed
    full h = subset_of_length completed g.nodes d s h

    not_full : length completed < node_count g → ready ≢ []
    not_full h = elim (ready_or_done completed) [
      | inl all ↦ absurd (omega (arith, length-le_of_subset g.nodes completed w.nodes_distinct all))
      | inr more ↦ more
    ]

  collect_plans :
      (fuel : ℕ) (completed : List String) (before : List (List String))
      → IsDistinct completed
      → IsSubset completed g.nodes
      → node_count g ≤ length completed + fuel
      → (after : List (List String)) × (collect g fuel completed before ≡ planned (before ++ after))
        × IsPlan g completed after
  unfolding collect
  collect_plans zero completed before d s h = (
    [],
    rw (ge→ltb (length completed) (node_count g) (omega arith), append-nil),
    full completed d s (omega arith),
  )
  collect_plans (suc fuel) completed before d s h =
      elim (Bool-cases (ltb (length completed) (node_count g))) [
        | inr e ↦ ([], rw (e, append-nil), full completed d s (ground (arith, e)))
        | inl e ↦
            let lt = ltb→lt (length completed) (node_count g) e in
            let ne = not_full completed d s lt in
            elim (List-cases (ready_nodes g completed)) [
              | inl empty ↦ absurd (ne empty)
              | inr (x, r, f) ↦
                  let (after, a, b) =
                    collect_plans fuel (completed ++ ready completed d s)
                      (before ++ ready completed d s ∷ []) (ready_apart completed d s)
                      (ready_inside completed d s)
                      (omega (arith, length-append completed (ready completed d s), ap length f)) in
                  (
                    ready completed d s ∷ after,
                    ground (arith, e, f, a, append_assoc before (ready completed d s ∷ []) after),
                    (
                      ne,
                      ready_nodes-IsDistinct g completed w.nodes_distinct,
                      (ready_nodes_exact g completed).1,
                      b,
                    ),
                  )
            ]
      ]

abbrev pub PlanVerdict : Dag → Plan → Type 0
PlanVerdict g (planned ws) = IsPlan g [] ws
PlanVerdict g refused = (stuck : List String) × IsStuck g stuck
PlanVerdict g unfinished = ⊥

-- On a graph that is built by AddNode and AddEdge, Waves returns waves that are never empty, that
-- name no node twice, that hold exactly the nodes which are ready and in no earlier wave when the
-- wave begins, and that together complete every node; or it refuses, and then a set of nodes exists in which each depends on one of the set.
pub waves-PlanVerdict : (g : Dag) → IsWellFormed g → PlanVerdict g (waves g)
unfolding waves
waves-PlanVerdict g w = judge (topological_sort g) (topological_sort-Verdict g w)
  where
    judge :
        (o : Outcome)
        → Verdict g o
        → PlanVerdict g (elim o [
          | sorted _ ↦ collect g (node_count g) [] []
          | cycle_detected _ _ ↦ refused
          | out_of_fuel ↦ unfinished
        ])
    judge (sorted order) t =
        let (after, e, p) =
          collect_plans g w order t (node_count g) [] [] tt (λ x h. cc) (omega arith) in
        rw e p
    judge (cycle_detected a b) t = t.2
    judge out_of_fuel t = t
