-- ===== src/Graph/Topo/Result.antt =====
-- What TopologicalSort returns: an order of all nodes, or the evidence of a cycle.
use vortex_dispatch.Graph.{Dag, dependencies_of, empty, node_count}
use vortex_dispatch.Graph.Ready.{IsWellFormed}
use vortex_dispatch.Graph.Topo.{
  Kahn, Outcome, check_count, cycle_detected, degrees, loop, out_of_fuel, process, sorted, start,
  topological_sort,
}
use vortex_dispatch.Graph.Topo.Init.{degree-degrees, seeds-IsDistinct, seeds_complete, seeds_sound}
use vortex_dispatch.Graph.Topo.Round.{
  DepsBefore, Inv, entered, process-Inv, process-order, unplaced, unplaced_none, unplaced_pos,
}
use vortex_dispatch.Prelude.{
  ==_iff, Bool-cases, IsDistinct, IsSubset, List, List-cases, String, [], ap, append-nil, arith,
  false, has, has-select, has_head, inl, inr, length, length-append, length-le_of_subset, not, refl,
  select, select-has, str_eq, str_eq_iff, subset_of_length, suc, true, zero, ℕ, ◌+◌, ◌<◌, ◌==◌, ◌∙◌,
  ◌∷◌, ◌≡◌, ◌≢◌, ◌≤◌,
}

-- All nodes, each once, and every one behind its dependencies.
pub record IsTopological (g : Dag) (order : List String) : Type 0 where
  pub distinct : IsDistinct order
  pub only_nodes : IsSubset order g.nodes
  pub all_nodes : IsSubset g.nodes order
  pub behind : DepsBefore g [] order

-- A set of nodes, each of which depends on one of the set: none of them can be first.
pub record IsStuck (g : Dag) (stuck : List String) : Type 0 where
  pub some_node : stuck ≢ []
  pub waits :
      (n : String)
      → has n stuck ≡ true
      → (has n g.nodes ≡ true)
        × ((d : String) × (has d (dependencies_of g n) ≡ true) × (has d stuck ≡ true))

abbrev pub Verdict : Dag → Outcome → Type 0
Verdict g (sorted order) = IsTopological g order
Verdict g (cycle_detected processed total) =
    (processed < total) × (total ≡ node_count g) × ((stuck : List String) × IsStuck g stuck)
Verdict g out_of_fuel = ⊥

module _ (g : Dag) (w : IsWellFormed g) where
  start-Inv : Inv g [] (start (degrees g))
  unfolding start
  start-Inv = record {
    degree_exact = λ n. omega (arith, degree-degrees g w n, unplaced_none (dependencies_of g n));
    entered_distinct = seeds-IsDistinct g w;
    entered_free = λ n h. (seeds_sound g w n h).1;
    free_entered = λ n h e. seeds_complete g w n h e;
    entered_nodes = λ n h. (seeds_sound g w n h).0;
    left_nodes = λ n h. cc;
    deps_before = tt;
  }

  -- The loop ends by its test, with the invariant.
  loop_ends :
      (fuel : ℕ) (s : Kahn)
      → Inv g [] s
      → node_count g ≤ length s.order + fuel
      → (t : Kahn) × (t.queue ≡ [])
        × Inv g [] t
        × (loop g (degrees g).dependents fuel s ≡ check_count g t.order)
  unfolding loop
  loop_ends zero s i h =
      let full = length-le_of_subset (entered s) g.nodes i.entered_distinct i.entered_nodes in
      elim (List-cases s.queue) [
        | inl e ↦ (s, e, i, rw e)
        | inr (x, rest, e) ↦
            absurd (omega (arith, full, length-append s.order s.queue, ap length e))
      ]
  loop_ends (suc fuel) s i h = elim (List-cases s.queue) [
    | inl e ↦ (s, e, i, rw e)
    | inr (x, rest, e) ↦
        let next_state = process (degrees g).dependents x rest s in
        let grown = ap length (process-order g w x rest s e i) ∙ length-append s.order (x ∷ []) in
        let (t, a, b, c) =
          loop_ends fuel next_state (process-Inv g w x rest s e i) (omega (arith, grown)) in
        (t, a, b, rw (e, loop) c)
  ]

  -- The nodes that were never placed.
  abbrev left_over : List String → List String
  left_over order = select (λ n. not (has n order)) g.nodes

  module _ (t : Kahn) (done : t.queue ≡ []) (i : Inv g [] t) where
    all_entered : entered t ≡ t.order
    all_entered = rw done (append-nil t.order)

    order-IsDistinct : IsDistinct t.order
    order-IsDistinct = rw all_entered at i.entered_distinct

    order_nodes : IsSubset t.order g.nodes
    order_nodes n h = i.entered_nodes n (rw all_entered h)

    complete-IsTopological : length t.order ≡ node_count g → IsTopological g t.order
    complete-IsTopological e = record {
      distinct = order-IsDistinct;
      only_nodes = order_nodes;
      all_nodes = subset_of_length t.order g.nodes order-IsDistinct order_nodes (omega arith);
      behind = i.deps_before;
    }

    waiting :
        (n : String)
        → has n g.nodes ≡ true
        → not (has n t.order) ≡ true
        → 0 < unplaced t.order (dependencies_of g n)
    waiting n a b = ground (arith, i.degree_exact n, i.free_entered n a, ap (has n) all_entered)

    left_over_waits :
        (n : String)
        → has n (left_over t.order) ≡ true
        → (has n g.nodes ≡ true)
          × ((d : String) × (has d (dependencies_of g n) ≡ true)
              × (has d (left_over t.order) ≡ true))
    left_over_waits n h =
        let (a, b) = has-select (λ x. not (has x t.order)) n g.nodes h in
        let (d, deps, out) = unplaced_pos t.order (dependencies_of g n) (waiting n a b) in
        (
          a,
          (d, deps, select-has (λ x. not (has x t.order)) d g.nodes (w.targets n d deps) (rw out)),
        )

    none_left : left_over t.order ≡ [] → IsSubset g.nodes t.order
    none_left empty n h = elim (Bool-cases (has n t.order)) [
      | inl e ↦ e
      | inr e ↦
          let found = select-has (λ x. not (has x t.order)) n g.nodes h (rw e) in
          let none_there : has n (left_over t.order) ≡ false = rw empty in cc
    ]

    incomplete-IsStuck :
        length t.order ≢ node_count g
        → (length t.order < node_count g) × IsStuck g (left_over t.order)
    incomplete-IsStuck e = (
      omega (arith, length-le_of_subset t.order g.nodes order-IsDistinct order_nodes),
      record {
        some_node = λ empty. e (
            omega (
              arith,
              length-le_of_subset t.order g.nodes order-IsDistinct order_nodes,
              length-le_of_subset g.nodes t.order w.nodes_distinct (none_left empty),
            ));
        waits = left_over_waits;
      },
    )

  -- On a graph that is built by AddNode and AddEdge, TopologicalSort ends within as many rounds as
  -- there are nodes. It returns either all nodes, each once and behind its dependencies, or, after
  -- fewer nodes than there are, the cycle error; then a set of nodes exists in which each depends
  -- on another of the set.
  pub topological_sort-Verdict : Verdict g (topological_sort g)
  unfolding topological_sort
  topological_sort-Verdict =
      let (t, done, i, e) = loop_ends (node_count g) (start (degrees g)) start-Inv (omega arith) in
      rw e (judge t done i)
    where
      judge : (t : Kahn) → t.queue ≡ [] → Inv g [] t → Verdict g (check_count g t.order)
      judge t done i = elim (Bool-cases (length t.order == node_count g)) [
        | inl same ↦ rw same (complete-IsTopological t done i ((==_iff _ _).0 same))
        | inr other ↦
            let (a, b) = incomplete-IsStuck t done i (λ e. ground (arith, other, e)) in
            rw other (a, refl, (left_over t.order, b))
      ]

-- A topological order meets no stuck set.
no_stuck :
    (g : Dag) (stuck : List String) (s : IsStuck g stuck) (order seen : List String)
    → DepsBefore g seen order
    → ((n : String) → has n stuck ≡ true → has n seen ≡ false)
    → (n : String) → has n stuck ≡ true
    → has n order ≡ false
no_stuck g stuck s [] seen b apart n h = refl
no_stuck g stuck s (x ∷ xs) seen b apart n h =
    ground (arith, free x, str_eq_iff n x, h, no_stuck g stuck s xs (x ∷ seen) b.1 longer n h)
  where
    free : (y : String) → has y stuck ≡ true → IsSubset (dependencies_of g y) seen → ⊥
    free y m sub = let (d, a, c) = (s.waits y m).1 in ground (arith, sub d a, apart d c)

    longer : (m : String) → has m stuck ≡ true → has m (x ∷ seen) ≡ false
    longer m k = elim (Bool-cases (str_eq m x)) [
      | inl e ↦ absurd (free m k (rw ((str_eq_iff m x).0 e) b.0))
      | inr e ↦ rw e (apart m k)
    ]

-- A graph in which some set of nodes wait for one another is always refused: TopologicalSort
-- returns the cycle error with the number of its nodes.
pub topological_sort-cycle :
    (g : Dag) (stuck : List String)
    → IsWellFormed g
    → IsStuck g stuck
    → (processed : ℕ) × (topological_sort g ≡ cycle_detected processed (node_count g))
topological_sort-cycle g stuck w s =
    decide_outcome (topological_sort g) refl (topological_sort-Verdict g w)
  where
    unsorted : (order : List String) → IsTopological g order → stuck ≢ [] → ⊥
    unsorted order t ne = elim (List-cases stuck) [
      | inl e ↦ ne e
      | inr (x, rest, e) ↦
          let m : has x stuck ≡ true = rw e (has_head x rest) in
          let out = no_stuck g stuck s order [] t.behind (λ n h. refl) x m in
          let there = t.all_nodes x (s.waits x m).0 in cc
    ]

    decide_outcome :
        (o : Outcome)
        → topological_sort g ≡ o
        → Verdict g o
        → (processed : ℕ) × (topological_sort g ≡ cycle_detected processed (node_count g))
    decide_outcome (sorted order) e v = absurd (unsorted order v s.some_node)
    decide_outcome (cycle_detected processed total) e v = (processed, cc (e, v.1))
    decide_outcome out_of_fuel e v = absurd v
