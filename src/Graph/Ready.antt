-- ===== src/Graph/Ready.antt =====
-- What ReadyNodes answers, and the well-formedness of a graph that is built node by node.
use vortex_dispatch.Prelude.{
  String, ◌≡◌, refl, ◌↔◌, true, false, List, [], ◌∷◌, ◌++◌, arith, Bool-cases, inl, inr, has,
  has-append, has-sort, has-select, select-has, IsDistinct, IsDistinct-append, IsDistinct-sort,
  IsDistinct-select, IsSubset, IsSorted, IsSorted-sort, str_eq_iff, keys, value, value-assign,
  has-keys-assign, IsDistinct-keys-assign,
}
use vortex_dispatch.Graph.{
  Dag, empty, add_node, add_edge, dependencies_of, all_complete, is_ready, ready_nodes,
}

-- Both ends of every edge are nodes, and no node or key stands twice.
pub record IsWellFormed (g : Dag) : Type 0 where
  pub nodes_distinct : IsDistinct g.nodes
  pub keys_distinct : IsDistinct (keys g.edges)
  pub sources : IsSubset (keys g.edges) g.nodes
  pub targets : (n : String) → IsSubset (dependencies_of g n) g.nodes

pub empty-IsWellFormed : IsWellFormed empty
unfolding empty
empty-IsWellFormed = record {
  nodes_distinct = tt;
  keys_distinct = tt;
  sources = λ x h. cc;
  targets = λ n x h. cc;
}

pub add_node-IsWellFormed : (id : String) (g : Dag) → IsWellFormed g → IsWellFormed (add_node id g)
unfolding add_node
add_node-IsWellFormed id g w = elim (Bool-cases (has id g.nodes)) [
  | inl e ↦ rw e w
  | inr e ↦ rw e (record {
    nodes_distinct = IsDistinct-append id g.nodes w.nodes_distinct e;
    keys_distinct = w.keys_distinct;
    sources = λ x h. rw (has-append x g.nodes (id ∷ []), w.sources x h) refl;
    targets = λ n x h. rw (has-append x g.nodes (id ∷ []), w.targets n x h) refl;
  })
]

pub add_edge-IsWellFormed :
    (from to : String) (g : Dag)
    → has from g.nodes ≡ true
    → has to g.nodes ≡ true
    → IsWellFormed g
    → IsWellFormed (add_edge from to g)
unfolding add_edge
add_edge-IsWellFormed from to g hf ht w =
    let new = value [] g.edges from ++ to ∷ [] in
    record {
      nodes_distinct = w.nodes_distinct;
      keys_distinct = IsDistinct-keys-assign from new g.edges w.keys_distinct;
      sources = λ x h.
          ground (arith, hf, w.sources x, has-keys-assign from x new g.edges, str_eq_iff x from);
      targets = λ n x h. ground (
        arith,
        w.targets n x,
        w.targets from x,
        value-assign [] from n new g.edges,
        str_eq_iff x to,
        str_eq_iff from n,
        has-append x (value [] g.edges from) (to ∷ []),
      );
    }

pub all_complete_iff :
    (completed deps : List String) → (all_complete completed deps ≡ true) ↔ IsSubset deps completed
all_complete_iff completed [] = (λ h x k. cc, λ h. refl)
all_complete_iff completed (d ∷ ds) = (
  λ h x k. ground (arith, (all_complete_iff completed ds).0 (ground arith) x, str_eq_iff x d),
  λ h. ground (
    arith,
    h d (ground (arith, str_eq_iff d d)),
    (all_complete_iff completed ds).1 (λ x k. h x (ground arith)),
  ),
)

module _ (g : Dag) (completed : List String) where
  pub ready_nodes_sound :
      (node : String)
      → has node (ready_nodes g completed) ≡ true
      → (has node g.nodes ≡ true)
        × (has node completed ≡ false)
        × IsSubset (dependencies_of g node) completed
  unfolding ready_nodes
  ready_nodes_sound node h =
      let (a, b) = has-select (is_ready g completed) node g.nodes (rw has-sort at h) in
      (a, ground arith, (all_complete_iff completed (dependencies_of g node)).0 (ground arith))

  pub ready_nodes_complete :
      (node : String)
      → has node g.nodes ≡ true
      → has node completed ≡ false
      → IsSubset (dependencies_of g node) completed
      → has node (ready_nodes g completed) ≡ true
  unfolding ready_nodes
  ready_nodes_complete node a b c =
      let full = (all_complete_iff completed (dependencies_of g node)).1 c in
      rw has-sort (select-has (is_ready g completed) node g.nodes a (ground arith))

  pub ready_nodes-IsDistinct : IsDistinct g.nodes → IsDistinct (ready_nodes g completed)
  unfolding ready_nodes
  ready_nodes-IsDistinct d = IsDistinct-sort _ (IsDistinct-select (is_ready g completed) g.nodes d)

  -- ReadyNodes returns, in sorted order, exactly the nodes of the graph that are not completed
  -- and whose dependencies all are.
  pub ready_nodes_exact :
      IsSorted (ready_nodes g completed)
      × ((node : String)
          → (has node (ready_nodes g completed) ≡ true) ↔ (
              (has node g.nodes ≡ true)
              × (has node completed ≡ false)
              × IsSubset (dependencies_of g node) completed))
  ready_nodes_exact = (
    unfold ready_nodes in IsSorted-sort _,
    λ node. (ready_nodes_sound node, λ (a, b, c). ready_nodes_complete node a b c),
  )
