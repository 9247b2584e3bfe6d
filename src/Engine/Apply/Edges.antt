-- ===== src/Engine/Apply/Edges.antt =====
-- The edges of the graph after a split, exactly.
use vortex_dispatch.Engine.Apply.{
  add_children, add_dependents, add_edges, add_pairs, apply_split, ids_of, planned_child,
}
use vortex_dispatch.Engine.Dispatch.{PlannedStory}
use vortex_dispatch.Engine.Split.{SplitChild}
use vortex_dispatch.Engine.Split.Valid.{is_edge}
use vortex_dispatch.Graph.{Dag, add_edge, add_node, dependencies_of}
use vortex_dispatch.Prelude.{
  Bool, Bool-cases, List, String, [], arith, has, has-append, inl, inr, str_eq, str_eq_iff, value,
  value-assign, ◌&&◌, ◌++◌, ◌||◌, ◌∷◌, ◌≡◌,
}

-- Does `a` depend on `b`?
abbrev pub depends : Dag → String → String → Bool
depends g a b = has b (dependencies_of g a)

depends-add_edge :
    (g : Dag) (x y a b : String)
    → depends (add_edge x y g) a b ≡ (depends g a b || (str_eq x a && str_eq b y))
unfolding add_edge
depends-add_edge g x y a b = ground (
  arith,
  value-assign [] x a (value [] g.edges x ++ y ∷ []) g.edges,
  has-append b (value [] g.edges x) (y ∷ []),
  str_eq_iff x a,
)

depends-add_node : (g : Dag) (x a b : String) → depends (add_node x g) a b ≡ depends g a b
unfolding add_node
depends-add_node g x a b = elim (Bool-cases (has x g.nodes)) [ inl y ↦ rw y | inr n ↦ rw n ]

depends-add_edges :
    (x : String) (ys : List String) (g : Dag) (a b : String)
    → depends (add_edges x ys g) a b ≡ (depends g a b || (str_eq x a && has b ys))
unfolding add_edges
depends-add_edges x [] g a b = ground arith
depends-add_edges x (y ∷ ys) g a b =
    ground (arith, depends-add_edges x ys (add_edge x y g) a b, depends-add_edge g x y a b)

depends-add_children :
    (deps : List String) (cs : List SplitChild) (g : Dag) (stories : List PlannedStory)
    (a b : String)
    → depends (add_children deps cs g stories).0 a b
      ≡ (depends g a b || (has a (ids_of cs) && has b deps))
unfolding add_children
depends-add_children deps [] g stories a b = ground arith
depends-add_children deps (c ∷ cs) g stories a b = ground (
  arith,
  depends-add_children deps cs (add_edges c.id deps (add_node c.id g))
      (stories ++ planned_child c ∷ []) a b,
  depends-add_edges c.id deps (add_node c.id g) a b,
  depends-add_node g c.id a b,
  str_eq_iff c.id a,
  str_eq_iff a c.id,
)

depends-add_pairs :
    (edges : List (List String)) (g : Dag) (a b : String)
    → depends (add_pairs edges g) a b ≡ (depends g a b || is_edge edges a b)
unfolding add_pairs
depends-add_pairs [] g a b = ground arith
depends-add_pairs ([] ∷ edges) g a b = depends-add_pairs edges g a b
depends-add_pairs ((x ∷ []) ∷ edges) g a b = depends-add_pairs edges g a b
depends-add_pairs ((x ∷ y ∷ z ∷ e) ∷ edges) g a b = depends-add_pairs edges g a b
depends-add_pairs ((x ∷ y ∷ []) ∷ edges) g a b =
    ground (arith, depends-add_pairs edges (add_edge x y g) a b, depends-add_edge g x y a b)

depends-add_dependents :
    (ds : List String) (cs : List SplitChild) (g : Dag) (a b : String)
    → depends (add_dependents ds cs g) a b ≡ (depends g a b || (has a ds && has b (ids_of cs)))
unfolding add_dependents
depends-add_dependents [] cs g a b = ground arith
depends-add_dependents (d ∷ ds) cs g a b = ground (
  arith,
  depends-add_dependents ds cs (add_edges d (ids_of cs) g) a b,
  depends-add_edges d (ids_of cs) g a b,
  str_eq_iff d a,
  str_eq_iff a d,
)

-- After ApplySplit a story depends on what it depended on before, and beyond that exactly: a child
-- on what the parent depended on, a story on another where an edge of the split says so, and the
-- stories that depended on the parent on all children.
pub apply_split_exact :
    (g : Dag) (stories : List PlannedStory) (children : List SplitChild)
    (dep_edges : List (List String)) (parent_deps dependents : List String) (a b : String)
    → depends (apply_split g stories children dep_edges parent_deps dependents).0 a b ≡ (
        depends g a b
        || (has a (ids_of children) && has b parent_deps)
        || is_edge dep_edges a b
        || (has a dependents && has b (ids_of children)))
unfolding apply_split
apply_split_exact g stories children dep_edges parent_deps dependents a b =
    let grown = add_children parent_deps children g stories in
    ground (
      arith,
      depends-add_dependents dependents children (add_pairs dep_edges grown.0) a b,
      depends-add_pairs dep_edges grown.0 a b,
      depends-add_children parent_deps children g stories a b,
    )
