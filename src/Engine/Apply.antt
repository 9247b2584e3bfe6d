-- ===== src/Engine/Apply.antt =====
-- ApplySplit (internal/engine/escalation.go): the children of a split enter the graph and the
-- planned stories of the run, the only part of the run context that it changes.
pub mod Edges
use vortex_dispatch.Engine.Dispatch.{PlannedStory}
use vortex_dispatch.Engine.Split.{SplitChild}
use vortex_dispatch.Graph.{Dag, add_edge, add_node}
use vortex_dispatch.Prelude.{List, String, [], ◌++◌, ◌∷◌}

unfoldable pub add_edges : String → List String → Dag → Dag
add_edges from [] g = g
add_edges from (to ∷ tos) g = add_edges from tos (add_edge from to g)

abbrev pub planned_child : SplitChild → PlannedStory
planned_child c = record {
  id = c.id;
  title = c.title;
  description = c.description;
  acceptance_criteria = c.acceptance_criteria;
  complexity = c.complexity;
  depends_on = [];
  owned_files = c.owned_files;
  wave_hint = "";
}

-- The loop over the children.
unfoldable pub add_children :
    List String → List SplitChild → Dag → List PlannedStory → Dag × List PlannedStory
add_children parent_deps [] g stories = (g, stories)
add_children parent_deps (c ∷ cs) g stories =
    add_children parent_deps cs (add_edges c.id parent_deps (add_node c.id g))
      (stories ++ planned_child c ∷ [])

-- The loop over the edges between the children; one that is no pair is skipped.
unfoldable pub add_pairs : List (List String) → Dag → Dag
add_pairs [] g = g
add_pairs ((a ∷ b ∷ []) ∷ edges) g = add_pairs edges (add_edge a b g)
add_pairs (e ∷ edges) g = add_pairs edges g

abbrev pub ids_of : List SplitChild → List String
ids_of [] = []
ids_of (c ∷ cs) = c.id ∷ ids_of cs

-- The loops over the stories that depended on the parent, and over the children.
unfoldable pub add_dependents : List String → List SplitChild → Dag → Dag
add_dependents [] children g = g
add_dependents (d ∷ dependents) children g =
    add_dependents dependents children (add_edges d (ids_of children) g)

unfoldable pub apply_split :
    Dag
    → List PlannedStory
    → List SplitChild
    → List (List String)
    → List String
    → List String
    → Dag × List PlannedStory
apply_split g stories children dep_edges parent_deps dependents =
    let with_children = add_children parent_deps children g stories in
    (add_dependents dependents children (add_pairs dep_edges with_children.0), with_children.1)
