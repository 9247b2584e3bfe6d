-- ===== src/Engine/SplitTests.antt =====
-- Splits on small children, and the theorems on them.
use vortex_dispatch.Engine.Apply.{
  add_children, add_dependents, add_edges, add_pairs, apply_split, ids_of,
}
use vortex_dispatch.Engine.Apply.Edges.{apply_split_exact, depends}
use vortex_dispatch.Engine.Split.{
  SplitChild, check_children, check_edges, check_files, check_owners, check_suffixes, ok,
  ordered_by_edges, overlapping_file, reaches, refused, scan, search, unknown_suffix,
  validate_split_with_edges,
}
use vortex_dispatch.Engine.Split.Complete.{validate_split_with_edges_accepts}
use vortex_dispatch.Engine.Split.Result.{
  IsValidSplit, chain, direct, validate_split_with_edges-Verdict,
}
use vortex_dispatch.Engine.Split.Valid.{Verdict, is_edge}
use vortex_dispatch.Graph.{Dag, add_edge, add_node}
use vortex_dispatch.Prelude.{
  Bool, List, String, [], arith, assign, has, inl, not, refl, str_eq, true, ◌&&◌, ◌||◌, ◌∷◌, ◌≡◌,
}

abbrev child : String → List String → SplitChild
child suffix files = record {
  id = suffix;
  suffix = suffix;
  title = "";
  description = "";
  acceptance_criteria = "";
  complexity = 2;
  owned_files = files;
}

-- All three own "x.go".
abbrev children : List SplitChild
children = child "a" ("x.go" ∷ []) ∷ child "b" ("x.go" ∷ []) ∷ child "c" ("y.go" ∷ "x.go" ∷ []) ∷ []

abbrev is_named : String → Bool
is_named suffix = not (str_eq suffix "")

split_program : Unit {0}
unfolding validate_split_with_edges check_suffixes check_edges check_children check_files
    check_owners ordered_by_edges reaches search scan assign
split_program = tt

-- "c" after "b" after "a".
chained_split :
    validate_split_with_edges is_named 0 children 3 (("c" ∷ "b" ∷ []) ∷ ("b" ∷ "a" ∷ []) ∷ [])
    ≡ ok tt
unfolding split_program
chained_split = refl

parallel_split :
    validate_split_with_edges is_named 0 children 3 (("c" ∷ "b" ∷ []) ∷ [])
    ≡ refused (overlapping_file "x.go")
unfolding split_program
parallel_split = refl

dangling_split :
    validate_split_with_edges is_named 0 children 3 (("c" ∷ "d" ∷ []) ∷ [])
    ≡ refused (unknown_suffix ("c" ∷ "d" ∷ []))
unfolding split_program
dangling_split = refl

validate_split_with_edges-Verdict_example :
    Verdict
      (λ u. IsValidSplit is_named 0 children 3 (("c" ∷ "b" ∷ []) ∷ ("b" ∷ "a" ∷ []) ∷ []))
      (validate_split_with_edges is_named 0 children 3 (("c" ∷ "b" ∷ []) ∷ ("b" ∷ "a" ∷ []) ∷ []))
validate_split_with_edges-Verdict_example =
    validate_split_with_edges-Verdict is_named 0 children 3
      (("c" ∷ "b" ∷ []) ∷ ("b" ∷ "a" ∷ []) ∷ [])

abbrev chained : List (List String)
chained = ("c" ∷ "b" ∷ []) ∷ ("b" ∷ "a" ∷ []) ∷ []

chained-IsValidSplit : IsValidSplit is_named 0 children 3 chained
chained-IsValidSplit = record {
  shallow = omega arith;
  safe = (refl, (refl, (refl, tt)));
  distinct = ((refl, (refl, tt)), ((refl, tt), (tt, tt)));
  known = (("c", "b", refl, refl, refl), (("b", "a", refl, refl, refl), tt));
  conflict_free = (
    (
      (λ f its other_its. inl (direct refl)),
      ((λ f its other_its. inl (chain {b = "b"} refl (direct refl))), tt),
    ),
    (((λ f its other_its. inl (direct refl)), tt), (tt, tt)),
  );
  simple = (omega arith, (omega arith, (omega arith, tt)));
}

validate_split_with_edges_accepts_example :
    validate_split_with_edges is_named 0 children 3 chained ≡ ok tt
validate_split_with_edges_accepts_example =
    validate_split_with_edges_accepts is_named 0 children 3 chained chained-IsValidSplit

abbrev dag : Dag
dag = record { nodes = "d" ∷ []; edges = ("d", "p" ∷ []) ∷ [] }

apply_program : Unit {0}
unfolding add_edges add_children add_pairs add_dependents apply_split add_edge add_node assign
apply_program = tt

-- "d" depended on the parent "p", which depended on "o".
apply_split_exact_example :
    depends (apply_split dag [] children (("b" ∷ "a" ∷ []) ∷ []) ("o" ∷ []) ("d" ∷ [])).0 "d" "a"
    ≡ (depends dag "d" "a"
        || (has "d" (ids_of children) && has "a" ("o" ∷ []))
        || is_edge (("b" ∷ "a" ∷ []) ∷ []) "d" "a"
        || (has "d" ("d" ∷ []) && has "a" (ids_of children)))
apply_split_exact_example =
    apply_split_exact dag [] children (("b" ∷ "a" ∷ []) ∷ []) ("o" ∷ []) ("d" ∷ []) "d" "a"

dependent_waits :
    depends (apply_split dag [] children (("b" ∷ "a" ∷ []) ∷ []) ("o" ∷ []) ("d" ∷ [])).0 "d" "a"
    ≡ true
unfolding apply_program
dependent_waits = refl
