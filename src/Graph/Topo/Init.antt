-- ===== src/Graph/Topo/Init.antt =====
-- What the maps hold when the loop of TopologicalSort begins.
use vortex_dispatch.Graph.{Dag, dependencies_of}
use vortex_dispatch.Graph.Ready.{IsWellFormed}
use vortex_dispatch.Graph.Topo.{Degrees, degrees, link, link_all, link_one, seeds, zero_degrees}
use vortex_dispatch.Prelude.{
  ==_iff, Dict, IsDistinct, IsDistinct-keys-assign, IsDistinct-select, IsDistinct-sort, List,
  String, [], arith, assign, count, has, has-keys-assign, has-select, has-sort, if◌then◌else◌, inl,
  keys, length, refl, select-has, str_eq, str_eq_iff, true, value, value-assign, value-missing, ℕ,
  ◌++◌, ◌+◌, ◌==◌, ◌∷◌, ◌≡◌, ◌⊎◌,
}

abbrev pub degree_of : Degrees → String → ℕ
degree_of t n = value 0 t.in_degree n

abbrev pub dependents_of : Degrees → String → List String
dependents_of t n = value [] t.dependents n

count-append : (x : String) (xs ys : List String) → count x (xs ++ ys) ≡ count x xs + count x ys
count-append x [] ys = omega arith
count-append x (y ∷ xs) ys = omega (arith, count-append x xs ys)

value-zero_degrees :
    (nodes : List String) (m : Dict ℕ) (n : String)
    → value 0 m n ≡ 0
    → value 0 (zero_degrees nodes m) n ≡ 0
unfolding zero_degrees
value-zero_degrees [] m n h = h
value-zero_degrees (x ∷ xs) m n h =
    value-zero_degrees xs (assign x 0 m) n (ground (arith, h, value-assign 0 x n 0 m))

keys-zero_degrees :
    (nodes : List String) (m : Dict ℕ) (n : String)
    → has n (keys (zero_degrees nodes m)) ≡ (if has n nodes then true else has n (keys m))
unfolding zero_degrees
keys-zero_degrees [] m n = refl
keys-zero_degrees (x ∷ xs) m n =
    ground (arith, keys-zero_degrees xs (assign x 0 m) n, has-keys-assign x n 0 m)

IsDistinct-zero_degrees :
    (nodes : List String) (m : Dict ℕ)
    → IsDistinct (keys m)
    → IsDistinct (keys (zero_degrees nodes m))
unfolding zero_degrees
IsDistinct-zero_degrees [] m h = h
IsDistinct-zero_degrees (x ∷ xs) m h =
    IsDistinct-zero_degrees xs (assign x 0 m) (IsDistinct-keys-assign x 0 m h)

degree-link_one :
    (node dep : String) (t : Degrees) (n : String)
    → degree_of (link_one node dep t) n ≡ degree_of t n + (if str_eq node n then 1 else 0)
unfolding link_one
degree-link_one node dep t n =
    ground
      (arith, value-assign 0 node n (value 0 t.in_degree node + 1) t.in_degree, str_eq_iff node n)

dependents-link_one :
    (node dep : String) (t : Degrees) (n d : String)
    → count n (dependents_of (link_one node dep t) d)
      ≡ count n (dependents_of t d) + (if str_eq node n then count d (dep ∷ []) else 0)
unfolding link_one
dependents-link_one node dep t n d = ground (
  arith,
  value-assign [] dep d (value [] t.dependents dep ++ node ∷ []) t.dependents,
  count-append n (value [] t.dependents dep) (node ∷ []),
  str_eq_iff node n,
  str_eq_iff n node,
  str_eq_iff dep d,
  str_eq_iff d dep,
)

keys-link_one :
    (node dep : String) (t : Degrees) (n : String)
    → has n (keys (link_one node dep t).in_degree)
      ≡ (if str_eq n node then true else has n (keys t.in_degree))
unfolding link_one
keys-link_one node dep t n = has-keys-assign node n (value 0 t.in_degree node + 1) t.in_degree

IsDistinct-link_one :
    (node dep : String) (t : Degrees)
    → IsDistinct (keys t.in_degree)
    → IsDistinct (keys (link_one node dep t).in_degree)
unfolding link_one
IsDistinct-link_one node dep t h = IsDistinct-keys-assign node _ t.in_degree h

degree-link :
    (node : String) (deps : List String) (t : Degrees) (n : String)
    → degree_of (link node deps t) n ≡ degree_of t n + (if str_eq node n then length deps else 0)
unfolding link
degree-link node [] t n = ground arith
degree-link node (d ∷ ds) t n =
    ground (arith, degree-link node ds (link_one node d t) n, degree-link_one node d t n)

dependents-link :
    (node : String) (deps : List String) (t : Degrees) (n d : String)
    → count n (dependents_of (link node deps t) d)
      ≡ count n (dependents_of t d) + (if str_eq node n then count d deps else 0)
unfolding link
dependents-link node [] t n d = ground arith
dependents-link node (e ∷ es) t n d =
    ground
      (arith, dependents-link node es (link_one node e t) n d, dependents-link_one node e t n d)

keys-link :
    (node : String) (deps : List String) (t : Degrees) (n : String)
    → has n (keys (link node deps t).in_degree) ≡ true
    → (has n (keys t.in_degree) ≡ true) ⊎ (n ≡ node)
unfolding link
keys-link node [] t n h = inl h
keys-link node (d ∷ ds) t n h =
    ground (
      arith,
      keys-link node ds (link_one node d t) n h,
      keys-link_one node d t n,
      str_eq_iff n node,
    )

keys-link_kept :
    (node : String) (deps : List String) (t : Degrees) (n : String)
    → has n (keys t.in_degree) ≡ true
    → has n (keys (link node deps t).in_degree) ≡ true
unfolding link
keys-link_kept node [] t n h = h
keys-link_kept node (d ∷ ds) t n h =
    keys-link_kept node ds (link_one node d t) n (ground (arith, keys-link_one node d t n))

IsDistinct-link :
    (node : String) (deps : List String) (t : Degrees)
    → IsDistinct (keys t.in_degree)
    → IsDistinct (keys (link node deps t).in_degree)
unfolding link
IsDistinct-link node [] t h = h
IsDistinct-link node (d ∷ ds) t h =
    IsDistinct-link node ds (link_one node d t) (IsDistinct-link_one node d t h)

-- After all edges the degree of a node is the number of its dependencies.
degree-link_all :
    (edges : Dict (List String)) (t : Degrees) (n : String)
    → IsDistinct (keys edges)
    → degree_of (link_all edges t) n ≡ degree_of t n + length (value [] edges n)
unfolding link_all
degree-link_all [] t n h = omega arith
degree-link_all ((m, ds) ∷ edges) t n h = ground (
  arith,
  degree-link_all edges (link m ds t) n h.1,
  degree-link m ds t n,
  str_eq_iff m n,
  value-missing [] m edges h.0,
)

-- And a node stands among the dependents of `d` as often as `d` among its dependencies.
dependents-link_all :
    (edges : Dict (List String)) (t : Degrees) (n d : String)
    → IsDistinct (keys edges)
    → count n (dependents_of (link_all edges t) d)
      ≡ count n (dependents_of t d) + count d (value [] edges n)
unfolding link_all
dependents-link_all [] t n d h = omega arith
dependents-link_all ((m, ds) ∷ edges) t n d h = ground (
  arith,
  dependents-link_all edges (link m ds t) n d h.1,
  dependents-link m ds t n d,
  str_eq_iff m n,
  value-missing [] m edges h.0,
)

keys-link_all :
    (edges : Dict (List String)) (t : Degrees) (n : String)
    → has n (keys (link_all edges t).in_degree) ≡ true
    → (has n (keys t.in_degree) ≡ true) ⊎ (has n (keys edges) ≡ true)
unfolding link_all
keys-link_all [] t n h = inl h
keys-link_all ((m, ds) ∷ edges) t n h =
    ground (arith, keys-link_all edges (link m ds t) n h, keys-link m ds t n, str_eq_iff n m)

keys-link_all_kept :
    (edges : Dict (List String)) (t : Degrees) (n : String)
    → has n (keys t.in_degree) ≡ true
    → has n (keys (link_all edges t).in_degree) ≡ true
unfolding link_all
keys-link_all_kept [] t n h = h
keys-link_all_kept ((m, ds) ∷ edges) t n h =
    keys-link_all_kept edges (link m ds t) n (keys-link_kept m ds t n h)

IsDistinct-link_all :
    (edges : Dict (List String)) (t : Degrees)
    → IsDistinct (keys t.in_degree)
    → IsDistinct (keys (link_all edges t).in_degree)
unfolding link_all
IsDistinct-link_all [] t h = h
IsDistinct-link_all ((m, ds) ∷ edges) t h =
    IsDistinct-link_all edges (link m ds t) (IsDistinct-link m ds t h)

module _ (g : Dag) (w : IsWellFormed g) where
  abbrev zeroed : Degrees
  zeroed = record { in_degree = zero_degrees g.nodes []; dependents = [] }

  pub degree-degrees : (n : String) → degree_of (degrees g) n ≡ length (dependencies_of g n)
  unfolding degrees
  degree-degrees n = omega (
    arith,
    degree-link_all g.edges zeroed n w.keys_distinct,
    value-zero_degrees g.nodes [] n refl,
  )

  pub dependents-degrees :
      (n d : String) → count n (dependents_of (degrees g) d) ≡ count d (dependencies_of g n)
  unfolding degrees
  dependents-degrees n d = omega (arith, dependents-link_all g.edges zeroed n d w.keys_distinct)

  keys-degrees : (n : String) → has n (keys (degrees g).in_degree) ≡ true → has n g.nodes ≡ true
  unfolding degrees
  keys-degrees n h =
      ground (arith, keys-link_all g.edges zeroed n h, keys-zero_degrees g.nodes [] n, w.sources n)

  keys-degrees_kept :
      (n : String) → has n g.nodes ≡ true → has n (keys (degrees g).in_degree) ≡ true
  unfolding degrees
  keys-degrees_kept n h =
      keys-link_all_kept g.edges zeroed n (ground (arith, keys-zero_degrees g.nodes [] n))

  -- The queue begins with the nodes of degree 0.
  pub seeds_sound :
      (n : String)
      → has n (seeds (degrees g).in_degree) ≡ true
      → (has n g.nodes ≡ true) × (degree_of (degrees g) n ≡ 0)
  unfolding seeds
  seeds_sound n h =
      let (a, b) =
        has-select (λ x. value 0 (degrees g).in_degree x == 0) n (keys (degrees g).in_degree)
          (rw has-sort at h) in
      (keys-degrees n a, (==_iff _ _).0 b)

  pub seeds_complete :
      (n : String)
      → has n g.nodes ≡ true
      → degree_of (degrees g) n ≡ 0
      → has n (seeds (degrees g).in_degree) ≡ true
  unfolding seeds
  seeds_complete n h e = rw has-sort (
      select-has (λ x. value 0 (degrees g).in_degree x == 0) n (keys (degrees g).in_degree)
        (keys-degrees_kept n h) ((==_iff _ _).1 e))

  pub seeds-IsDistinct : IsDistinct (seeds (degrees g).in_degree)
  unfolding seeds degrees
  seeds-IsDistinct = IsDistinct-sort _ (
      IsDistinct-select _ _
        (IsDistinct-link_all g.edges zeroed (IsDistinct-zero_degrees g.nodes [] tt)))
