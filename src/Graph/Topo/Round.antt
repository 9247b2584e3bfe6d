-- ===== src/Graph/Topo/Round.antt =====
-- The invariant of the loop of TopologicalSort, and that a round keeps it.
use vortex_dispatch.Graph.{Dag, dependencies_of}
use vortex_dispatch.Graph.Ready.{IsWellFormed}
use vortex_dispatch.Graph.Topo.{Kahn, degrees, process, relax, relax_all}
use vortex_dispatch.Graph.Topo.Init.{dependents-degrees, dependents_of}
use vortex_dispatch.Prelude.{
  Bool-cases, IsDistinct, IsDistinct-append, IsSubset, List, String, [], ap, append_assoc, arith,
  count, count-sort, false, has, has-append, has-count-pos, has_head, if◌then◌else◌, inl, inr, keys,
  length, pred, refl, sort, str_eq, str_eq_refl, str_eq_iff, true, value, value-assign,
  value-missing, ℕ, ◌&&◌, ◌++◌, ◌+◌, ◌<◌, ◌==◌, ◌||◌, ◌∙◌, ◌∷◌, ◌≡◌,
}

-- How many of the dependencies are not in the list `placed`.
abbrev pub unplaced : List String → List String → ℕ
unplaced placed [] = 0
unplaced placed (d ∷ ds) = (if has d placed then 0 else 1) + unplaced placed ds

unplaced-append :
    (placed : List String) (x : String) (ds : List String)
    → has x placed ≡ false
    → unplaced (placed ++ x ∷ []) ds + count x ds ≡ unplaced placed ds
unplaced-append placed x [] h = omega arith
unplaced-append placed x (d ∷ ds) h = ground (
  arith,
  h,
  has-append d placed (x ∷ []),
  str_eq_iff x d,
  str_eq_iff d x,
  unplaced-append placed x ds h,
)

pub unplaced_zero : (placed ds : List String) → unplaced placed ds ≡ 0 → IsSubset ds placed
unplaced_zero placed [] h x k = cc
unplaced_zero placed (d ∷ ds) h x k =
    ground (arith, unplaced_zero placed ds (ground arith) x, str_eq_iff x d)

pub unplaced_pos :
    (placed ds : List String)
    → 0 < unplaced placed ds
    → (d : String) × (has d ds ≡ true) × (has d placed ≡ false)
unplaced_pos placed [] h = absurd (omega arith)
unplaced_pos placed (d ∷ ds) h = elim (Bool-cases (has d placed)) [
  | inl e ↦ let (x, a, b) = unplaced_pos placed ds (ground (arith, e)) in (x, ground arith, b)
  | inr e ↦ (d, has_head d ds, e)
]

pub unplaced_none : (ds : List String) → unplaced [] ds ≡ length ds
unplaced_none [] = refl
unplaced_none (d ∷ ds) = omega (arith, unplaced_none ds)

-- Every node of the list has its dependencies in `seen` or before it.
abbrev pub DepsBefore : Dag → List String → List String → Type 0
DepsBefore g seen [] = Unit
DepsBefore g seen (x ∷ xs) = IsSubset (dependencies_of g x) seen × DepsBefore g (x ∷ seen) xs

pub DepsBefore-append :
    (g : Dag) (seen xs : List String) (x : String)
    → DepsBefore g seen xs
    → ((d : String) → has d (dependencies_of g x) ≡ true → (has d seen || has d xs) ≡ true)
    → DepsBefore g seen (xs ++ x ∷ [])
DepsBefore-append g seen [] x h k = (λ d m. ground (arith, k d m), tt)
DepsBefore-append g seen (y ∷ ys) x h k =
    (h.0, DepsBefore-append g (y ∷ seen) ys x h.1 λ d m. ground (arith, k d m))

-- The nodes that have entered the queue.
abbrev pub entered : Kahn → List String
entered s = s.order ++ s.queue

-- Between two steps of the inner loop: `left` are the dependents of the last node of `order`
-- whose degree is still to be lowered.
pub record Inv (g : Dag) (left : List String) (s : Kahn) : Type 0 where
  pub degree_exact :
      (n : String) → value 0 s.in_degree n ≡ unplaced s.order (dependencies_of g n) + count n left
  pub entered_distinct : IsDistinct (entered s)
  pub entered_free : (n : String) → has n (entered s) ≡ true → value 0 s.in_degree n ≡ 0
  pub free_entered :
      (n : String) → has n g.nodes ≡ true → value 0 s.in_degree n ≡ 0 → has n (entered s) ≡ true
  pub entered_nodes : IsSubset (entered s) g.nodes
  pub left_nodes : IsSubset left g.nodes
  pub deps_before : DepsBefore g [] s.order

IsDistinct-apart :
    (xs : List String) (x : String) (ys : List String)
    → IsDistinct (xs ++ x ∷ ys)
    → has x xs ≡ false
IsDistinct-apart [] x ys d = refl
IsDistinct-apart (z ∷ zs) x ys d = ground (
  arith,
  IsDistinct-apart zs x ys d.1,
  d.0,
  has-append z zs (x ∷ ys),
  str_eq_iff x z,
  str_eq_iff z x,
)

has-entered_append :
    (n x : String) (order queue : List String)
    → has n (order ++ (queue ++ x ∷ [])) ≡ (has n (order ++ queue) || str_eq n x)
has-entered_append n x order queue = ground (
  arith,
  has-append n order (queue ++ x ∷ []),
  has-append n order queue,
  has-append n queue (x ∷ []),
)

module _ (g : Dag) (d : String) (ds : List String) (s : Kahn) (i : Inv g (d ∷ ds) s) where
  relax_degree :
      (n : String)
      → value 0 (relax d s).in_degree n
        ≡ (if str_eq d n then pred (value 0 s.in_degree n) else value 0 s.in_degree n)
  unfolding relax
  relax_degree n =
      ground (arith, value-assign 0 d n (pred (value 0 s.in_degree d)) s.in_degree, str_eq_iff d n)

  busy : 0 < value 0 s.in_degree d
  busy = ground (arith, i.degree_exact d, str_eq_refl d)

  fresh_dependent : has d (entered s) ≡ false
  fresh_dependent = elim (Bool-cases (has d (entered s))) [
    | inl e ↦ absurd (omega (arith, busy, i.entered_free d e))
    | inr e ↦ e
  ]

  entered-relax :
      (n : String)
      → has n (entered (relax d s))
        ≡ (has n (entered s) || (value 0 s.in_degree d == 1 && str_eq n d))
  unfolding relax
  entered-relax n = ground (arith, has-entered_append n d s.order s.queue)

  relax-IsDistinct : IsDistinct (entered (relax d s))
  unfolding relax
  relax-IsDistinct = ground (
    arith,
    i.entered_distinct,
    append_assoc s.order s.queue (d ∷ []),
    IsDistinct-append d (entered s) i.entered_distinct fresh_dependent,
  )

  pub relax-Inv : Inv g ds (relax d s)
  relax-Inv = record {
    degree_exact = λ n.
        ground
          (arith, i.degree_exact n, relax_degree n, str_eq_iff d n, str_eq_iff n d, same_order);
    entered_distinct = relax-IsDistinct;
    entered_free = λ n h. ground (
      arith,
      i.entered_free n,
      entered-relax n,
      relax_degree n,
      str_eq_iff d n,
      str_eq_iff n d,
      h,
    );
    free_entered = λ n h e. ground (
      arith,
      i.free_entered n h,
      entered-relax n,
      relax_degree n,
      str_eq_iff d n,
      str_eq_iff n d,
      busy,
    );
    entered_nodes = λ n h. ground (
      arith,
      i.entered_nodes n,
      entered-relax n,
      i.left_nodes d (has_head d ds),
      str_eq_iff n d,
      h,
    );
    left_nodes = λ n h. i.left_nodes n (ground arith);
    deps_before = rw same_order i.deps_before;
  }
    where
      same_order : (relax d s).order ≡ s.order
      same_order = unfold relax in refl

pub relax_all-Inv : (g : Dag) (ds : List String) (s : Kahn) → Inv g ds s → Inv g [] (relax_all ds s)
unfolding relax_all
relax_all-Inv g [] s i = i
relax_all-Inv g (d ∷ ds) s i = relax_all-Inv g ds (relax d s) (relax-Inv g d ds s i)

pub relax_all-order : (ds : List String) (s : Kahn) → (relax_all ds s).order ≡ s.order
unfolding relax_all relax
relax_all-order [] s = refl
relax_all-order (d ∷ ds) s = relax_all-order ds (relax d s)

-- One round of the outer loop.
module _ (g : Dag) (w : IsWellFormed g) (node : String) (rest : List String) (s : Kahn)
    (q : s.queue ≡ node ∷ rest) (i : Inv g [] s) where
  abbrev popped : Kahn
  popped = record s { queue = rest; order = s.order ++ node ∷ [] }

  same_entered : entered popped ≡ entered s
  same_entered = rw q (append_assoc s.order (node ∷ []) rest)

  node_entered : has node (entered s) ≡ true
  node_entered = ground (arith, q, has-append node s.order s.queue, str_eq_refl node)

  node_placed : IsSubset (dependencies_of g node) s.order
  node_placed =
      unplaced_zero s.order (dependencies_of g node)
        (omega (arith, i.degree_exact node, i.entered_free node node_entered))

  not_placed : has node s.order ≡ false
  not_placed = IsDistinct-apart s.order node rest (rw q at i.entered_distinct)

  abbrev pub next : List String
  next = sort (dependents_of (degrees g) node)

  count-next : (n : String) → count n next ≡ count node (dependencies_of g n)
  count-next n = count-sort n (dependents_of (degrees g) node) ∙ dependents-degrees g w n node

  has_source : (n : String) → has n (keys g.edges) ≡ false → dependencies_of g n ≡ []
  has_source n h = value-missing [] n g.edges h

  next_nodes : IsSubset next g.nodes
  next_nodes n h = elim (Bool-cases (has n (keys g.edges))) [
    | inl e ↦ w.sources n e
    | inr e ↦
        absurd
          (omega (arith, has-count-pos n next h, count-next n, ap (count node) (has_source n e)))
  ]

  popped-Inv : Inv g next popped
  popped-Inv = record {
    degree_exact = λ n. omega (
      arith,
      i.degree_exact n,
      count-next n,
      unplaced-append s.order node (dependencies_of g n) not_placed,
    );
    entered_distinct = rw same_entered i.entered_distinct;
    entered_free = λ n h. i.entered_free n (rw same_entered at h);
    free_entered = λ n h e. rw same_entered (i.free_entered n h e);
    entered_nodes = λ n h. i.entered_nodes n (rw same_entered at h);
    left_nodes = next_nodes;
    deps_before = DepsBefore-append g [] s.order node i.deps_before (λ d m. node_placed d m);
  }

  pub process-Inv : Inv g [] (process (degrees g).dependents node rest s)
  unfolding process
  process-Inv = relax_all-Inv g next popped popped-Inv

  pub process-order : (process (degrees g).dependents node rest s).order ≡ s.order ++ node ∷ []
  unfolding process
  process-order = relax_all-order next popped
