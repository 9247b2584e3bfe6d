-- ===== src/Engine/Split/Result.antt =====
-- The theorem on ValidateSplitWithEdges.
use vortex_dispatch.Engine.Split.{
  SplitChild, check_children, check_edges, check_files, check_suffixes, max_split_depth, refused,
  too_complex, validate_split_with_edges, ◌>>=◌,
}
use vortex_dispatch.Engine.Split.Children.{HasFiles, check_files-Verdict}
use vortex_dispatch.Engine.Split.Owners.{IsOwned, Ordered}
use vortex_dispatch.Engine.Split.Search.{Reach, edge, via}
use vortex_dispatch.Engine.Split.Valid.{
  HasEdges, HasSuffixes, IsDistinctSplit, IsEdge, Verdict, Verdict-bind, Verdict-map,
  check_edges-Verdict, check_suffixes-Verdict, is_edge, suffixes_of,
}
use vortex_dispatch.Prelude.{
  All, All-map, All-zip, Bool, Bool-cases, Dict, IsSubset, List, String, [], arith, has,
  if◌then◌else◌, inl, inr, leb, length, ltb, max, str_eq, str_eq_iff, subst, sym, true, value, ℕ,
  ◌<◌, ◌∷◌, ◌≡◌, ◌≤◌, ◌⊎◌,
}

module _ (adj : Dict (List String)) (nodes : List String)
    (known : (a b : String) → has b (value [] adj a) ≡ true → has b nodes ≡ true) where
  -- Two children, the first before the second in the list, that own a common file are ordered.
  abbrev pub Sequenced : SplitChild → SplitChild → Type 0
  Sequenced c d =
      (f : String)
      → has f c.owned_files ≡ true
      → has f d.owned_files ≡ true
      → Ordered adj nodes known d.suffix c.suffix

  abbrev pub IsSequenced : List SplitChild → Type 0
  IsSequenced [] = Unit
  IsSequenced (c ∷ cs) = All (Sequenced c) cs × IsSequenced cs

  -- The child is ordered with the owners of its files.
  abbrev pub Follows : Dict (List String) → SplitChild → Type 0
  Follows owners d =
      (f p : String)
      → has f d.owned_files ≡ true
      → has p (value [] owners f) ≡ true
      → Ordered adj nodes known d.suffix p

  pub record HasChildren (max_complexity : ℕ) (cs : List SplitChild) (owners : Dict (List String))
      : Type 0 where
    pub sequenced : IsSequenced cs
    pub follows : All (Follows owners) cs
    pub simple : All (λ c. c.complexity ≤ max_complexity) cs

  pub check_children-Verdict :
      (max_complexity : ℕ) (cs : List SplitChild) (owners : Dict (List String))
      → All (λ c. has c.suffix nodes ≡ true) cs
      → IsOwned adj nodes known owners
      → Verdict
          (λ u. HasChildren max_complexity cs owners)
          (check_children adj (length nodes) max_complexity cs owners)
  unfolding check_children
  check_children-Verdict max [] owners h i = record { sequenced = tt; follows = tt; simple = tt }
  check_children-Verdict max (c ∷ cs) owners h i =
      Verdict-bind (HasFiles adj nodes known c.suffix c.owned_files owners)
        (λ u. HasChildren max (c ∷ cs) owners)
        (check_files adj (length nodes) c.suffix c.owned_files owners)
        (λ after.
          let others = check_children adj (length nodes) max cs after in
          if ltb max c.complexity then refused (too_complex c.complexity) else others)
        (check_files-Verdict adj nodes known c.suffix c.owned_files owners h.0 i)
        (λ after v. one after v (check_children-Verdict max cs after h.1 v.inside))
    where
      one :
          (after : Dict (List String))
          → HasFiles adj nodes known c.suffix c.owned_files owners after
          → Verdict (λ u. HasChildren max cs after) (check_children adj (length nodes) max cs after)
          → Verdict
              (λ u. HasChildren max (c ∷ cs) owners)
              (let others = check_children adj (length nodes) max cs after in
                if ltb max c.complexity then refused (too_complex c.complexity) else others)
      one after v w = elim (Bool-cases (ltb max c.complexity)) [
        | inl y ↦ rw y tt
        | inr n ↦ rw n (
            Verdict-map _ _ (check_children adj (length nodes) max cs after)
              (λ u k. record {
                sequenced = (
                  All-map _ _ cs (λ d g f own its. g f c.suffix its (v.claimed f own)) k.follows,
                  k.sequenced,
                );
                follows = (
                  v.ordered,
                  All-map _ _ cs (λ d g f p its l. g f p its (v.kept f p l)) k.follows,
                );
                simple = (ground (arith, n), k.simple);
              })
              w)
      ]

-- A chain of edges: the first runs strictly after the last.
pub data Chain (edges : List (List String)) : String → String → Type 0 where
  direct : {a b : String} → is_edge edges a b ≡ true → Chain edges a b
  chain : {a b c : String} → is_edge edges a b ≡ true → Chain edges b c → Chain edges a c

module _ (edges : List (List String)) where
  -- Two children that own a common file are in a chain of edges, in one direction or the other.
  abbrev pub NeverParallel : SplitChild → SplitChild → Type 0
  NeverParallel c d =
      (f : String)
      → has f c.owned_files ≡ true
      → has f d.owned_files ≡ true
      → Chain edges d.suffix c.suffix ⊎ Chain edges c.suffix d.suffix

  abbrev pub IsConflictFree : List SplitChild → Type 0
  IsConflictFree [] = Unit
  IsConflictFree (c ∷ cs) = All (NeverParallel c) cs × IsConflictFree cs

  Reach-Chain :
      (adj : Dict (List String))
      → ((a b : String) → has b (value [] adj a) ≡ true → is_edge edges a b ≡ true)
      → (a b : String) → Reach adj a b
      → Chain edges a b
  Reach-Chain adj h a b (edge k) = direct (h a b k)
  Reach-Chain adj h a c (via {b = b} k r) = chain (h a b k) (Reach-Chain adj h b c r)

  module _ (adj : Dict (List String)) (nodes : List String)
      (known : (a b : String) → has b (value [] adj a) ≡ true → has b nodes ≡ true)
      (linked : (a b : String) → has b (value [] adj a) ≡ true → is_edge edges a b ≡ true) where
    IsSequenced-IsConflictFree :
        (cs : List SplitChild)
        → IsDistinctSplit cs
        → IsSequenced adj nodes known cs
        → IsConflictFree cs
    IsSequenced-IsConflictFree [] d s = tt
    IsSequenced-IsConflictFree (c ∷ cs) d s = (
      All-zip _ _ (NeverParallel c) cs
          (λ x apart q f own its. elim (q f own its) [
            | inl e ↦ absurd (cc ((str_eq_iff x.suffix c.suffix).1 e, apart))
            | inr (inl r) ↦ inl (Reach-Chain adj linked x.suffix c.suffix r)
            | inr (inr r) ↦ inr (Reach-Chain adj linked c.suffix x.suffix r)
          ])
          d.0 s.0,
      IsSequenced-IsConflictFree cs d.1 s.1,
    )

pub edge-known :
    (suffixes : List String) (edges : List (List String)) (a b : String)
    → All (IsEdge suffixes) edges
    → is_edge edges a b ≡ true
    → has b suffixes ≡ true
edge-known suffixes [] a b h k = cc
edge-known suffixes ([] ∷ edges) a b h k = edge-known suffixes edges a b h.1 k
edge-known suffixes ((x ∷ []) ∷ edges) a b h k = edge-known suffixes edges a b h.1 k
edge-known suffixes ((x ∷ y ∷ z ∷ e) ∷ edges) a b h k = edge-known suffixes edges a b h.1 k
edge-known suffixes ((x ∷ y ∷ []) ∷ edges) a b h k = elim (Bool-cases (str_eq b y)) [
  | inl e ↦
      let pair = h.0 in
      let same : y ≡ pair.1 = cc pair.2 in
      let found : has y suffixes ≡ true = subst (λ n. has n suffixes ≡ true) (sym same) pair.4 in
      subst (λ n. has n suffixes ≡ true) (sym ((str_eq_iff b y).0 e)) found
  | inr e ↦ edge-known suffixes edges a b h.1 (ground (arith, k, e))
]

-- What a split has to satisfy, with the edges as they are given.
pub record IsValidSplit (is_safe_suffix : String → Bool) (parent_depth : ℕ)
    (children : List SplitChild) (max_complexity : ℕ) (edges : List (List String)) : Type 0 where
  pub shallow : parent_depth < max_split_depth
  pub safe : All (λ c. is_safe_suffix c.suffix ≡ true) children
  pub distinct : IsDistinctSplit children
  pub known : All (IsEdge (suffixes_of children)) edges
  pub conflict_free : IsConflictFree edges children
  pub simple : All (λ c. c.complexity ≤ max_complexity) children

pub IsEdge-subset :
    (suffixes others : List String) (edges : List (List String))
    → IsSubset suffixes others
    → All (IsEdge suffixes) edges
    → All (IsEdge others) edges
IsEdge-subset suffixes others edges s h =
    All-map _ _ edges (λ e k. (k.0, k.1, k.2, s k.0 k.3, s k.1 k.4)) h

module _ (is_safe_suffix : String → Bool) (parent_depth : ℕ) (children : List SplitChild)
    (max_complexity : ℕ) (edges : List (List String))
    (shallow : parent_depth < max_split_depth) where
  abbrev Valid : Unit {0} → Type 0
  Valid u = IsValidSplit is_safe_suffix parent_depth children max_complexity edges

  -- The last loop, once the suffixes and the edges are accepted.
  children-Valid :
      (suffixes : List String)
      → HasSuffixes is_safe_suffix children [] suffixes
      → (adj : Dict (List String)) → HasEdges suffixes edges [] adj
      → Verdict Valid (check_children adj (length suffixes) max_complexity children [])
  children-Valid suffixes v adj w =
      let linked : (a b : String) → has b (value [] adj a) ≡ true → is_edge edges a b ≡ true =
        λ a b h. ground (arith, h, w.linked a b) in
      let known : (a b : String) → has b (value [] adj a) ≡ true → has b suffixes ≡ true =
        λ a b h. edge-known suffixes edges a b w.known (linked a b h) in
      Verdict-map (λ u. HasChildren adj suffixes known max_complexity children []) Valid
        (check_children adj (length suffixes) max_complexity children [])
        (λ u k. record {
          shallow = shallow;
          safe = v.safe;
          distinct = v.distinct;
          known =
              IsEdge-subset suffixes (suffixes_of children) edges
                (λ x h. elim (v.only x h) [ inl o ↦ absurd (cc o) | inr o ↦ o ]) w.known;
          conflict_free =
              IsSequenced-IsConflictFree edges adj suffixes known linked children v.distinct
                k.sequenced;
          simple = k.simple;
        })
        (check_children-Verdict adj suffixes known max_complexity children [] v.all_in
          (λ f p h. cc))

-- ValidateSplitWithEdges ends, and it accepts a split only if the parent is not too deep, the
-- suffixes of the children are safe and distinct, every edge names two of them, no child is too
-- complex, and any two children that own a common file are in a chain of edges, so that they never
-- run at the same time.
pub validate_split_with_edges-Verdict :
    (is_safe_suffix : String → Bool) (parent_depth : ℕ) (children : List SplitChild)
    (max_complexity : ℕ) (edges : List (List String))
    → Verdict
        (λ u. IsValidSplit is_safe_suffix parent_depth children max_complexity edges)
        (validate_split_with_edges is_safe_suffix parent_depth children max_complexity edges)
unfolding validate_split_with_edges
validate_split_with_edges-Verdict safe depth children max edges =
    elim (Bool-cases (leb max_split_depth depth)) [
      | inl y ↦ rw y tt
      | inr n ↦
          let shallow : depth < max_split_depth = ground (arith, n) in
          rw n (
            Verdict-bind (HasSuffixes safe children [])
              (Valid safe depth children max edges shallow) (check_suffixes safe children [])
              (λ suffixes. check_edges suffixes edges [] >>= λ adj.
                check_children adj (length suffixes) max children [])
              (check_suffixes-Verdict safe children [])
              (λ suffixes v.
                Verdict-bind (HasEdges suffixes edges [])
                  (Valid safe depth children max edges shallow) (check_edges suffixes edges [])
                  (λ adj. check_children adj (length suffixes) max children [])
                  (check_edges-Verdict suffixes edges [])
                  (children-Valid safe depth children max edges shallow suffixes v)))
    ]
