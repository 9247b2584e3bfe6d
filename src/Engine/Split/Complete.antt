-- ===== src/Engine/Split/Complete.antt =====
-- Every valid split is accepted.
use vortex_dispatch.Engine.Split.{SplitChild, max_split_depth, ok, validate_split_with_edges}
use vortex_dispatch.Engine.Split.Accepts.{
  check_children-accepts, check_edges-accepts, check_suffixes-accepts,
}
use vortex_dispatch.Engine.Split.Result.{
  Chain, IsConflictFree, IsEdge-subset, IsSequenced, IsValidSplit, Sequenced, chain, direct,
  edge-known,
}
use vortex_dispatch.Engine.Split.Search.{Reach, edge, via}
use vortex_dispatch.Engine.Split.Valid.{
  HasEdges, HasSuffixes, Verdict, check_edges-Verdict, check_suffixes-Verdict, is_edge, suffixes_of,
}
use vortex_dispatch.Prelude.{
  All, All-map, Bool, Bool-cases, Dict, IsSubset, List, String, [], arith, false, has, inl, inr,
  leb, max, refl, str_eq, str_eq_iff, subst, sym, true, value, ℕ, ◌∷◌, ◌≡◌,
}

suffixes_of-subset :
    (suffixes : List String) (cs : List SplitChild)
    → All (λ c. has c.suffix suffixes ≡ true) cs
    → IsSubset (suffixes_of cs) suffixes
suffixes_of-subset suffixes [] h x k = cc
suffixes_of-subset suffixes (c ∷ cs) h x k = elim (Bool-cases (str_eq x c.suffix)) [
  | inl e ↦ subst (λ n. has n suffixes ≡ true) (sym ((str_eq_iff x c.suffix).0 e)) h.0
  | inr e ↦ suffixes_of-subset suffixes cs h.1 x (ground (arith, e, k))
]

module _ (edges : List (List String)) (adj : Dict (List String))
    (linked : (a b : String) → is_edge edges a b ≡ true → has b (value [] adj a) ≡ true) where
  Chain-Reach : (a b : String) → Chain edges a b → Reach adj a b
  Chain-Reach a b (direct k) = edge (linked a b k)
  Chain-Reach a c (chain {b = b} k r) = via (linked a b k) (Chain-Reach b c r)

  module _ (nodes : List String)
      (known : (a b : String) → has b (value [] adj a) ≡ true → has b nodes ≡ true) where
    IsConflictFree-IsSequenced :
        (cs : List SplitChild) → IsConflictFree edges cs → IsSequenced adj nodes known cs
    IsConflictFree-IsSequenced [] h = tt
    IsConflictFree-IsSequenced (c ∷ cs) h = (
      All-map _ (Sequenced adj nodes known c) cs
          (λ d k f its other_its. elim (k f its other_its) [
            | inl r ↦ inr (inl (Chain-Reach d.suffix c.suffix r))
            | inr r ↦ inr (inr (Chain-Reach c.suffix d.suffix r))
          ])
          h.0,
      IsConflictFree-IsSequenced cs h.1,
    )

-- ValidateSplitWithEdges accepts every split whose parent is not too deep, whose suffixes are safe
-- and distinct, whose edges name two of them each, whose children are simple enough, and of whose
-- children any two that own a common file are in a chain of edges.
pub validate_split_with_edges_accepts :
    (is_safe_suffix : String → Bool) (parent_depth : ℕ) (children : List SplitChild)
    (max_complexity : ℕ) (edges : List (List String))
    → IsValidSplit is_safe_suffix parent_depth children max_complexity edges
    → validate_split_with_edges is_safe_suffix parent_depth children max_complexity edges ≡ ok tt
unfolding validate_split_with_edges
validate_split_with_edges_accepts safe depth children max edges v =
    let first =
      check_suffixes-accepts safe children [] v.safe (All-map _ _ children (λ c h. refl) v.safe)
        v.distinct in
    let suffixes = first.0 in
    let named : HasSuffixes safe children [] suffixes =
      subst (Verdict (HasSuffixes safe children [])) first.1
        (check_suffixes-Verdict safe children []) in
    let edged =
      IsEdge-subset (suffixes_of children) suffixes edges
        (suffixes_of-subset suffixes children named.all_in) v.known in
    let second = check_edges-accepts suffixes edges [] edged in
    let adj = second.0 in
    let graph : HasEdges suffixes edges [] adj =
      subst (Verdict (HasEdges suffixes edges [])) second.1
        (check_edges-Verdict suffixes edges []) in
    let known : (a b : String) → has b (value [] adj a) ≡ true → has b suffixes ≡ true =
      λ a b h. edge-known suffixes edges a b edged (ground (arith, h, graph.linked a b)) in
    let last =
      check_children-accepts adj suffixes known max children [] named.all_in (λ f p h. cc)
        (All-map _ _ children (λ d h f p its q. absurd (cc q)) v.safe)
        (IsConflictFree-IsSequenced edges adj (λ a b h. ground (arith, h, graph.linked a b))
          suffixes known children v.conflict_free)
        v.simple in
    let shallow : leb max_split_depth depth ≡ false = ground (arith, v.shallow) in
    rw (shallow, first.1, second.1) last
