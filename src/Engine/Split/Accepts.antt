-- ===== src/Engine/Split/Accepts.antt =====
-- A split that satisfies the conditions is accepted, loop by loop.
use vortex_dispatch.Engine.Split.{
  SplitChild, check_children, check_edges, check_files, check_owners, check_suffixes, ok,
  ordered_by_edges,
}
use vortex_dispatch.Engine.Split.Children.{claim, claim-from, claim-new}
use vortex_dispatch.Engine.Split.Owners.{
  IsOwned, Ordered, OrderedAnswer, ordered_by_edges-OrderedAnswer,
}
use vortex_dispatch.Engine.Split.Result.{Follows, IsSequenced}
use vortex_dispatch.Engine.Split.Valid.{IsDistinctSplit, IsEdge}
use vortex_dispatch.Prelude.{
  All, All-zip, Bool, Bool-cases, Dict, IsSubset, List, Option, String, [], arith, assign, false,
  has, has_head, inl, inr, length, ltb, max, none, refl, some, str_eq_iff, subst, sym, true, value,
  ℕ, ◌++◌, ◌∷◌, ◌≡◌, ◌≤◌, ◌⊎◌,
}

pub check_suffixes-accepts :
    (safe : String → Bool) (cs : List SplitChild) (seen : List String)
    → All (λ c. safe c.suffix ≡ true) cs
    → All (λ c. has c.suffix seen ≡ false) cs
    → IsDistinctSplit cs
    → (suffixes : List String) × (check_suffixes safe cs seen ≡ ok suffixes)
unfolding check_suffixes
check_suffixes-accepts safe [] seen s f d = (seen, refl)
check_suffixes-accepts safe (c ∷ cs) seen s f d =
    let fresh =
      All-zip _ _ (λ x. has x.suffix (c.suffix ∷ seen) ≡ false) cs (λ x h k. ground (arith, h, k))
        d.0 f.1 in
    let found = check_suffixes-accepts safe cs (c.suffix ∷ seen) s.1 fresh d.1 in
    (found.0, rw (s.0, f.0) found.1)

pub check_edges-accepts :
    (suffixes : List String) (edges : List (List String)) (adj : Dict (List String))
    → All (IsEdge suffixes) edges
    → (final : Dict (List String)) × (check_edges suffixes edges adj ≡ ok final)
unfolding check_edges
check_edges-accepts suffixes [] adj h = (adj, refl)
check_edges-accepts suffixes ([] ∷ edges) adj h = absurd (cc (h.0).2)
check_edges-accepts suffixes ((x ∷ []) ∷ edges) adj h = absurd (cc (h.0).2)
check_edges-accepts suffixes ((x ∷ y ∷ z ∷ e) ∷ edges) adj h = absurd (cc (h.0).2)
check_edges-accepts suffixes ((x ∷ y ∷ []) ∷ edges) adj h =
    let pair = h.0 in
    let first : x ≡ pair.0 = cc pair.2 in
    let second : y ≡ pair.1 = cc pair.2 in
    let has_x : has x suffixes ≡ true = subst (λ n. has n suffixes ≡ true) (sym first) pair.3 in
    let has_y : has y suffixes ≡ true = subst (λ n. has n suffixes ≡ true) (sym second) pair.4 in
    let found = check_edges-accepts suffixes edges (assign x (value [] adj x ++ y ∷ []) adj) h.1 in
    (found.0, rw (has_x, has_y) found.1)

module _ (adj : Dict (List String)) (nodes : List String)
    (known : (a b : String) → has b (value [] adj a) ≡ true → has b nodes ≡ true) where
  ordered_by_edges-Ordered :
      (x y : String)
      → has x nodes ≡ true
      → has y nodes ≡ true
      → Ordered adj nodes known x y
      → ordered_by_edges adj (length nodes) x y ≡ some true
  ordered_by_edges-Ordered x y h k o =
      go (ordered_by_edges adj (length nodes) x y)
        (ordered_by_edges-OrderedAnswer adj nodes known x y h k)
    where
      go : (q : Option Bool) → OrderedAnswer adj nodes known x y q → q ≡ some true
      go none v = absurd v
      go (some true) v = refl
      go (some false) v = absurd (v o)

  check_owners-accepts :
      (suffix file : String) (prevs : List String)
      → has suffix nodes ≡ true
      → IsSubset prevs nodes
      → ((p : String) → has p prevs ≡ true → Ordered adj nodes known suffix p)
      → check_owners adj (length nodes) suffix file prevs ≡ ok tt
  unfolding check_owners
  check_owners-accepts suffix file [] h s o = refl
  check_owners-accepts suffix file (prev ∷ prevs) h s o =
      rw
        (
          ordered_by_edges-Ordered suffix prev h (s prev (has_head prev prevs))
              (o prev (has_head prev prevs)),
          check_owners,
        )
        (check_owners-accepts suffix file prevs h (λ p k. s p (ground (arith, k)))
          (λ p k. o p (ground (arith, k))))

  check_files-accepts :
      (suffix : String) (files : List String) (owners : Dict (List String))
      → has suffix nodes ≡ true
      → IsOwned adj nodes known owners
      → ((f p : String)
          → has f files ≡ true
          → has p (value [] owners f) ≡ true
          → Ordered adj nodes known suffix p)
      → (after : Dict (List String)) × (check_files adj (length nodes) suffix files owners
          ≡ ok after)
        × ((g p : String)
            → has p (value [] after g) ≡ true
            → (has p (value [] owners g) ≡ true) ⊎ ((p ≡ suffix) × (has g files ≡ true)))
  unfolding check_files
  check_files-accepts suffix [] owners h i o = (owners, refl, λ g p k. inl k)
  check_files-accepts suffix (f ∷ files) owners h i o =
      let found =
        check_files-accepts suffix files (claim owners f suffix) h
          (λ g p k. elim (claim-from owners f suffix g p k) [
            | inl q ↦ i g p q
            | inr e ↦ subst (λ x. has x nodes ≡ true) (sym ((str_eq_iff p suffix).0 e)) h
          ])
          (λ g p k l. elim (claim-from owners f suffix g p l) [
            | inl q ↦ o g p (ground (arith, k)) q
            | inr e ↦ inl (sym ((str_eq_iff p suffix).0 e))
          ]) in
      (
        found.0,
        rw
            (check_owners-accepts suffix f (value [] owners f) h (i f)
              (λ p k. o f p (has_head f files) k))
            found.1,
        λ g p k. elim (found.2 g p k) [
          | inr q ↦ inr (q.0, ground (arith, q.1))
          | inl q ↦ back g p q
        ],
      )
    where
      back :
          (g p : String)
          → has p (value [] (claim owners f suffix) g) ≡ true
          → (has p (value [] owners g) ≡ true) ⊎ ((p ≡ suffix) × (has g (f ∷ files) ≡ true))
      back g p q = elim (Bool-cases (has p (value [] owners g))) [
        | inl y ↦ inl y
        | inr n ↦
            let new_owner = claim-new owners f suffix g p q n in
            inr ((str_eq_iff p suffix).0 new_owner.0, rw new_owner.1)
      ]

  pub check_children-accepts :
      (max_complexity : ℕ) (cs : List SplitChild) (owners : Dict (List String))
      → All (λ c. has c.suffix nodes ≡ true) cs
      → IsOwned adj nodes known owners
      → All (Follows adj nodes known owners) cs
      → IsSequenced adj nodes known cs
      → All (λ c. c.complexity ≤ max_complexity) cs
      → check_children adj (length nodes) max_complexity cs owners ≡ ok tt
  unfolding check_children
  check_children-accepts max [] owners h i f s m = refl
  check_children-accepts max (c ∷ cs) owners h i f s m =
      let found = check_files-accepts c.suffix c.owned_files owners h.0 i f.0 in
      let simple : ltb max c.complexity ≡ false = ground (arith, m.0) in
      rw (found.1, simple)
        (check_children-accepts max cs found.0 h.1 (inside found.0 found.2)
          (All-zip _ _ (Follows adj nodes known found.0) cs
            (λ d k l g p its q. elim (found.2 g p q) [
              | inl old ↦ k g p its old
              | inr new ↦ subst (Ordered adj nodes known d.suffix) (sym new.0) (l g new.1 its)
            ])
            f.1 s.0)
          s.1 m.1)
    where
      inside :
          (after : Dict (List String))
          → ((g p : String)
              → has p (value [] after g) ≡ true
              → (has p (value [] owners g) ≡ true)
                ⊎ ((p ≡ c.suffix) × (has g c.owned_files ≡ true)))
          → IsOwned adj nodes known after
      inside after from g p q = elim (from g p q) [
        | inl old ↦ i g p old
        | inr new ↦ subst (λ x. has x nodes ≡ true) (sym new.0) h.0
      ]
