-- ===== src/Engine/Split/Reaches.antt =====
-- The search is exact, and as many rounds as there are suffixes are enough for it.
use vortex_dispatch.Engine.Split.{Scan, hit, more, reaches, scan, search}
use vortex_dispatch.Engine.Split.Search.{
  IsExplored, IsFound, Reach, edge, IsExplored-fresh, IsExplored-known, follow, via,
}
use vortex_dispatch.Prelude.{
  Bool, Bool-cases, Dict, IsDistinct, IsSubset, List, Option, String, [], arith, false, has,
  has_head, inl, inr, length, length-le_of_subset, none, refl, some, str_eq, str_eq_iff,
  str_eq_refl, subst, suc, true, value, zero, ℕ, ◌+◌, ◌∷◌, ◌≡◌, ◌≤◌,
}

module _ (adj : Dict (List String)) (nodes : List String)
    (known : (a b : String) → has b (value [] adj a) ≡ true → has b nodes ≡ true) where
  module _ (from to : String) where
    -- Every seen node is a node and stands once; nodes are pushed when they are first seen.
    record IsMeasured (fuel : ℕ) (seen stack : List String) : Type 0 where
      distinct : IsDistinct seen
      inside : IsSubset seen nodes
      measure : length nodes + length stack ≤ fuel + length seen

    abbrev ScanVerdict : ℕ → String → Scan → Type 0
    ScanVerdict fuel n hit = Reach adj from to
    ScanVerdict fuel n (more seen stack) =
        IsExplored adj from to n [] seen stack × IsMeasured fuel seen stack

    scan-ScanVerdict :
        (fuel : ℕ) (n : String) (ms seen stack : List String)
        → IsExplored adj from to n ms seen stack
        → IsMeasured fuel seen stack
        → ScanVerdict fuel n (scan to ms seen stack)
    unfolding scan
    scan-ScanVerdict fuel n [] seen stack i k = (i, k)
    scan-ScanVerdict fuel n (m ∷ ms) seen stack i k = elim (Bool-cases (str_eq m to)) [
      | inl e ↦ rw e (
          subst (Reach adj from) ((str_eq_iff m to).0 e)
            (follow adj from to (i.found n i.reached) (i.left m (has_head m ms))))
      | inr e ↦ elim (Bool-cases (has m seen)) [
        | inl s ↦
            rw (e, s)
              (scan-ScanVerdict fuel n ms seen stack
                (IsExplored-known adj from to n m ms seen stack i e s) k)
        | inr s ↦
            rw (e, s)
              (scan-ScanVerdict fuel n ms (m ∷ seen) (m ∷ stack)
                (IsExplored-fresh adj from to n m ms seen stack i e)
                (record {
                  distinct = (s, k.distinct);
                  inside = λ x h. inside_more x h;
                  measure = omega (arith, k.measure);
                }))
      ]
    ]
      where
        inside_more : (x : String) → has x (m ∷ seen) ≡ true → has x nodes ≡ true
        inside_more x h = elim (Bool-cases (str_eq x m)) [
          | inl e ↦
              let same : x ≡ m = (str_eq_iff x m).0 e in
              rw same (known n m (i.left m (has_head m ms)))
          | inr e ↦ k.inside x (ground (arith, e, h))
        ]

    -- Between two rounds.
    record IsIdle (seen stack : List String) : Type 0 where
      rooted : has from seen ≡ true
      found : (x : String) → has x seen ≡ true → IsFound adj from to x
      stacked : IsSubset stack seen
      closed :
          (x m : String)
          → has x seen ≡ true
          → has x stack ≡ false
          → has m (value [] adj x) ≡ true
          → (has m seen ≡ true) × (str_eq m to ≡ false)

    enter :
        (n : String) (seen stack : List String)
        → IsIdle seen (n ∷ stack)
        → IsExplored adj from to n (value [] adj n) seen stack
    enter n seen stack i = record {
      rooted = i.rooted;
      found = i.found;
      stacked = λ x h. i.stacked x (ground (arith, h));
      left = λ x h. h;
      reached = i.stacked n (has_head n stack);
      closed = λ x m h k l. elim (Bool-cases (str_eq x n)) [
        | inl e ↦
            let same : x ≡ n = (str_eq_iff x n).0 e in
            inl (same, subst (λ y. has m (value [] adj y) ≡ true) same l)
        | inr e ↦ inr (i.closed x m h (ground (arith, e, k)) l)
      ];
    }

    leave :
        (n : String) (seen stack : List String)
        → IsExplored adj from to n [] seen stack
        → IsIdle seen stack
    leave n seen stack i = record {
      rooted = i.rooted;
      found = i.found;
      stacked = i.stacked;
      closed = λ x m h k l. elim (i.closed x m h k l) [ inl d ↦ absurd (cc d.1) | inr d ↦ d ];
    }

    abbrev pub Answer : Option Bool → Type 0
    Answer none = ⊥
    Answer (some true) = Reach adj from to
    Answer (some false) = ¬ (Reach adj from to)

    unreachable :
        (seen : List String)
        → IsIdle seen []
        → (a : String) → has a seen ≡ true
        → ¬ (Reach adj a to)
    unreachable seen i a h (edge k) = cc ((i.closed a to h refl k).1, str_eq_refl to)
    unreachable seen i a h (via {b = b} k r) = unreachable seen i b (i.closed a b h refl k).0 r

    search-Answer :
        (fuel : ℕ) (seen stack : List String)
        → IsIdle seen stack
        → IsMeasured fuel seen stack
        → Answer (search adj to fuel seen stack)
    unfolding search
    search-Answer zero seen [] i k = unreachable seen i from i.rooted
    search-Answer (suc fuel) seen [] i k = unreachable seen i from i.rooted
    search-Answer zero seen (n ∷ stack) i k =
        absurd (omega (arith, k.measure, length-le_of_subset seen nodes k.distinct k.inside))
    search-Answer (suc fuel) seen (n ∷ stack) i k =
        go (λ seen' stack' i' k'. search-Answer fuel seen' stack' i' k')
          (scan to (value [] adj n) seen stack)
          (scan-ScanVerdict fuel n (value [] adj n) seen stack (enter n seen stack i) (record {
            distinct = k.distinct;
            inside = k.inside;
            measure = omega (arith, k.measure);
          }))
      where
        go :
            ((seen' stack' : List String)
              → IsIdle seen' stack'
              → IsMeasured fuel seen' stack'
              → Answer (search adj to fuel seen' stack'))
            → (s : Scan) → ScanVerdict fuel n s
            → Answer
                (elim s [ hit ↦ some true | more seen' stack' ↦ search adj to fuel seen' stack' ])
        go ih hit r = r
        go ih (more seen' stack') r = ih seen' stack' (leave n seen' stack' r.0) r.1

  -- The search of `reaches` between two suffixes, on as many rounds as there are suffixes, ends
  -- and finds out whether a chain of edges leads from the one to the other.
  pub reaches-Answer :
      (from to : String)
      → has from nodes ≡ true
      → Answer from to (reaches adj (length nodes) from to)
  unfolding reaches
  reaches-Answer from to h =
      search-Answer from to (length nodes) (from ∷ []) (from ∷ [])
        (record {
          rooted = has_head from [];
          found = λ x o. inl ((str_eq_iff x from).0 (ground (arith, o)));
          stacked = λ x o. o;
          closed = λ x m o k l. absurd (cc (o, k));
        })
        (record {
          distinct = (refl, tt);
          inside =
              λ x o. let same : x ≡ from = (str_eq_iff x from).0 (ground (arith, o)) in rw same h;
          measure = omega arith;
        })
