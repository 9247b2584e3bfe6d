-- ===== src/Engine/Split/Search.antt =====
-- The depth-first search of `reaches`: it ends, and it finds exactly what can be reached.
use vortex_dispatch.Engine.Tier.Advance.{other}
use vortex_dispatch.Prelude.{
  Bool-cases, Dict, IsSubset, List, String, [], arith, false, has, has_head, inl, inr, str_eq,
  str_eq_iff, subst, sym, true, value, ◌∷◌, ◌≡◌, ◌⊎◌,
}

module _ (adj : Dict (List String)) where
  pub data Reach : String → String → Type 0 where
    edge : {a b : String} → has b (value [] adj a) ≡ true → Reach a b
    via : {a b c : String} → has b (value [] adj a) ≡ true → Reach b c → Reach a c

  extend : {a b c : String} → Reach a b → has c (value [] adj b) ≡ true → Reach a c
  extend (edge h) k = via h (edge k)
  extend (via h r) k = via h (extend r k)

  module _ (from to : String) where
    abbrev pub IsFound : String → Type 0
    IsFound n = (n ≡ from) ⊎ Reach from n

    pub follow : {n m : String} → IsFound n → has m (value [] adj n) ≡ true → Reach from m
    follow {m = m} (inl e) h = edge (subst (λ x. has m (value [] adj x) ≡ true) e h)
    follow (inr r) h = extend r h

    -- While the successors of `n` are gone through, and `ms` are left: the nodes that are seen and
    -- not on the stack lead to seen nodes other than `to`, but for those that are left.
    pub record IsExplored (n : String) (ms seen stack : List String) : Type 0 where
      pub rooted : has from seen ≡ true
      pub found : (x : String) → has x seen ≡ true → IsFound x
      pub stacked : IsSubset stack seen
      pub left : IsSubset ms (value [] adj n)
      pub reached : has n seen ≡ true
      pub closed :
          (x m : String)
          → has x seen ≡ true
          → has x stack ≡ false
          → has m (value [] adj x) ≡ true
          → ((x ≡ n) × (has m ms ≡ true)) ⊎ ((has m seen ≡ true) × (str_eq m to ≡ false))

    pub IsExplored-known :
        (n m : String) (ms seen stack : List String)
        → IsExplored n (m ∷ ms) seen stack
        → str_eq m to ≡ false
        → has m seen ≡ true
        → IsExplored n ms seen stack
    IsExplored-known n m ms seen stack i other s = record {
      rooted = i.rooted;
      found = i.found;
      stacked = i.stacked;
      left = λ x h. i.left x (ground (arith, h));
      reached = i.reached;
      closed = λ x y h k l. pass y (i.closed x y h k l);
    }
      where
        pass :
            {x : String} (y : String)
            → ((x ≡ n) × (has y (m ∷ ms) ≡ true)) ⊎ ((has y seen ≡ true) × (str_eq y to ≡ false))
            → ((x ≡ n) × (has y ms ≡ true)) ⊎ ((has y seen ≡ true) × (str_eq y to ≡ false))
        pass y (inr d) = inr d
        pass y (inl d) = elim (Bool-cases (str_eq y m)) [
          | inl e ↦ let same : y ≡ m = (str_eq_iff y m).0 e in inr (rw same s, rw same other)
          | inr e ↦ inl (d.0, ground (arith, d.1, e))
        ]

    pub IsExplored-fresh :
        (n m : String) (ms seen stack : List String)
        → IsExplored n (m ∷ ms) seen stack
        → str_eq m to ≡ false
        → IsExplored n ms (m ∷ seen) (m ∷ stack)
    IsExplored-fresh n m ms seen stack i other = record {
      rooted = ground (arith, i.rooted);
      found = λ x h. elim (Bool-cases (str_eq x m)) [
        | inl e ↦
            let same : x ≡ m = (str_eq_iff x m).0 e in
            subst IsFound (sym same) (inr (follow (i.found n i.reached) (i.left m (has_head m ms))))
        | inr e ↦ i.found x (ground (arith, e, h))
      ];
      stacked = λ x h. ground (arith, h, i.stacked x);
      left = λ x h. i.left x (ground (arith, h));
      reached = ground (arith, i.reached);
      closed = λ x y h k l. pass y (i.closed x y (ground (arith, h, k)) (ground (arith, k)) l);
    }
      where
        pass :
            {x : String} (y : String)
            → ((x ≡ n) × (has y (m ∷ ms) ≡ true)) ⊎ ((has y seen ≡ true) × (str_eq y to ≡ false))
            → ((x ≡ n) × (has y ms ≡ true)) ⊎ ((has y (m ∷ seen) ≡ true) × (str_eq y to ≡ false))
        pass y (inr d) = inr (ground (arith, d.0), d.1)
        pass y (inl d) = elim (Bool-cases (str_eq y m)) [
          | inl e ↦ let same : y ≡ m = (str_eq_iff y m).0 e in inr (rw e, rw same other)
          | inr e ↦ inl (d.0, ground (arith, d.1, e))
        ]
