-- ===== src/Engine/Split/Owners.antt =====
-- The check of the owned files: the children that own a common file are ordered by the edges.
use vortex_dispatch.Engine.Split.{
  Checked, check_owners, ordered_by_edges, out_of_fuel, overlapping_file, reaches, refused,
}
use vortex_dispatch.Engine.Split.Reaches.{Answer, reaches-Answer}
use vortex_dispatch.Engine.Split.Search.{Reach}
use vortex_dispatch.Engine.Split.Valid.{Verdict, Verdict-map}
use vortex_dispatch.Prelude.{
  Bool, Bool-cases, Dict, IsSubset, List, Option, String, [], arith, false, has, has_head,
  if◌then◌else◌, inl, inr, length, none, some, str_eq, str_eq_iff, subst, sym, true, value, ◌∷◌,
  ◌≡◌, ◌⊎◌,
}

module _ (adj : Dict (List String)) (nodes : List String)
    (known : (a b : String) → has b (value [] adj a) ≡ true → has b nodes ≡ true) where
  -- One runs strictly after the other, or they are the same.
  abbrev pub Ordered : String → String → Type 0
  Ordered x y = (x ≡ y) ⊎ (Reach adj x y ⊎ Reach adj y x)

  abbrev pub OrderedAnswer : String → String → Option Bool → Type 0
  OrderedAnswer x y none = ⊥
  OrderedAnswer x y (some true) = Ordered x y
  OrderedAnswer x y (some false) = ¬ (Ordered x y)

  pub ordered_by_edges-OrderedAnswer :
      (x y : String)
      → has x nodes ≡ true
      → has y nodes ≡ true
      → OrderedAnswer x y (ordered_by_edges adj (length nodes) x y)
  unfolding ordered_by_edges
  ordered_by_edges-OrderedAnswer x y h k = elim (Bool-cases (str_eq x y)) [
    | inl e ↦ rw e (inl ((str_eq_iff x y).0 e))
    | inr n ↦ rw n (
        forward n (reaches adj (length nodes) x y) (reaches-Answer adj nodes known x y h)
          (reaches adj (length nodes) y x) (reaches-Answer adj nodes known y x k))
  ]
    where
      backward :
          str_eq x y ≡ false
          → ¬ (Reach adj x y)
          → (o : Option Bool) → Answer adj nodes known y x o
          → OrderedAnswer x y o
      backward n apart none v = v
      backward n apart (some true) v = inr (inr v)
      backward n apart (some false) v = λ o. elim o [
        | inl e ↦ cc ((str_eq_iff x y).1 e, n)
        | inr (inl r) ↦ apart r
        | inr (inr r) ↦ v r
      ]

      forward :
          str_eq x y ≡ false
          → (o : Option Bool) → Answer adj nodes known x y o
          → (q : Option Bool) → Answer adj nodes known y x q
          → OrderedAnswer x y (elim o [ none ↦ none | some b ↦ if b then some true else q ])
      forward n none v q w = v
      forward n (some true) v q w = inr (inl v)
      forward n (some false) v q w = backward n v q w

  abbrev pub IsOwned : Dict (List String) → Type 0
  IsOwned owners = (f p : String) → has p (value [] owners f) ≡ true → has p nodes ≡ true

  pub check_owners-Verdict :
      (suffix file : String) (prevs : List String)
      → has suffix nodes ≡ true
      → IsSubset prevs nodes
      → Verdict
          (λ u. (p : String) → has p prevs ≡ true → Ordered suffix p)
          (check_owners adj (length nodes) suffix file prevs)
  unfolding check_owners
  check_owners-Verdict suffix file [] h s = λ p k. cc
  check_owners-Verdict suffix file (prev ∷ prevs) h s =
      one (ordered_by_edges adj (length nodes) suffix prev)
        (ordered_by_edges-OrderedAnswer suffix prev h (s prev (has_head prev prevs)))
        (check_owners adj (length nodes) suffix file prevs)
        (check_owners-Verdict suffix file prevs h (λ p k. s p (ground (arith, k))))
    where
      one :
          (o : Option Bool)
          → OrderedAnswer suffix prev o
          → (others : Checked (Unit {0}))
          → Verdict (λ u. (p : String) → has p prevs ≡ true → Ordered suffix p) others
          → Verdict
              (λ u. (p : String) → has p (prev ∷ prevs) ≡ true → Ordered suffix p)
              (elim o [
                | none ↦ out_of_fuel
                | some b ↦ if b then others else refused (overlapping_file file)
              ])
      one none v others w = v
      one (some false) v others w = tt
      one (some true) v others w =
          Verdict-map _ _ others
            (λ u k p m. elim (Bool-cases (str_eq p prev)) [
              | inl e ↦ subst (Ordered suffix) (sym ((str_eq_iff p prev).0 e)) v
              | inr e ↦ k p (ground (arith, e, m))
            ])
            w
