-- ===== src/Engine/Split/Valid.antt =====
-- What a split that is accepted satisfies, loop by loop.
use vortex_dispatch.Engine.Split.{
  Checked, SplitChild, check_edges, check_suffixes, ok, out_of_fuel, refused, ◌>>=◌,
}
use vortex_dispatch.Prelude.{
  All, All-map, Bool, Bool-cases, Dict, IsSubset, List, String, [], arith, assign, false, has,
  has-append, has_head, inl, inr, refl, str_eq, str_eq_iff, true, value, value-assign, ◌&&◌, ◌++◌,
  ◌||◌, ◌∷◌, ◌≡◌, ◌⊎◌,
}

-- A check ends, and with `P` if it accepts.
abbrev pub Verdict : {A : Type 0} → (A → Type 0) → Checked A → Type 0
Verdict P (ok a) = P a
Verdict P (refused e) = Unit
Verdict P out_of_fuel = ⊥

pub Verdict-bind :
    {A B : Type 0} (P : A → Type 0) (Q : B → Type 0) (c : Checked A) (k : A → Checked B)
    → Verdict P c
    → ((a : A) → P a → Verdict Q (k a))
    → Verdict Q (c >>= k)
Verdict-bind P Q (ok a) k v f = f a v
Verdict-bind P Q (refused e) k v f = tt
Verdict-bind P Q out_of_fuel k v f = v

pub Verdict-map :
    {A : Type 0} (P Q : A → Type 0) (c : Checked A)
    → ((a : A) → P a → Q a)
    → Verdict P c
    → Verdict Q c
Verdict-map P Q (ok a) f v = f a v
Verdict-map P Q (refused e) f v = tt
Verdict-map P Q out_of_fuel f v = v

-- No two children have the same suffix.
abbrev pub IsDistinctSplit : List SplitChild → Type 0
IsDistinctSplit [] = Unit
IsDistinctSplit (c ∷ cs) = All (λ d. str_eq d.suffix c.suffix ≡ false) cs × IsDistinctSplit cs

abbrev pub suffixes_of : List SplitChild → List String
suffixes_of [] = []
suffixes_of (c ∷ cs) = c.suffix ∷ suffixes_of cs

pub record HasSuffixes (is_safe_suffix : String → Bool) (cs : List SplitChild)
    (seen suffixes : List String) : Type 0 where
  pub safe : All (λ c. is_safe_suffix c.suffix ≡ true) cs
  pub distinct : IsDistinctSplit cs
  pub fresh : All (λ c. has c.suffix seen ≡ false) cs
  pub earlier : IsSubset seen suffixes
  pub all_in : All (λ c. has c.suffix suffixes ≡ true) cs
  pub only :
      (x : String) → has x suffixes ≡ true → (has x seen ≡ true) ⊎ (has x (suffixes_of cs) ≡ true)

pub check_suffixes-Verdict :
    (is_safe_suffix : String → Bool) (cs : List SplitChild) (seen : List String)
    → Verdict (HasSuffixes is_safe_suffix cs seen) (check_suffixes is_safe_suffix cs seen)
unfolding check_suffixes
check_suffixes-Verdict safe [] seen = record {
  safe = tt;
  distinct = tt;
  fresh = tt;
  earlier = λ x h. h;
  all_in = tt;
  only = λ x h. inl h;
}
check_suffixes-Verdict safe (c ∷ cs) seen = elim (Bool-cases (safe c.suffix)) [
  | inr n ↦ rw n tt
  | inl y ↦ elim (Bool-cases (has c.suffix seen)) [
    | inl s ↦ rw (y, s) tt
    | inr s ↦
        rw (y, s)
          (Verdict-map (HasSuffixes safe cs (c.suffix ∷ seen)) (HasSuffixes safe (c ∷ cs) seen)
            (check_suffixes safe cs (c.suffix ∷ seen))
            (λ suffixes v. record {
              safe = (y, v.safe);
              distinct = (All-map _ _ cs (λ d k. ground (arith, k)) v.fresh, v.distinct);
              fresh = (s, All-map _ _ cs (λ d k. ground (arith, k)) v.fresh);
              earlier = λ x h. v.earlier x (ground (arith, h));
              all_in = (v.earlier c.suffix (has_head c.suffix seen), v.all_in);
              only = λ x h. elim (v.only x h) [
                | inr o ↦ inr (ground (arith, o))
                | inl o ↦ elim (Bool-cases (str_eq x c.suffix)) [
                  | inl e ↦ inr (rw e)
                  | inr e ↦ inl (ground (arith, o, e))
                ]
              ];
            })
            (check_suffixes-Verdict safe cs (c.suffix ∷ seen)))
  ]
]

-- Does an edge say that `a` runs after `b`?
abbrev pub is_edge : List (List String) → String → String → Bool
is_edge [] a b = false
is_edge ((x ∷ y ∷ []) ∷ edges) a b = (str_eq x a && str_eq b y) || is_edge edges a b
is_edge (e ∷ edges) a b = is_edge edges a b

abbrev pub IsEdge : List String → List String → Type 0
IsEdge suffixes e =
    (a : String) × (b : String) × (e ≡ a ∷ b ∷ [])
    × (has a suffixes ≡ true)
    × (has b suffixes ≡ true)

pub record HasEdges (suffixes : List String) (edges : List (List String))
    (before adj : Dict (List String)) : Type 0 where
  pub known : All (IsEdge suffixes) edges
  pub linked :
      (a b : String) → has b (value [] adj a) ≡ (has b (value [] before a) || is_edge edges a b)

pub check_edges-Verdict :
    (suffixes : List String) (edges : List (List String)) (adj : Dict (List String))
    → Verdict (HasEdges suffixes edges adj) (check_edges suffixes edges adj)
unfolding check_edges
check_edges-Verdict suffixes [] adj = record { known = tt; linked = λ a b. ground arith }
check_edges-Verdict suffixes ([] ∷ edges) adj = tt
check_edges-Verdict suffixes ((x ∷ []) ∷ edges) adj = tt
check_edges-Verdict suffixes ((x ∷ y ∷ z ∷ e) ∷ edges) adj = tt
check_edges-Verdict suffixes ((x ∷ y ∷ []) ∷ edges) adj = elim (Bool-cases (has x suffixes)) [
  | inr n ↦ rw n tt
  | inl h ↦ elim (Bool-cases (has y suffixes)) [
    | inr n ↦ rw (h, n) tt
    | inl k ↦
        let adj' = assign x (value [] adj x ++ y ∷ []) adj in
        rw (h, k)
          (Verdict-map (HasEdges suffixes edges adj') (HasEdges suffixes ((x ∷ y ∷ []) ∷ edges) adj)
            (check_edges suffixes edges adj')
            (λ final v. record {
              known = ((x, y, refl, h, k), v.known);
              linked = λ a b. ground (
                arith,
                v.linked a b,
                value-assign [] x a (value [] adj x ++ y ∷ []) adj,
                has-append b (value [] adj x) (y ∷ []),
                str_eq_iff x a,
              );
            })
            (check_edges-Verdict suffixes edges adj'))
  ]
]
