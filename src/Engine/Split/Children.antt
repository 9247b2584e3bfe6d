-- ===== src/Engine/Split/Children.antt =====
-- The loops over the owned files of a child, and over the children.
use vortex_dispatch.Engine.Split.{check_files, check_owners}
use vortex_dispatch.Engine.Split.Owners.{IsOwned, Ordered, check_owners-Verdict}
use vortex_dispatch.Engine.Split.Valid.{Verdict, Verdict-bind, Verdict-map}
use vortex_dispatch.Prelude.{
  Bool-cases, Dict, List, String, [], arith, assign, false, has, has-append, inl, inr, length,
  str_eq, str_eq_iff, str_eq_refl, subst, sym, true, value, value-assign, ◌++◌, ◌∷◌, ◌≡◌, ◌⊎◌,
}

abbrev pub claim : Dict (List String) → String → String → Dict (List String)
claim owners f suffix = assign f (value [] owners f ++ suffix ∷ []) owners

claim-keeps :
    (owners : Dict (List String)) (f suffix g p : String)
    → has p (value [] owners g) ≡ true
    → has p (value [] (claim owners f suffix) g) ≡ true
claim-keeps owners f suffix g p h = ground (
  arith,
  h,
  value-assign [] f g (value [] owners f ++ suffix ∷ []) owners,
  has-append p (value [] owners f) (suffix ∷ []),
  str_eq_iff f g,
)

claim-claims :
    (owners : Dict (List String)) (f suffix : String)
    → has suffix (value [] (claim owners f suffix) f) ≡ true
claim-claims owners f suffix = ground (
  arith,
  value-assign [] f f (value [] owners f ++ suffix ∷ []) owners,
  has-append suffix (value [] owners f) (suffix ∷ []),
  str_eq_refl f,
  str_eq_refl suffix,
)

pub claim-from :
    (owners : Dict (List String)) (f suffix g p : String)
    → has p (value [] (claim owners f suffix) g) ≡ true
    → (has p (value [] owners g) ≡ true) ⊎ (str_eq p suffix ≡ true)
claim-from owners f suffix g p h = elim (Bool-cases (str_eq p suffix)) [
  | inl e ↦ inr e
  | inr e ↦ inl (
      ground (
        arith,
        h,
        e,
        value-assign [] f g (value [] owners f ++ suffix ∷ []) owners,
        has-append p (value [] owners f) (suffix ∷ []),
        str_eq_iff f g,
      ))
]

pub claim-new :
    (owners : Dict (List String)) (f suffix g p : String)
    → has p (value [] (claim owners f suffix) g) ≡ true
    → has p (value [] owners g) ≡ false
    → (str_eq p suffix ≡ true) × (str_eq g f ≡ true)
claim-new owners f suffix g p h n =
    let seen = value-assign [] f g (value [] owners f ++ suffix ∷ []) owners in
    let joined = has-append p (value [] owners f) (suffix ∷ []) in
    (
      ground (arith, h, n, seen, joined, str_eq_iff f g),
      ground (arith, h, n, seen, str_eq_iff f g, str_eq_iff g f),
    )

module _ (adj : Dict (List String)) (nodes : List String)
    (known : (a b : String) → has b (value [] adj a) ≡ true → has b nodes ≡ true) where
  pub record HasFiles (suffix : String) (files : List String) (owners after : Dict (List String))
      : Type 0 where
    pub ordered :
        (f p : String)
        → has f files ≡ true
        → has p (value [] owners f) ≡ true
        → Ordered adj nodes known suffix p
    pub kept : (f p : String) → has p (value [] owners f) ≡ true → has p (value [] after f) ≡ true
    pub claimed : (f : String) → has f files ≡ true → has suffix (value [] after f) ≡ true
    pub inside : IsOwned adj nodes known after

  pub check_files-Verdict :
      (suffix : String) (files : List String) (owners : Dict (List String))
      → has suffix nodes ≡ true
      → IsOwned adj nodes known owners
      → Verdict (HasFiles suffix files owners) (check_files adj (length nodes) suffix files owners)
  unfolding check_files
  check_files-Verdict suffix [] owners h i = record {
    ordered = λ f p k. cc;
    kept = λ f p k. k;
    claimed = λ f k. cc;
    inside = i;
  }
  check_files-Verdict suffix (f ∷ files) owners h i =
      let owners' = claim owners f suffix in
      Verdict-bind
        (λ u. (p : String) → has p (value [] owners f) ≡ true → Ordered adj nodes known suffix p)
        (HasFiles suffix (f ∷ files) owners)
        (check_owners adj (length nodes) suffix f (value [] owners f))
        (λ u. check_files adj (length nodes) suffix files owners')
        (check_owners-Verdict adj nodes known suffix f (value [] owners f) h (i f))
        (λ u own.
          Verdict-map (HasFiles suffix files owners') (HasFiles suffix (f ∷ files) owners)
            (check_files adj (length nodes) suffix files owners')
            (λ after v. record {
              ordered = λ g p k l. elim (Bool-cases (str_eq g f)) [
                | inl e ↦
                    own p (subst (λ x. has p (value [] owners x) ≡ true) ((str_eq_iff g f).0 e) l)
                | inr e ↦ v.ordered g p (ground (arith, e, k)) (claim-keeps owners f suffix g p l)
              ];
              kept = λ g p k. v.kept g p (claim-keeps owners f suffix g p k);
              claimed = λ g k. elim (Bool-cases (str_eq g f)) [
                | inl e ↦
                    subst (λ x. has suffix (value [] after x) ≡ true) (sym ((str_eq_iff g f).0 e))
                      (v.kept f suffix (claim-claims owners f suffix))
                | inr e ↦ v.claimed g (ground (arith, e, k))
              ];
              inside = v.inside;
            })
            (check_files-Verdict suffix files owners' h (λ g p k.
              elim (claim-from owners f suffix g p k) [
                | inl o ↦ i g p o
                | inr e ↦ subst (λ x. has x nodes ≡ true) (sym ((str_eq_iff p suffix).0 e)) h
              ])))
