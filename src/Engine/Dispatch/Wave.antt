-- ===== src/Engine/Dispatch/Wave.antt =====
-- What holds of the stories of a wave.
use vortex_dispatch.Engine.Dispatch.{PlannedStory, filter_overlapping, has_file_conflict}
use vortex_dispatch.Engine.Tier.Attempts.{more}
use vortex_dispatch.Prelude.{
  All, All-map, All-take, Bool, Bool-cases, List, String, [], arith, false, has, has-append, inl,
  inr, select, str_eq, str_eq_iff, suc, take, true, zero, ℕ, ◌++◌, ◌∷◌, ◌≡◌,
}

-- No file is owned by both.
abbrev pub Disjoint : PlannedStory → PlannedStory → Type 0
Disjoint s t = (f : String) → has f s.owned_files ≡ true → has f t.owned_files ≡ false

abbrev pub IsApart : List PlannedStory → Type 0
IsApart [] = Unit
IsApart (s ∷ ss) = All (Disjoint s) ss × IsApart ss

abbrev IsUnclaimed : List String → PlannedStory → Type 0
IsUnclaimed claimed s = (f : String) → has f s.owned_files ≡ true → has f claimed ≡ false

no_conflict :
    (files claimed : List String)
    → has_file_conflict files claimed ≡ false
    → (f : String) → has f files ≡ true
    → has f claimed ≡ false
no_conflict [] claimed h f k = cc
no_conflict (g ∷ files) claimed h f k = elim (Bool-cases (has g claimed)) [
  | inl y ↦ absurd (ground (arith, h, y))
  | inr n ↦ elim (Bool-cases (str_eq f g)) [
    | inl e ↦ let same : f ≡ g = (str_eq_iff f g).0 e in rw same n
    | inr e ↦ no_conflict files claimed (ground (arith, h, n)) f (ground (arith, e, k))
  ]
]

IsUnclaimed-append :
    (more claimed : List String) (ss : List PlannedStory)
    → All (IsUnclaimed (claimed ++ more)) ss
    → All (IsUnclaimed claimed) ss
      × All (λ t. (f : String) → has f t.owned_files ≡ true → has f more ≡ false) ss
IsUnclaimed-append more claimed ss h = (
  All-map _ _ ss (λ t k f o. ground (arith, k f o, has-append f claimed more)) h,
  All-map _ _ ss (λ t k f o. ground (arith, k f o, has-append f claimed more)) h,
)

pub filter_overlapping-IsUnclaimed :
    (claimed : List String) (ss : List PlannedStory)
    → All (IsUnclaimed claimed) (filter_overlapping claimed ss)
      × IsApart (filter_overlapping claimed ss)
unfolding filter_overlapping
filter_overlapping-IsUnclaimed claimed [] = (tt, tt)
filter_overlapping-IsUnclaimed claimed (s ∷ ss) =
    elim (Bool-cases (has_file_conflict s.owned_files claimed)) [
      | inl y ↦ rw y (filter_overlapping-IsUnclaimed claimed ss)
      | inr n ↦
          let later = filter_overlapping-IsUnclaimed (claimed ++ s.owned_files) ss in
          let apart = IsUnclaimed-append s.owned_files claimed _ later.0 in
          rw n (
            (no_conflict s.owned_files claimed n, apart.0),
            (All-map _ _ _ (λ t k f o. swap t k f o) apart.1, later.1),
          )
    ]
  where
    swap :
        (t : PlannedStory)
        → ((f : String) → has f t.owned_files ≡ true → has f s.owned_files ≡ false)
        → Disjoint s t
    swap t k f o = elim (Bool-cases (has f t.owned_files)) [
      | inl y ↦ absurd (cc (k f y, o))
      | inr n ↦ n
    ]

pub IsApart-take : (n : ℕ) (ss : List PlannedStory) → IsApart ss → IsApart (take n ss)
IsApart-take zero ss h = tt
IsApart-take (suc n) [] h = tt
IsApart-take (suc n) (s ∷ ss) h = (All-take (Disjoint s) n ss h.0, IsApart-take n ss h.1)

-- The stories that filterOverlapping passes are among those that it is given.
pub filter-All :
    (P : PlannedStory → Type 0) (claimed : List String) (ss : List PlannedStory)
    → All P ss
    → All P (filter_overlapping claimed ss)
unfolding filter_overlapping
filter-All P claimed [] h = tt
filter-All P claimed (s ∷ ss) h = elim (Bool-cases (has_file_conflict s.owned_files claimed)) [
  | inl y ↦ rw y (filter-All P claimed ss h.1)
  | inr n ↦ rw n (h.0, filter-All P (claimed ++ s.owned_files) ss h.1)
]

pub select-All :
    (P : PlannedStory → Type 0) (p : PlannedStory → Bool) (ss : List PlannedStory)
    → All P ss
    → All P (select p ss)
select-All P p [] h = tt
select-All P p (s ∷ ss) h = elim (Bool-cases (p s)) [
  | inl y ↦ rw y (h.0, select-All P p ss h.1)
  | inr n ↦ rw n (select-All P p ss h.1)
]
