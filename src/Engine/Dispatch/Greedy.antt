-- ===== src/Engine/Dispatch/Greedy.antt =====
-- Why a parallel story is left for a later wave.
use vortex_dispatch.Engine.Dispatch.{PlannedStory, filter_overlapping, has_file_conflict}
use vortex_dispatch.Prelude.{
  All, All-map, Bool-cases, List, String, [], ap, append_assoc, arith, false, has, has-append,
  has_head, inl, inr, refl, subst, sym, true, ◌++◌, ◌∙◌, ◌∷◌, ◌≡◌, ◌⊎◌,
}

abbrev pub IsIn : PlannedStory → List PlannedStory → Type 0
IsIn s [] = ⊥
IsIn s (t ∷ ts) = (s ≡ t) ⊎ IsIn s ts

-- The story owns a file of the list.
abbrev pub Claims : List String → PlannedStory → Type 0
Claims claimed s = (f : String) × (has f s.owned_files ≡ true) × (has f claimed ≡ true)

abbrev pub files_of : List PlannedStory → List String
files_of [] = []
files_of (s ∷ ss) = s.owned_files ++ files_of ss

conflict-file :
    (files claimed : List String)
    → has_file_conflict files claimed ≡ true
    → (f : String) × (has f files ≡ true) × (has f claimed ≡ true)
conflict-file [] claimed h = cc
conflict-file (g ∷ files) claimed h = elim (Bool-cases (has g claimed)) [
  | inl y ↦ (g, has_head g files, y)
  | inr n ↦
      let found = conflict-file files claimed (ground (arith, h, n)) in
      (found.0, ground (arith, found.1), found.2)
]

abbrev pub IsSettled : List String → List PlannedStory → PlannedStory → Type 0
IsSettled claimed kept s = IsIn s kept ⊎ Claims (claimed ++ files_of kept) s

filter-skip :
    (claimed : List String) (s : PlannedStory) (ss : List PlannedStory)
    → has_file_conflict s.owned_files claimed ≡ true
    → filter_overlapping claimed ss ≡ filter_overlapping claimed (s ∷ ss)
unfolding filter_overlapping
filter-skip claimed s ss h = rw h

filter-keep :
    (claimed : List String) (s : PlannedStory) (ss : List PlannedStory)
    → has_file_conflict s.owned_files claimed ≡ false
    → s ∷ filter_overlapping (claimed ++ s.owned_files) ss ≡ filter_overlapping claimed (s ∷ ss)
unfolding filter_overlapping
filter-keep claimed s ss h = rw h

pub filter_overlapping-settles :
    (claimed : List String) (ss : List PlannedStory)
    → All (IsSettled claimed (filter_overlapping claimed ss)) ss
filter_overlapping-settles claimed [] = tt
filter_overlapping-settles claimed (s ∷ ss) =
    elim (Bool-cases (has_file_conflict s.owned_files claimed)) [
      | inl y ↦
          let found = conflict-file s.owned_files claimed y in
          let there = files_of (filter_overlapping claimed ss) in
          subst (λ kept. All (IsSettled claimed kept) (s ∷ ss)) (filter-skip claimed s ss y)
            (
              inr (found.0, found.1, ground (arith, found.2, has-append found.0 claimed there)),
              filter_overlapping-settles claimed ss,
            )
      | inr n ↦
          subst (λ kept. All (IsSettled claimed kept) (s ∷ ss)) (filter-keep claimed s ss n)
            (
              inl (inl refl),
              All-map _ _ ss (λ t k. later (filter_overlapping (claimed ++ s.owned_files) ss) t k)
                  (filter_overlapping-settles (claimed ++ s.owned_files) ss),
            )
    ]
  where
    later :
        (kept : List PlannedStory) (t : PlannedStory)
        → IsSettled (claimed ++ s.owned_files) kept t
        → IsSettled claimed (s ∷ kept) t
    later kept t (inl i) = inl (inr i)
    later kept t (inr c) =
        inr
          (c.0, c.1, ap (has c.0) (sym (append_assoc claimed s.owned_files (files_of kept))) ∙ c.2)
