-- ===== src/Engine/Dispatch/Left.antt =====
-- Why a ready story is left for a later wave.
use vortex_dispatch.Engine.Dispatch.{
  PlannedStory, cap, choose_wave, chosen, collect_ready, is_sequential, planned_as,
  select_dispatchable, story_dispatchable,
}
use vortex_dispatch.Engine.Dispatch.Greedy.{Claims, IsIn, files_of, filter_overlapping-settles}
use vortex_dispatch.Engine.Dispatch.Result.{check_ids-chosen, tag}
use vortex_dispatch.Graph.{Dag, ready_nodes}
use vortex_dispatch.Prelude.{
  All, Bool, Bool-cases, List, List-cases, Option-cases, String, [], ap, arith, has, inl, inr,
  length, ltb, map, not, refl, select, some, str_eq, str_eq_iff, subst, suc, sym, take, true, zero,
  ℕ, ◌&&◌, ◌<◌, ◌∙◌, ◌∷◌, ◌≡◌, ◌≤◌, ◌⊎◌,
}
use vortex_dispatch.State.Store.{Store}

IsIn-All :
    (P : PlannedStory → Type 0) (s : PlannedStory) (ss : List PlannedStory)
    → IsIn s ss
    → All P ss
    → P s
IsIn-All P s [] i h = absurd i
IsIn-All P s (t ∷ ts) (inl e) h = subst P (sym e) h.0
IsIn-All P s (t ∷ ts) (inr i) h = IsIn-All P s ts i h.1

IsIn-map :
    (f : PlannedStory → PlannedStory) (s : PlannedStory) (ss : List PlannedStory)
    → IsIn s ss
    → IsIn (f s) (map f ss)
IsIn-map f s [] i = absurd i
IsIn-map f s (t ∷ ts) (inl e) = inl (ap f e)
IsIn-map f s (t ∷ ts) (inr i) = inr (IsIn-map f s ts i)

collect_ready-IsIn :
    (projection : Store) (stories : List PlannedStory) (ids : List String) (id : String)
    (s : PlannedStory)
    → has id ids ≡ true
    → story_dispatchable projection id ≡ true
    → planned_as id stories ≡ some s
    → IsIn s (collect_ready projection stories ids)
unfolding collect_ready
collect_ready-IsIn projection stories [] id s h d p = cc
collect_ready-IsIn projection stories (i ∷ ids) id s h d p = elim (Bool-cases (str_eq id i)) [
  | inl y ↦
      subst (λ k. IsIn s (collect_ready projection stories (k ∷ ids))) ((str_eq_iff id i).0 y)
        (rw (collect_ready, d, p) (inl refl))
  | inr n ↦
      let later = collect_ready-IsIn projection stories ids id s (ground (arith, h, n)) d p in
      elim (Bool-cases (story_dispatchable projection i)) [
        | inl may ↦ elim (Option-cases (planned_as i stories)) [
          | inl absent ↦ rw (may, absent) later
          | inr (t, there) ↦ rw (may, there) (inr later)
        ]
        | inr started ↦ rw started later
      ]
]

-- Where no story is sequential, all are parallel.
select-rest :
    (ss : List PlannedStory)
    → select is_sequential ss ≡ []
    → select (λ s. not (is_sequential s)) ss ≡ ss
select-rest [] h = refl
select-rest (s ∷ ss) h = elim (Bool-cases (is_sequential s)) [
  | inl y ↦ absurd (ground (arith, h, y))
  | inr n ↦ ground (arith, h, n, select-rest ss)
]

abbrev AllSequential : List PlannedStory → Type 0
AllSequential ss = All (λ s. is_sequential s ≡ true) ss

select-all : (ss : List PlannedStory) → AllSequential (select is_sequential ss)
select-all [] = tt
select-all (s ∷ ss) = elim (Bool-cases (is_sequential s)) [
  | inl y ↦ rw y (y, select-all ss)
  | inr n ↦ rw n (select-all ss)
]

-- The wave is one sequential story.
abbrev pub IsSequentialWave : List PlannedStory → Type 0
IsSequentialWave wave = (t : PlannedStory) × (wave ≡ t ∷ []) × (is_sequential t ≡ true)

abbrev pub IsFull : ℕ → List PlannedStory → Type 0
IsFull limit wave = (0 < limit) × (length wave ≡ limit)

-- Every story of the list is in the wave, or shares a file with a story of it.
abbrev IsGreedy : List PlannedStory → List PlannedStory → Type 0
IsGreedy ready wave = All (λ s. IsIn s wave ⊎ Claims (files_of wave) s) ready

select_dispatchable-IsGreedy :
    (ready : List PlannedStory)
    → IsGreedy ready (select_dispatchable ready) ⊎ IsSequentialWave (select_dispatchable ready)
unfolding select_dispatchable
select_dispatchable-IsGreedy ready = elim (List-cases (select is_sequential ready)) [
  | inl parallel ↦ inl (
      rw (select_dispatchable, parallel, select-rest ready parallel)
        (filter_overlapping-settles [] ready))
  | inr (t, ts, e) ↦
      inr (t, rw (select_dispatchable, e) refl, (subst AllSequential e (select-all ready)).0)
]

length-take-full : (n : ℕ) (ss : List PlannedStory) → n ≤ length ss → length (take n ss) ≡ n
length-take-full zero ss h = refl
length-take-full (suc n) [] h = absurd (omega (arith, h))
length-take-full (suc n) (s ∷ ss) h = omega (arith, length-take-full n ss (omega (arith, h)))

cap-cases : (limit : ℕ) (ss : List PlannedStory) → (cap limit ss ≡ ss) ⊎ IsFull limit (cap limit ss)
cap-cases limit ss = elim (Bool-cases (ltb 0 limit && ltb limit (length ss))) [
  | inl y ↦ inr (ground (arith, y), rw y (length-take-full limit ss (ground (arith, y))))
  | inr n ↦ inl (rw n refl)
]

module _ (path_match : String → String → Bool) (base : String → String) (is_safe_id : String → Bool)
    (patterns : List String) where
  abbrev tagged : PlannedStory → PlannedStory
  tagged = tag path_match base is_safe_id patterns

  -- If DispatchWave chooses a wave, then no story that could start is left out without a reason:
  -- the story that is planned for a ready id, not started according to the projection, and tagged
  -- with its hint, is in the wave or owns a file that a story of the wave owns; unless the wave is
  -- one sequential story, or it has as many stories as the limit on agents allows.
  pub choose_wave_greedy :
      (limit : ℕ) (projection : Store) (dag : Dag) (finished : List String)
      (stories wave : List PlannedStory) (id : String) (s : PlannedStory)
      → choose_wave path_match base is_safe_id patterns limit projection dag finished stories
        ≡ chosen wave
      → has id (ready_nodes dag finished) ≡ true
      → story_dispatchable projection id ≡ true
      → planned_as id stories ≡ some s
      → (IsIn (tagged s) wave ⊎ Claims (files_of wave) (tagged s))
        ⊎ (IsSequentialWave wave ⊎ IsFull limit wave)
  unfolding choose_wave
  choose_wave_greedy limit projection dag finished stories wave id s h ready_id may plan =
      let ready = map tagged (collect_ready projection stories (ready_nodes dag finished)) in
      let wave_is =
        (check_ids-chosen path_match base is_safe_id patterns limit ready ready wave h).0 in
      let there : IsIn (tagged s) ready =
        IsIn-map tagged s _ (
          collect_ready-IsIn projection stories (ready_nodes dag finished) id s ready_id may
            plan) in
      elim (cap-cases limit (select_dispatchable ready)) [
        | inr full ↦ inr (inr (subst (IsFull limit) (sym wave_is) full))
        | inl all ↦ elim (select_dispatchable-IsGreedy ready) [
          | inl greedy ↦ inl (
              IsIn-All _ (tagged s) ready there
                (subst (IsGreedy ready) (sym (wave_is ∙ all)) greedy))
          | inr alone ↦ inr (inl (subst IsSequentialWave (sym (wave_is ∙ all)) alone))
        ]
      ]
