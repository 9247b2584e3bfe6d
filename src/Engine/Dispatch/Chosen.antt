-- ===== src/Engine/Dispatch/Chosen.antt =====
-- The wave that the dispatcher chooses.
use vortex_dispatch.Engine.Dispatch.{
  PlannedStory, collect_ready, is_sequential, planned_as, select_dispatchable, story_dispatchable,
}
use vortex_dispatch.Engine.Dispatch.Wave.{
  IsApart, filter-All, filter_overlapping-IsUnclaimed, select-All,
}
use vortex_dispatch.Prelude.{
  All, All-map, Bool, Bool-cases, List, List-cases, Option-cases, String, [], ap, arith, false, has,
  inl, inr, length, not, select, some, str_eq, str_eq_iff, str_eq_refl, subst, true, ℕ, ◌<◌, ◌∙◌,
  ◌∷◌, ◌≡◌, ◌≤◌, ◌⊎◌,
}
use vortex_dispatch.State.Store.{Store}

planned_as-id :
    (id : String) (ss : List PlannedStory) (s : PlannedStory)
    → planned_as id ss ≡ some s
    → s.id ≡ id
planned_as-id id [] s h = cc
planned_as-id id (t ∷ ss) s h = elim (Option-cases (planned_as id ss)) [
  | inl absent ↦ elim (Bool-cases (str_eq t.id id)) [
    | inl y ↦
        let found : planned_as id (t ∷ ss) ≡ some t = rw (absent, planned_as, y) in
        cc (found, h, (str_eq_iff t.id id).0 y)
    | inr n ↦ absurd (ground (arith, h, absent, n))
  ]
  | inr (u, there) ↦
      let found : planned_as id (t ∷ ss) ≡ some u = rw (there, planned_as) in
      let seen : u ≡ s = cc (found, h) in planned_as-id id ss s (there ∙ ap some seen)
]

-- A story of the wave is ready in the graph, and may start.
abbrev pub IsStartable : Store → List String → PlannedStory → Type 0
IsStartable projection ids s = (has s.id ids ≡ true) × (story_dispatchable projection s.id ≡ true)

pub collect_ready-IsStartable :
    (projection : Store) (stories : List PlannedStory) (ids : List String)
    → All (IsStartable projection ids) (collect_ready projection stories ids)
unfolding collect_ready
collect_ready-IsStartable projection stories [] = tt
collect_ready-IsStartable projection stories (id ∷ ids) =
    let others =
      All-map _ (IsStartable projection (id ∷ ids)) _ (λ s k. (ground (arith, k.0), k.1))
        (collect_ready-IsStartable projection stories ids) in
    elim (Bool-cases (story_dispatchable projection id)) [
      | inl y ↦ elim (Option-cases (planned_as id stories)) [
        | inl absent ↦ rw (collect_ready, y, absent) others
        | inr (s, there) ↦
            let named : s.id ≡ id = planned_as-id id stories s there in
            rw (collect_ready, y, there) ((rw (named, str_eq_refl id), rw (named, y)), others)
      ]
      | inr n ↦ rw (collect_ready, n) others
    ]

pub record IsWave (limit : ℕ) (projection : Store) (ids : List String) (is_safe_id : String → Bool)
    (wave : List PlannedStory) : Type 0 where
  pub apart : IsApart wave
  pub alone : All (λ s. is_sequential s ≡ false) wave ⊎ (length wave ≤ 1)
  pub startable : All (IsStartable projection ids) wave
  pub safe : All (λ s. is_safe_id s.id ≡ true) wave
  pub within_limit : 0 < limit → length wave ≤ limit

select-false :
    (p : PlannedStory → Bool) (ss : List PlannedStory)
    → All (λ s. p s ≡ false) (select (λ s. not (p s)) ss)
select-false p [] = tt
select-false p (s ∷ ss) = elim (Bool-cases (p s)) [
  | inl y ↦ rw y (select-false p ss)
  | inr n ↦ rw n (n, select-false p ss)
]

pub select_dispatchable-All :
    (P : PlannedStory → Type 0) (ready : List PlannedStory)
    → All P ready
    → All P (select_dispatchable ready)
unfolding select_dispatchable
select_dispatchable-All P ready h = elim (List-cases (select is_sequential ready)) [
  | inl none_there ↦
      rw (none_there, select_dispatchable)
        (filter-All P [] _ (select-All P (λ s. not (is_sequential s)) ready h))
  | inr (s, others, there) ↦
      rw (there, select_dispatchable)
        ((subst (All P) there (select-All P is_sequential ready h)).0, tt)
]

pub select_dispatchable-IsApart : (ready : List PlannedStory) → IsApart (select_dispatchable ready)
unfolding select_dispatchable
select_dispatchable-IsApart ready = elim (List-cases (select is_sequential ready)) [
  | inl none_there ↦ rw (none_there, select_dispatchable) (filter_overlapping-IsUnclaimed [] _).1
  | inr (s, others, there) ↦ rw (there, select_dispatchable) (tt, tt)
]

pub select_dispatchable-alone :
    (ready : List PlannedStory)
    → All (λ s. is_sequential s ≡ false) (select_dispatchable ready)
      ⊎ (length (select_dispatchable ready) ≤ 1)
unfolding select_dispatchable
select_dispatchable-alone ready = elim (List-cases (select is_sequential ready)) [
  | inl none_there ↦
      rw (none_there, select_dispatchable)
        (inl (filter-All _ [] _ (select-false is_sequential ready)))
  | inr (s, others, there) ↦ rw (there, select_dispatchable) (inr (omega arith))
]
