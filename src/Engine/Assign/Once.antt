-- ===== src/Engine/Assign/Once.antt =====
-- A story that a wave has assigned is in no later wave.
use mathlib.Core.Option
use vortex_dispatch.Engine.Assign.{
  Assignment, Dispatched, Names, Stamp, World, dispatch_wave, dispatched, not_projected, refused,
}
use vortex_dispatch.Engine.Assign.Wave.{IsAssigned, assign_stories-IsAssigned, to_assigned}
use vortex_dispatch.Engine.Dispatch.{
  Choice, PlannedStory, choose_wave, chosen, may_start, story_dispatchable, unsafe_id,
}
use vortex_dispatch.Engine.Dispatch.Chosen.{IsStartable}
use vortex_dispatch.Engine.Dispatch.Result.{choose_wave-IsWave}
use vortex_dispatch.Engine.Tier.{RoutingConfig}
use vortex_dispatch.Graph.{Dag, ready_nodes}
use vortex_dispatch.Prelude.{
  All, All-map, Bool, List, Option, Option-cases, String, ap, false, has, inl, inr, map, none, refl,
  some, subst, sym, true, ℕ, ◌∙◌, ◌≡◌, ◌≢◌, ◌⊎◌,
}
use vortex_dispatch.State.Project.Lifecycle.{move, progress_of, rows_progress-find}
use vortex_dispatch.State.Store.{Store, StoryStatus, get_story}

known_dispatchable :
    (s : Store) (j : String)
    → story_dispatchable s j ≡ elim (progress_of s j) [ none ↦ true | some x ↦ may_start x.0 ]
known_dispatchable s j = rw (rows_progress-find j s.stories) (elim (Option-cases (get_story s j)) [
  | inl absent ↦ rw (absent, story_dispatchable, Option.map) refl
  | inr (r, there) ↦ rw (there, story_dispatchable, Option.map) refl
])

assigned_not_dispatchable :
    (o : Option (StoryStatus × ℕ)) (s : Store) (j : String)
    → o ≢ none
    → progress_of s j ≡ move true to_assigned o
    → story_dispatchable s j ≡ false
assigned_not_dispatchable none s j known h = absurd (known refl)
assigned_not_dispatchable (some x) s j known h =
    known_dispatchable s j ∙ ap (λ o. elim o [ none ↦ true | some y ↦ may_start y.0 ]) h

Choice-cases :
    (c : Choice)
    → ((id : String) × (c ≡ unsafe_id id)) ⊎ ((wave : List PlannedStory) × (c ≡ chosen wave))
Choice-cases (unsafe_id id) = inl (id, refl)
Choice-cases (chosen wave) = inr (wave, refl)

later_unknown :
    (wave : List PlannedStory) (w w' : World) (given : List Assignment) (ids : List String)
    (s : PlannedStory)
    → IsAssigned wave w w' given
    → IsStartable w'.projection ids s
    → has s.id (map (λ a. a.story_id) given) ≡ true
    → progress_of w.projection s.id ≡ none
later_unknown wave w w' given ids s a startable again =
    elim (Option-cases (progress_of w.projection s.id)) [
      | inl absent ↦ absent
      | inr (x, there) ↦
          let moved : progress_of w'.projection s.id
              ≡ move true to_assigned (progress_of w.projection s.id) =
            a.moved s.id
            ∙ ap (λ b. move b to_assigned (progress_of w.projection s.id))
                (ap (has s.id) (sym a.named) ∙ again) in
          let stopped =
            assigned_not_dispatchable (progress_of w.projection s.id) w'.projection s.id
              (λ e. absurd (cc (e, there))) moved in
          absurd (cc (stopped, startable.1))
    ]

module _ (path_match : String → String → Bool) (base : String → String) (is_safe_id : String → Bool)
    (patterns : List String) (names : Names) (stamps : ℕ → Stamp) (cfg : RoutingConfig)
    (limit wave_number : ℕ) (dag : Dag) (finished : List String) (stories : List PlannedStory)
    (w : World) where
  -- DispatchWave ends in one of two ways. A story that is ready has an unsafe id, and it writes
  -- nothing; or it assigns the chosen wave, in order: every story of it that the projection knows
  -- is assigned and keeps its tier, every other story is as before, and the log is longer by two
  -- events for each story. The projection refuses none of these events.
  pub dispatch_wave-IsAssigned :
      ((id : String) × (choose_wave path_match base is_safe_id patterns limit w.projection dag
            finished stories
          ≡ unsafe_id id)
        × (dispatch_wave path_match base is_safe_id patterns names stamps cfg limit wave_number dag
              finished stories w
            ≡ refused id))
      ⊎ ((wave : List PlannedStory) × (w' : World) × (given : List Assignment) × (choose_wave
              path_match base is_safe_id patterns limit w.projection dag finished stories
            ≡ chosen wave)
          × (dispatch_wave path_match base is_safe_id patterns names stamps cfg limit wave_number
                dag finished stories w
              ≡ dispatched w' given)
          × IsAssigned wave w w' given)
  unfolding dispatch_wave
  dispatch_wave-IsAssigned =
      elim (Choice-cases
        (choose_wave path_match base is_safe_id patterns limit w.projection dag finished stories)) [
          | inl (id, bad) ↦ inl (id, bad, rw (dispatch_wave, bad) refl)
          | inr (wave, good) ↦
              let (w', given, ran, a) =
                assign_stories-IsAssigned names stamps cfg wave_number 0 wave w in
              inr (wave, w', given, good, rw (dispatch_wave, good, ran) refl, a)
        ]

  abbrev IsAssignedBy : List PlannedStory → World → Dispatched → Type 0
  IsAssignedBy wave u (refused id) = Unit
  IsAssignedBy wave u not_projected = Unit
  IsAssignedBy wave u (dispatched u' given) = IsAssigned wave u u' given

  -- After a wave, a wave that is chosen from the projection that it left, whatever the graph and the
  -- plan are, has no story of the former wave that the projection knew.
  pub dispatch_wave_once :
      (w' : World) (given : List Assignment) (limit' : ℕ) (dag' : Dag) (finished' : List String)
      (stories' later : List PlannedStory)
      → dispatch_wave path_match base is_safe_id patterns names stamps cfg limit wave_number dag
          finished stories w
        ≡ dispatched w' given
      → choose_wave path_match base is_safe_id patterns limit' w'.projection dag' finished' stories'
        ≡ chosen later
      → All
          (λ s.
            has s.id (map (λ a. a.story_id) given) ≡ true → progress_of w.projection s.id ≡ none)
          later
  dispatch_wave_once w' given limit' dag' finished' stories' later h later_chosen =
      elim dispatch_wave-IsAssigned [
        | inl (id, bad, stopped) ↦ absurd (cc (stopped, h))
        | inr (wave, u, given', good, ran, a) ↦
            All-map _ _ later
              (λ s k.
                later_unknown wave w w' given (ready_nodes dag' finished') s
                  (subst (IsAssignedBy wave w) (sym ran ∙ h) a) k)
              (choose_wave-IsWave path_match base is_safe_id patterns limit' w'.projection dag'
                finished' stories' later later_chosen).startable
      ]
