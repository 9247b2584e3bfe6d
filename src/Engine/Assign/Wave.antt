-- ===== src/Engine/Assign/Wave.antt =====
-- The projection after a wave: every story of it is assigned, and no other has moved.
use vortex_dispatch.Engine.Assign.{
  Assignment, Names, Stamp, World, assign_payload, assign_stories, assign_story, assignment_of,
  emit, new_event, spawn_payload,
}
use vortex_dispatch.Engine.Dispatch.{PlannedStory}
use vortex_dispatch.Engine.Tier.{RoutingConfig}
use vortex_dispatch.Prelude.{
  Bool, List, Option, String, [], ap, arith, false, has, if◌then◌else◌, length, length-append, map,
  none, refl, some, str_eq, str_eq_iff, true, ℕ, ◌*◌, ◌+◌, ◌∙◌, ◌∷◌, ◌≡◌, ◌≢◌,
}
use vortex_dispatch.State.Event.{agent_spawned, story_assigned, story_created}
use vortex_dispatch.State.Filter.{append, event}
use vortex_dispatch.State.Project.{apply, project, store_of}
use vortex_dispatch.State.Project.Lifecycle.{move, progress_of}
use vortex_dispatch.State.Project.Lifecycle.Refines.{project-next_progress}
use vortex_dispatch.State.Store.{StoryStatus, assigned}

-- The story keeps its tier.
abbrev pub to_assigned : StoryStatus × ℕ → StoryStatus × ℕ
to_assigned (st, tier) = (assigned, tier)

move-same : (b : Bool) (o : Option (StoryStatus × ℕ)) → move b (λ x. (x.0, x.1)) o ≡ o
move-same b none = refl
move-same true (some (st, tier)) = refl
move-same false (some (st, tier)) = refl

not_created-spawn : agent_spawned ≢ story_created
not_created-spawn h = cc

not_created-assign : story_assigned ≢ story_created
not_created-assign h = cc

move-none : (o : Option (StoryStatus × ℕ)) → o ≡ move false to_assigned o
move-none none = refl
move-none (some x) = refl

has-cons :
    (s : PlannedStory) (j : String) (ids : List String)
    → (if str_eq s.id j then true else has j ids) ≡ has j (s.id ∷ ids)
has-cons s j ids = ground (arith, str_eq_iff s.id j, str_eq_iff j s.id)

move-twice :
    (b c : Bool) (o : Option (StoryStatus × ℕ))
    → move c to_assigned (move b to_assigned o) ≡ move (if b then true else c) to_assigned o
move-twice b c none = refl
move-twice true true (some x) = refl
move-twice true false (some x) = refl
move-twice false true (some x) = refl
move-twice false false (some x) = refl

pub record IsAssigned (ss : List PlannedStory) (w w' : World) (given : List Assignment)
    : Type 0 where
  pub moved :
      (j : String)
      → progress_of w'.projection j
        ≡ move (has j (map (λ s. s.id) ss)) to_assigned (progress_of w.projection j)
  pub logged : length w'.log ≡ length w.log + 2 * length ss
  pub named : map (λ a. a.story_id) given ≡ map (λ s. s.id) ss

module _ (names : Names) (stamps : ℕ → Stamp) (cfg : RoutingConfig) (wave_number : ℕ) where
  pub assign_story-assigned :
      (counter : ℕ) (s : PlannedStory) (w : World)
      → (w' : World) × (assign_story names stamps cfg wave_number counter s w
          ≡ some (w', assignment_of names stamps cfg wave_number counter s w))
        × ((j : String)
            → progress_of w'.projection j
              ≡ move (str_eq s.id j) to_assigned (progress_of w.projection j))
        × (length w'.log ≡ length w.log + 2)
  unfolding assign_story emit project apply append
  assign_story-assigned counter s w =
      let a = assignment_of names stamps cfg wave_number counter s w in
      let first = stamps (2 * counter) in
      let second = stamps (2 * counter + 1) in
      let e1 =
        new_event first agent_spawned a.agent_id s.id
          (spawn_payload names stamps cfg wave_number a) in
      let e2 =
        new_event second story_assigned a.agent_id s.id
          (assign_payload names stamps cfg wave_number a) in
      let mid = store_of (project first.env e1 w.projection) in
      (
        record {
          log = append e2 (append e1 w.log);
          projection = store_of (project second.env e2 mid);
        },
        refl,
        λ j.
            project-next_progress second.env e2 mid j not_created-assign
            ∙ ap (move (str_eq s.id j) to_assigned) (
                project-next_progress first.env e1 w.projection j not_created-spawn
                ∙ move-same (str_eq s.id j) (progress_of w.projection j)),
        omega (
          arith,
          length-append w.log (event e1 ∷ []),
          length-append (append e1 w.log) (event e2 ∷ []),
        ),
      )

  pub assign_stories-IsAssigned :
      (counter : ℕ) (ss : List PlannedStory) (w : World)
      → (w' : World) × (given : List Assignment) × (assign_stories names stamps cfg wave_number
            counter ss w
          ≡ some (w', given))
        × IsAssigned ss w w' given
  unfolding assign_stories
  assign_stories-IsAssigned counter [] w = (
    w,
    [],
    refl,
    record {
      moved = λ j. move-none (progress_of w.projection j);
      logged = omega arith;
      named = refl;
    },
  )
  assign_stories-IsAssigned counter (s ∷ ss) w =
      let (w1, one, moved1, logged1) = assign_story-assigned (counter + 1) s w in
      let (w2, given, others, a) = assign_stories-IsAssigned (counter + 1) ss w1 in
      (
        w2,
        assignment_of names stamps cfg wave_number (counter + 1) s w ∷ given,
        rw (one, others) refl,
        record {
          moved = λ j.
              a.moved j
              ∙ ap (move (has j (map (λ s. s.id) ss)) to_assigned) (moved1 j)
              ∙ move-twice (str_eq s.id j) (has j (map (λ s. s.id) ss)) (progress_of w.projection j)
              ∙ ap (λ b. move b to_assigned (progress_of w.projection j))
                  (has-cons s j (map (λ s. s.id) ss));
          logged = omega (arith, logged1, a.logged);
          named = ap (λ ids. s.id ∷ ids) a.named;
        },
      )
