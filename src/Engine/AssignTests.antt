-- ===== src/Engine/AssignTests.antt =====
-- Runs of a whole wave, and of the rates of the tiers, with the theorems on them.
use vortex_dispatch.Engine.Assign.{
  Assignment, Dispatched, Names, Stamp, World, assign_stories, assign_story, dispatch_wave,
  dispatched, emit, new_event, refused, route_story_with_decision,
}
use vortex_dispatch.Engine.Assign.Once.{dispatch_wave-IsAssigned, dispatch_wave_once}
use vortex_dispatch.Engine.Assign.Wave.{IsAssigned}
use vortex_dispatch.Engine.Dispatch.{
  PlannedStory, auto_tag_wave_hint, check_ids, choose_wave, chosen, collect_ready,
  filter_overlapping, select_dispatchable, unsafe_id,
}
use vortex_dispatch.Engine.Rates.{
  rate_event, rate_events, resolve, resolve_cell, role_named, tier_success_rates,
}
use vortex_dispatch.Engine.Rates.Exact.{ended}
use vortex_dispatch.Engine.Rates.Result.{tier_success_rates_exact}
use vortex_dispatch.Engine.Route.{route_by_complexity, route_story}
use vortex_dispatch.Engine.Tier.{RoutingConfig}
use vortex_dispatch.Graph.{Dag, ready_nodes}
use vortex_dispatch.Prelude.{
  All, Bool, List, String, [], assign, false, has, map, none, not, refl, sort, str_eq, true, ℕ, ◌∷◌,
  ◌≡◌, ◌⊎◌,
}
use vortex_dispatch.State.Event.{
  Event, field, no_fields, num, story_completed, story_created, story_started, str,
}
use vortex_dispatch.State.Filter.{append, event}
use vortex_dispatch.State.Handlers.{Env, project_story_created, update_story}
use vortex_dispatch.State.Project.{apply, project, store_of}
use vortex_dispatch.State.Project.Lifecycle.{progress_of}
use vortex_dispatch.State.Records.{project_agent_spawned}
use vortex_dispatch.State.Store.{empty_store}
use vortex_dispatch.State.Table.{insert_row, update_where}

abbrev routing : RoutingConfig
routing = record {
  junior_max_complexity = 3;
  intermediate_max_complexity = 5;
  max_retries_before_escalation = 2;
  max_senior_retries = 2;
  max_manager_attempts = 2;
  adaptive = false;
  adaptive_min_samples = 0;
}

abbrev planned_story : String → List String → PlannedStory
planned_story id files = record {
  id = id;
  title = "";
  description = "";
  acceptance_criteria = "";
  complexity = 1;
  depends_on = [];
  owned_files = files;
  wave_hint = "";
}

abbrev stories : List PlannedStory
stories = planned_story "a" ("x.go" ∷ []) ∷ planned_story "b" ("x.go" ∷ []) ∷ []

abbrev dag : Dag
dag = record { nodes = "a" ∷ "b" ∷ []; edges = [] }

abbrev env : Env
env = record { now = 1; fresh_id = "f" }

abbrev stamps : ℕ → Stamp
stamps n = record { id = "e"; time = n; env = env }

abbrev names : Names
names = record {
  agent_id = λ role n. "agent";
  session = λ role n. "session";
  runtime = λ role. "runtime";
  branch = λ id. id;
}

abbrev created : Event
created = new_event (stamps 0) story_created "" "a" (field "id" (str "a") no_fields)

-- The projection knows the story "a", and not "b".
abbrev world : World
world = record { log = event created ∷ []; projection = store_of (project env created empty_store) }

abbrev is_safe : String → Bool
is_safe id = not (str_eq id "")

abbrev dispatch : Dispatched
dispatch =
    dispatch_wave str_eq (λ file. file) is_safe [] names stamps routing 0 1 dag [] stories world

abbrev world_of : Dispatched → World
world_of (dispatched w given) = w
world_of _ = world

abbrev given_of : Dispatched → List Assignment
given_of (dispatched w given) = given
given_of _ = []

program : Unit {0}
unfolding dispatch_wave assign_stories assign_story emit route_story_with_decision choose_wave
    check_ids auto_tag_wave_hint select_dispatchable filter_overlapping collect_ready ready_nodes
    sort mathlib.Core.Bool.decide project apply append route_story route_by_complexity
    project_story_created insert_row update_story update_where project_agent_spawned
program = tt

dispatched_a : dispatch ≡ dispatched (world_of dispatch) (given_of dispatch)
unfolding program
dispatched_a = refl

-- The other story, which had to wait for the file, is next.
next_wave :
    choose_wave str_eq (λ file. file) is_safe [] 0 (world_of dispatch).projection dag [] stories
    ≡ chosen (record (planned_story "b" ("x.go" ∷ [])) { wave_hint = "parallel" } ∷ [])
unfolding program
next_wave = refl

dispatch_wave-IsAssigned_example :
    ((id : String) × (choose_wave str_eq (λ file. file) is_safe [] 0 world.projection dag [] stories
        ≡ unsafe_id id)
      × (dispatch ≡ refused id))
    ⊎ ((wave : List PlannedStory) × (w' : World) × (given : List Assignment) × (choose_wave str_eq
            (λ file. file)
            is_safe
            []
            0
            world.projection
            dag
            []
            stories
          ≡ chosen wave)
        × (dispatch ≡ dispatched w' given)
        × IsAssigned wave world w' given)
dispatch_wave-IsAssigned_example =
    dispatch_wave-IsAssigned str_eq (λ file. file) is_safe [] names stamps routing 0 1 dag []
      stories world

dispatch_wave_once_example :
    All
      (λ s.
        has s.id (map (λ a. a.story_id) (given_of dispatch)) ≡ true
        → progress_of world.projection s.id ≡ none)
      (record (planned_story "b" ("x.go" ∷ [])) { wave_hint = "parallel" } ∷ [])
dispatch_wave_once_example =
    dispatch_wave_once str_eq (λ file. file) is_safe [] names stamps routing 0 1 dag [] stories
      world (world_of dispatch) (given_of dispatch) 0 dag [] stories _ dispatched_a next_wave

-- A junior starts a story of complexity 3, and it passes.
abbrev history : List Event
history =
    new_event (stamps 1) story_created "" "s" (field "complexity" (num 3) no_fields)
    ∷ new_event (stamps 2) story_started "" "s" (field "role" (str "junior") no_fields)
    ∷ new_event (stamps 3) story_completed "" "s" no_fields
    ∷ []

tier_success_rates_exact_example :
    ((tier_success_rates history 0 3).successes ≡ ended true 0 3 [] history)
    × ((tier_success_rates history 0 3).failures ≡ ended false 0 3 [] history)
tier_success_rates_exact_example = tier_success_rates_exact history 0 3

junior_passed : (tier_success_rates history 0 3).successes ≡ 1
unfolding tier_success_rates rate_events rate_event resolve resolve_cell role_named assign
junior_passed = refl
