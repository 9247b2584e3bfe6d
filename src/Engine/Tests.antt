-- ===== src/Engine/Tests.antt =====
-- Runs of the engine's decisions, and the theorems on them.
use vortex_dispatch.Engine.Dispatch.{
  Choice, PlannedStory, auto_tag_wave_hint, check_ids, choose_wave, chosen, collect_ready,
  filter_overlapping, select_dispatchable, story_dispatchable,
}
use vortex_dispatch.Engine.Dispatch.Chosen.{IsWave}
use vortex_dispatch.Engine.Dispatch.Greedy.{Claims, IsIn, files_of}
use vortex_dispatch.Engine.Dispatch.Left.{IsFull, IsSequentialWave, choose_wave_greedy}
use vortex_dispatch.Engine.Dispatch.Result.{choose_wave-IsWave, tag}
use vortex_dispatch.Engine.Route.{
  TierOutcome, demote, recommend_tier, role_for_route_tier, role_junior, role_senior,
  route_by_complexity, route_story,
}
use vortex_dispatch.Engine.Route.Recommend.{IsDemoted, IsKept, IsPromoted, recommend_tier_justified}
use vortex_dispatch.Engine.Tier.{
  RoutingConfig, current_tier, file_store, last_escalation_time, latest, latest_reset_time,
  max_retries_for_tier, max_tier, retry_count_at_current_tier, should_escalate,
}
use vortex_dispatch.Engine.Tier.Attempts.{IsChronological, history}
use vortex_dispatch.Engine.Tier.Exact.{decision, should_escalate_exact}
use vortex_dispatch.Graph.{Dag, ready_nodes}
use vortex_dispatch.Prelude.{
  List, String, [], arith, false, has, not, refl, some, sort, str_eq, suc, true, zero, ℕ, ◌++◌, ◌∷◌,
  ◌≡◌, ◌≤◌, ◌⊎◌,
}
use vortex_dispatch.State.Event.{
  Event, EventType, EventType-discrete, Fields, field, no_fields, num, story_escalated,
  story_qa_failed, story_reset, story_review_failed,
}
use vortex_dispatch.State.Filter.{
  Line, count_events, count_lines, event, list_events, passes, read_and_filter,
}
use vortex_dispatch.State.Filter.Laws.{events_of}
use vortex_dispatch.State.Store.{empty_store}

abbrev event_at : ℕ → EventType → Fields → Event
event_at time ty p = record {
  id = "e";
  type = ty;
  timestamp = time;
  agent_id = "";
  story_id = "s";
  payload = some p;
}

abbrev routing : RoutingConfig
routing = record {
  junior_max_complexity = 3;
  intermediate_max_complexity = 5;
  max_retries_before_escalation = 2;
  max_senior_retries = 2;
  max_manager_attempts = 2;
  adaptive = true;
  adaptive_min_samples = 0;
}

abbrev raised : Line
raised = event (event_at 3 story_escalated (field "to_tier" (num 1) no_fields))

-- Two failures, an escalation to tier 1, a failure there.
abbrev failing : List Line
failing =
    event (event_at 1 story_review_failed no_fields)
    ∷ event (event_at 2 story_qa_failed no_fields)
    ∷ raised
    ∷ event (event_at 4 story_qa_failed no_fields)
    ∷ []

abbrev after_reset : List Line
after_reset = failing ++ event (event_at 5 story_reset no_fields) ∷ []

abbrev planned_story : String → List String → String → PlannedStory
planned_story id files hint = record {
  id = id;
  title = "";
  description = "";
  acceptance_criteria = "";
  complexity = 1;
  depends_on = [];
  owned_files = files;
  wave_hint = hint;
}

-- "b" shares a file with "a".
abbrev stories : List PlannedStory
stories =
    planned_story "a" ("x.go" ∷ []) ""
    ∷ planned_story "b" ("y.go" ∷ "x.go" ∷ []) ""
    ∷ planned_story "c" ("z.go" ∷ []) "parallel"
    ∷ []

abbrev b_planned : PlannedStory
b_planned = planned_story "b" ("y.go" ∷ "x.go" ∷ []) ""

abbrev dag : Dag
dag = record { nodes = "c" ∷ "a" ∷ "b" ∷ []; edges = [] }

abbrev choose : String → ℕ → Choice
choose pattern limit =
    choose_wave str_eq (λ file. file) (λ id. not (str_eq id "")) (pattern ∷ []) limit empty_store
      dag [] stories

program : Unit {0}
unfolding latest latest_reset_time max_tier current_tier last_escalation_time
    retry_count_at_current_tier max_retries_for_tier should_escalate list_events count_events
    read_and_filter count_lines passes EventType-discrete choose_wave check_ids auto_tag_wave_hint
    select_dispatchable filter_overlapping collect_ready ready_nodes sort mathlib.Core.Bool.decide
program = tt

stays : should_escalate (file_store failing) routing "s" ≡ some (false, 1)
unfolding program
stays = refl

starts_again : should_escalate (file_store after_reset) routing "s" ≡ some (false, 0)
unfolding program
starts_again = refl

failing-IsChronological : IsChronological "s" 0 (events_of failing)
failing-IsChronological = (omega arith, (omega arith, (omega arith, (omega arith, tt))))

should_escalate_exact_example :
    should_escalate (file_store failing) routing "s"
    ≡ some (decision routing (history "s" (events_of failing) (0, 0)))
should_escalate_exact_example =
    should_escalate_exact "s" routing failing refl failing-IsChronological

abbrev first_wave : List PlannedStory
first_wave =
    planned_story "a" ("x.go" ∷ []) "parallel" ∷ planned_story "c" ("z.go" ∷ []) "parallel" ∷ []

parallel_wave : choose "go.mod" 0 ≡ chosen first_wave
unfolding program
parallel_wave = refl

-- A story that owns a sequential file runs alone.
sequential_wave :
    choose "y.go" 0 ≡ chosen (planned_story "b" ("y.go" ∷ "x.go" ∷ []) "sequential" ∷ [])
unfolding program
sequential_wave = refl

choose_wave-IsWave_example :
    IsWave 0 empty_store (ready_nodes dag []) (λ id. not (str_eq id "")) first_wave
choose_wave-IsWave_example =
    choose_wave-IsWave str_eq (λ file. file) (λ id. not (str_eq id "")) ("go.mod" ∷ []) 0
      empty_store dag [] stories first_wave parallel_wave

b_may : story_dispatchable empty_store "b" ≡ true
b_may = refl

b_ready : has "b" (ready_nodes dag []) ≡ true
unfolding program
b_ready = refl

abbrev b_tagged : PlannedStory
b_tagged = tag str_eq (λ file. file) (λ id. not (str_eq id "")) ("go.mod" ∷ []) b_planned

-- The story b shares a file with a, which is in the wave.
choose_wave_greedy_example :
    (IsIn b_tagged first_wave ⊎ Claims (files_of first_wave) b_tagged)
    ⊎ (IsSequentialWave first_wave ⊎ IsFull 0 first_wave)
choose_wave_greedy_example =
    choose_wave_greedy str_eq (λ file. file) (λ id. not (str_eq id "")) ("go.mod" ∷ []) 0
      empty_store dag [] stories first_wave "b" b_planned parallel_wave b_ready b_may refl

-- Of six attempts of a junior at complexity 5 five succeeded.
abbrev rates : ℕ → ℕ → TierOutcome
rates zero complexity = record { successes = 5; failures = 1 }
rates (suc tier) complexity = record { successes = 0; failures = 0 }

route_program : Unit {0}
unfolding recommend_tier demote route_by_complexity route_story
route_program = tt

junior_trusted : recommend_tier rates routing 5 ≡ some role_junior
unfolding route_program
junior_trusted = refl

recommend_tier_justified_example :
    (t : ℕ) × (t ≤ 2)
    × (recommend_tier rates routing 5 ≡ role_for_route_tier t)
    × (IsDemoted rates routing 5 t ⊎ (IsPromoted rates routing 5 t ⊎ IsKept rates routing 5 t))
recommend_tier_justified_example = recommend_tier_justified rates routing 5 refl

-- A story that was escalated before its reset is still routed to the senior role.
reset_still_senior :
    route_story (file_store after_reset) routing (planned_story "s" [] "") ≡ role_senior
unfolding route_program program
reset_still_senior = refl
