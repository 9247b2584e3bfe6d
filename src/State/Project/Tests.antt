-- ===== src/State/Project/Tests.antt =====
-- A small log, what the projection makes of it, and the theorems on it.
use vortex_dispatch.Prelude.{
  List, String, [], assign, length, map, refl, select, some, true, ◌∷◌, ◌≡◌, ◌≢◌,
}
use vortex_dispatch.State.Event.{
  Event, EventType, EventType-discrete, Fields, arr, field, item, no_fields, no_items, num,
  req_submitted, story_cost_recorded, story_created, story_escalated, story_merged, story_started,
  str,
}
use vortex_dispatch.State.Filter.{
  EventFilter, Line, any_event, corrupt, count_events, count_lines, event, list_events, passes,
  read_and_filter,
}
use vortex_dispatch.State.Filter.Laws.{
  count_events-list_events, events_of, limited, list_events_exact,
}
use vortex_dispatch.State.Handlers.{
  Env, guarded_start_story, insert_deps, project_req_submitted, project_story_created, projected,
  unique_violation, update_req, update_story,
}
use vortex_dispatch.State.Project.{apply, project, rebuild, store_of}
use vortex_dispatch.State.Project.Costs.{
  IsBalanced, add_row, add_rows, charged, story_cost_summary_by_req, story_cost_summary_exact,
}
use vortex_dispatch.State.Project.Created.{project_all, project_created_again}
use vortex_dispatch.State.Project.Lifecycle.{move, next_progress, progress_of}
use vortex_dispatch.State.Project.Lifecycle.Refines.{project-next_progress}
use vortex_dispatch.State.Project.Twice.{undated}
use vortex_dispatch.State.Project.Twice.All.{project_twice}
use vortex_dispatch.State.Records.{project_story_cost_recorded, project_story_escalated}
use vortex_dispatch.State.Store.{Store, Story, empty_store, is_story_complete, merged}
use vortex_dispatch.State.Table.{insert_or_ignore, insert_row, update_where}

-- One story is created and merged, and then a start and an escalation arrive late. Its cost event
-- stands in the log twice.
abbrev env : Env
env = record { now = 7; fresh_id = "fresh" }

abbrev late_env : Env
late_env = record { now = 9; fresh_id = "other" }

abbrev event_of : String → EventType → String → Fields → Event
event_of id ty story p = record {
  id = id;
  type = ty;
  timestamp = 5;
  agent_id = "agent";
  story_id = story;
  payload = some p;
}

abbrev submitted : Event
submitted = event_of "e1" req_submitted "" (field "id" (str "r") no_fields)

abbrev created : Event
created = event_of "e2" story_created "s" (
    field "id" (str "s") (
      field "req_id" (str "r") (
        field "complexity" (num 5)
          (field "depends_on" (arr (item (str "t") (item (str "") no_items))) no_fields))))

abbrev merged_event : Event
merged_event = event_of "e3" story_merged "s" no_fields

abbrev late_start : Event
late_start = event_of "e4" story_started "s" no_fields

abbrev cost_event : Event
cost_event = event_of "e5" story_cost_recorded "s" (
    field "story_id" (str "s") (
      field "req_id" (str "r") (
        field "stage" (str "review") (
          field "input_tokens" (num 10)
            (field "output_tokens" (num 20) (field "est_usd" (num 3) no_fields))))))

abbrev escalated_event : Event
escalated_event =
    event_of "e6" story_escalated "s"
      (field "from_tier" (num 0) (field "to_tier" (num 2) no_fields))

abbrev log : List (Env × Event)
log =
    (env, submitted)
    ∷ (env, created)
    ∷ (env, merged_event)
    ∷ (env, late_start)
    ∷ (env, cost_event)
    ∷ (late_env, cost_event)
    ∷ (env, escalated_event)
    ∷ []

program : Unit {0}
unfolding project apply rebuild update_story update_req project_req_submitted project_story_created
    insert_deps guarded_start_story is_story_complete project_story_cost_recorded
    project_story_escalated update_where insert_row insert_or_ignore add_row add_rows
    story_cost_summary_by_req assign EventType-discrete passes read_and_filter count_lines
    list_events count_events
program = tt

abbrev after_log : Store
after_log = store_of (rebuild log 0 empty_store).0

log-applied : (rebuild log 0 empty_store).1 ≡ 7
unfolding program
log-applied = refl

story_stays_merged : progress_of after_log "s" ≡ some (merged, 2)
unfolding program
story_stays_merged = refl

one_cost_row : length after_log.story_costs ≡ 1
unfolding program
one_cost_row = refl

one_dependency : after_log.story_deps ≡ record { story_id = "s"; depends_on = "t" } ∷ []
unfolding program
one_dependency = refl

-- A log that creates a story twice stops at the second time.
created_twice-stops :
    (rebuild ((env, created) ∷ (env, created) ∷ (env, merged_event) ∷ []) 0 empty_store).1 ≡ 1
unfolding program
created_twice-stops = refl

late_start-not_created : late_start.type ≢ story_created
late_start-not_created e = cc

abbrev costed : Store
costed = store_of (rebuild ((env, created) ∷ (env, cost_event) ∷ []) 0 empty_store).0

escalated_event-not_created : escalated_event.type ≢ story_created
escalated_event-not_created e = cc

-- The second time is later, and the row of the story says so.
late_write :
    map (λ (r : Story). r.updated_at) (store_of (project late_env escalated_event costed)).stories
    ≡ late_env.now ∷ []
unfolding program
late_write = refl

project_twice_example :
    undated
      (store_of (project late_env escalated_event (store_of (project env escalated_event costed))))
    ≡ undated (store_of (project env escalated_event costed))
project_twice_example =
    project_twice env late_env escalated_event costed escalated_event-not_created refl

created-projected :
    project env created empty_store ≡ projected (store_of (project env created empty_store))
unfolding program
created-projected = refl

-- Another event with the story's id, and the events between the two.
abbrev retitled : Event
retitled =
    event_of "e7" story_created "" (field "title" (str "again") (field "id" (str "s") no_fields))

abbrev between : List (Env × Event)
between = (env, submitted) ∷ (env, merged_event) ∷ (late_env, late_start) ∷ []

project_created_again_example :
    project late_env retitled (project_all between (store_of (project env created empty_store)))
    ≡ unique_violation (project_all between (store_of (project env created empty_store)))
project_created_again_example =
    project_created_again env late_env created retitled between empty_store _ refl refl refl
      created-projected

project-next_progress_example :
    progress_of (store_of (project env late_start after_log)) "s"
    ≡ move true (next_progress story_started no_fields) (progress_of after_log "s")
project-next_progress_example =
    project-next_progress env late_start after_log "s" late_start-not_created

story_cost_summary_exact_example :
    let sum = story_cost_summary_by_req "r" costed in
    IsBalanced sum
    × (sum.total_input_tokens ≡ charged (λ r. r.input_tokens) "r" costed.story_costs)
    × (sum.total_output_tokens ≡ charged (λ r. r.output_tokens) "r" costed.story_costs)
story_cost_summary_exact_example = story_cost_summary_exact "r" costed

cost_of_costed : (story_cost_summary_by_req "r" costed).total_output_tokens ≡ 20
unfolding program
cost_of_costed = refl

abbrev first_of_s : EventFilter
first_of_s = record any_event { story_id = "s"; limit = 2 }

abbrev lines : List Line
lines = event submitted ∷ event created ∷ corrupt ∷ event merged_event ∷ event late_start ∷ []

list_events_of_lines : list_events first_of_s lines ≡ created ∷ merged_event ∷ []
unfolding program
list_events_of_lines = refl

list_events_exact_example :
    list_events first_of_s lines ≡ limited 2 (select (passes first_of_s) (events_of lines))
list_events_exact_example = list_events_exact first_of_s lines

count_events-list_events_example :
    count_events first_of_s lines ≡ length (list_events first_of_s lines)
count_events-list_events_example = count_events-list_events first_of_s lines
