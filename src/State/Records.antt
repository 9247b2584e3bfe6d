-- ===== src/State/Records.antt =====
-- The handlers of Project for escalations, rewrites, agents, story databases and costs
-- (internal/state/sqlite.go).
use vortex_dispatch.Prelude.{Bool, Option, String, if◌then◌else◌, none, some, str_eq, ℕ, ◌&&◌}
use vortex_dispatch.State.Event.{
  Event, Fields, Value, field_of, num, payload_int, payload_map, payload_str,
}
use vortex_dispatch.State.Handlers.{
  Env, projection_row_id, update_story, update_story_escalation_tier,
}
use vortex_dispatch.State.Store.{
  Agent, Escalation, Store, StoryCost, StoryDb, active, draft, same_agent, same_cost, same_db,
  same_escalation, terminated,
}
use vortex_dispatch.State.Table.{insert_or_ignore, insert_or_replace, update_where, upsert}

abbrev pub escalation_row : Env → Event → Fields → Escalation
escalation_row env e p = record {
  id = projection_row_id env e;
  story_id = e.story_id;
  from_agent = e.agent_id;
  reason = payload_str p "reason";
  from_tier = payload_int p "from_tier";
  to_tier = payload_int p "to_tier";
  created_at = e.timestamp;
}

unfoldable pub project_story_escalated : Env → Event → Fields → Store → Store
project_story_escalated env e p s =
    let t = update_story_escalation_tier env e.story_id (payload_int p "to_tier") s in
    record t {
      escalations = insert_or_ignore same_escalation (escalation_row env e p) t.escalations;
    }

-- A text of `changes` is written if it is a text and not empty.
abbrev pub text_change : String → String → String
text_change change old = if str_eq change "" then old else change

abbrev pub int_change : Option Value → ℕ → ℕ
int_change (some (num n)) old = n
int_change _ old = old

-- projectStoryRewritten: up to four updates, and the one that sends the story back to draft.
unfoldable pub project_story_rewritten : Env → String → Fields → Store → Store
project_story_rewritten env id p =
    let changes = payload_map p "changes" in
    update_story id λ r. record r {
      title = text_change (payload_str changes "title") r.title;
      description = text_change (payload_str changes "description") r.description;
      acceptance_criteria =
          text_change (payload_str changes "acceptance_criteria") r.acceptance_criteria;
      complexity = int_change (field_of changes "complexity") r.complexity;
      escalation_tier = 0;
      status = draft;
      updated_at = env.now;
    }

-- The event's agent, and where it has none that of the payload.
abbrev pub agent_of : Event → Fields → String
agent_of e p = if str_eq e.agent_id "" then payload_str p "agent_id" else e.agent_id

unfoldable pub project_agent_spawned : Event → Fields → Store → Store
project_agent_spawned e p s = record s {
  agents =
      upsert same_agent
        (record {
          id = agent_of e p;
          type = payload_str p "role";
          runtime = payload_str p "runtime";
          status = active;
          current_story_id = e.story_id;
          session_name = payload_str p "session_name";
          created_at = e.timestamp;
        })
        (λ a. record a {
          status = active;
          current_story_id = e.story_id;
          session_name = payload_str p "session_name";
          runtime = payload_str p "runtime";
        })
        s.agents;
}

unfoldable pub project_agent_terminated : Event → Fields → Store → Store
project_agent_terminated e p s = record s {
  agents =
      update_where (λ (a : Agent). str_eq a.id (agent_of e p))
        (λ a. record a { status = terminated }) s.agents;
}

abbrev pub db_created_row : Event → Fields → StoryDb
db_created_row e p = record {
  story_id = e.story_id;
  db_id = payload_str p "db_id";
  db_name = payload_str p "db_name";
  provider = payload_str p "provider";
  status = "created";
  template = payload_str p "template";
  conn_string_hash = payload_str p "conn_string_hash";
  error = "";
  created_at = e.timestamp;
  deleted_at = none;
  duration_seconds = 0;
  bytes_used = 0;
}

unfoldable pub project_story_db_created : Event → Fields → Store → Store
project_story_db_created e p s = record s {
  story_databases = insert_or_replace same_db (db_created_row e p) s.story_databases;
}

abbrev pub db_failed_row : Event → Fields → StoryDb
db_failed_row e p = record {
  story_id = e.story_id;
  db_id = payload_str p "db_id";
  db_name = payload_str p "db_name";
  provider = payload_str p "provider";
  status = "failed";
  template = "";
  conn_string_hash = "";
  error = payload_str p "error";
  created_at = e.timestamp;
  deleted_at = none;
  duration_seconds = 0;
  bytes_used = 0;
}

unfoldable pub project_story_db_failed : Event → Fields → Store → Store
project_story_db_failed e p s = record s {
  story_databases = insert_or_replace same_db (db_failed_row e p) s.story_databases;
}

-- The WHERE clause: by story and database, or by the database alone for an event without story.
abbrev pub released : Event → Fields → StoryDb → Bool
released e p d =
    if str_eq e.story_id ""
    then str_eq d.db_id (payload_str p "db_id")
    else str_eq d.story_id e.story_id && str_eq d.db_id (payload_str p "db_id")

abbrev pub status_or_deleted : String → String
status_or_deleted status = if str_eq status "" then "deleted" else status

unfoldable pub project_story_db_deleted : Event → Fields → Store → Store
project_story_db_deleted e p s = record s {
  story_databases =
      update_where (released e p)
        (λ d. record d {
          status = status_or_deleted (payload_str p "status");
          deleted_at = some e.timestamp;
          duration_seconds = payload_int p "duration_seconds";
          bytes_used = payload_int p "bytes_used";
        })
        s.story_databases;
}

abbrev pub cost_row : Env → Event → Fields → StoryCost
cost_row env e p = record {
  id = projection_row_id env e;
  story_id = payload_str p "story_id";
  req_id = payload_str p "req_id";
  stage = payload_str p "stage";
  model = payload_str p "model";
  input_tokens = payload_int p "input_tokens";
  output_tokens = payload_int p "output_tokens";
  est_usd = payload_int p "est_usd";
  created_at = e.timestamp;
}

unfoldable pub project_story_cost_recorded : Env → Event → Fields → Store → Store
project_story_cost_recorded env e p s = record s {
  story_costs = insert_or_ignore same_cost (cost_row env e p) s.story_costs;
}
