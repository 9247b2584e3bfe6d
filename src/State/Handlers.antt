-- ===== src/State/Handlers.antt =====
-- The handlers of Project for requirements and stories (internal/state/sqlite.go,
-- sqlite_requirements.go).
use vortex_dispatch.Prelude.{
  Bool, List, Option, String, [], false, if◌then◌else◌, ltb, none, some, str_eq, true, ℕ, ◌∷◌,
}
use vortex_dispatch.State.Event.{
  Event, Fields, Items, Value, arr, field_of, item, no_items, payload_int, payload_str, str,
}
use vortex_dispatch.State.Store.{
  ReqStatus, Requirement, Store, Story, StoryDep, StoryStatus, analyzed, approved, assigned, draft,
  get_story, in_progress, is_story_complete, merged, paused, pending, planned, pr_submitted,
  same_dep, same_req, same_story,
}
use vortex_dispatch.State.Table.{insert_or_ignore, insert_row, update_where}

-- The database itself does not fail here, but for a violated primary key. What an event does not
-- carry comes from the environment: the clock of CURRENT_TIMESTAMP, and the fresh id of an event
-- that has none.
pub record Env : Type 0 where
  pub now : ℕ
  pub fresh_id : String

pub data Outcome : Type 0 where
  projected : Store → Outcome
  unique_violation : Store → Outcome

-- projectionRowID
abbrev pub projection_row_id : Env → Event → String
projection_row_id env e = if str_eq e.id "" then env.fresh_id else e.id

unfoldable pub update_story : String → (Story → Story) → Store → Store
update_story id f s = record s {
  stories = update_where (λ (r : Story). str_eq r.id id) f s.stories;
}

unfoldable pub update_req : String → (Requirement → Requirement) → Store → Store
update_req id f s = record s {
  requirements = update_where (λ (r : Requirement). str_eq r.id id) f s.requirements;
}

abbrev pub update_story_status : Env → String → StoryStatus → Store → Store
update_story_status env id status =
    update_story id (λ r. record r { status = status; updated_at = env.now })

abbrev pub update_story_escalation_tier : Env → String → ℕ → Store → Store
update_story_escalation_tier env id tier =
    update_story id (λ r. record r { escalation_tier = tier; updated_at = env.now })

abbrev pub update_req_status : Env → Fields → ReqStatus → Store → Store
update_req_status env p status =
    update_req (payload_str p "id") (λ r. record r { status = status; updated_at = env.now })

abbrev pub update_req_status_by_req_id : Env → Fields → ReqStatus → Store → Store
update_req_status_by_req_id env p status =
    update_req (payload_str p "req_id") (λ r. record r { status = status; updated_at = env.now })

unfoldable pub project_req_submitted : Env → Fields → Store → Store
project_req_submitted env p s = record s {
  requirements =
      insert_or_ignore same_req
        (record {
          id = payload_str p "id";
          title = payload_str p "title";
          description = payload_str p "description";
          status = pending;
          repo_path = payload_str p "repo_path";
          review_mode = "";
          hours_low = 0;
          hours_high = 0;
          cost_low = 0;
          cost_high = 0;
          recovered_at = none;
          created_at = env.now;
          updated_at = env.now;
        })
        s.requirements;
}

unfoldable pub project_req_estimated : Env → Fields → Store → Store
project_req_estimated env p =
    let requirement = payload_str p "requirement" in
    update_req (if str_eq requirement "" then payload_str p "req_id" else requirement) λ r.
      record r {
        hours_low = payload_int p "hours_low";
        hours_high = payload_int p "hours_high";
        cost_low = payload_int p "quote_low";
        cost_high = payload_int p "quote_high";
        updated_at = env.now;
      }

abbrev pub project_review_mode_set : Env → Fields → Store → Store
project_review_mode_set env p =
    update_req (payload_str p "req_id")
      λ r. record r { review_mode = payload_str p "mode"; updated_at = env.now }

-- The sub-select of projectRecoveryCompleted: of the requirements that are planned, paused or
-- analyzed the one created last; among equals the first row.
abbrev pub is_resumable : ReqStatus → Bool
is_resumable planned = true
is_resumable paused = true
is_resumable analyzed = true
is_resumable _ = false

abbrev pub newer : Requirement → Option Requirement → Option Requirement
newer r none = some r
newer r (some q) = if ltb r.created_at q.created_at then some q else some r

abbrev pub latest_resumable : List Requirement → Option Requirement
latest_resumable [] = none
latest_resumable (r ∷ rs) =
    let rest = latest_resumable rs in if is_resumable r.status then newer r rest else rest

unfoldable pub project_recovery_completed : Event → Store → Store
project_recovery_completed e s = elim (latest_resumable s.requirements) [
  | none ↦ s
  | some q ↦ update_req q.id (λ r. record r { recovered_at = some e.timestamp }) s
]

-- The loop over `depends_on` of projectStoryCreated.
unfoldable pub insert_deps : String → Items → List StoryDep → List StoryDep
insert_deps id no_items deps = deps
insert_deps id (item (str d) ds) deps = insert_deps id ds (
    if str_eq d ""
    then deps
    else insert_or_ignore same_dep (record { story_id = id; depends_on = d }) deps)
insert_deps id (item _ ds) deps = insert_deps id ds deps

abbrev pub as_items : Option Value → Items
as_items (some (arr xs)) = xs
as_items _ = no_items

abbrev pub value_or : Value → Option Value → Value
value_or d none = d
value_or d (some v) = v

abbrev pub wave_hint_of : String → String
wave_hint_of hint = if str_eq hint "" then "parallel" else hint

abbrev pub new_story : Env → Fields → Story
new_story env p = record {
  id = payload_str p "id";
  req_id = payload_str p "req_id";
  title = payload_str p "title";
  description = payload_str p "description";
  acceptance_criteria = payload_str p "acceptance_criteria";
  complexity = payload_int p "complexity";
  status = draft;
  agent_id = "";
  branch = "";
  pr_url = "";
  pr_number = 0;
  owned_files = value_or (arr no_items) (field_of p "owned_files");
  wave_hint = wave_hint_of (payload_str p "wave_hint");
  wave = 0;
  escalation_tier = 0;
  split_depth = payload_int p "split_depth";
  merged_at = none;
  updated_at = env.now;
}

unfoldable pub project_story_created : Env → Fields → Store → Outcome
project_story_created env p s = elim (insert_row same_story (new_story env p) s.stories) [
  | none ↦ unique_violation s
  | some rows ↦ projected (record s {
    stories = rows;
    story_deps = insert_deps (payload_str p "id") (as_items (field_of p "depends_on")) s.story_deps;
  })
]

abbrev pub project_story_assigned : Env → String → Fields → Store → Store
project_story_assigned env id p = update_story id λ r. record r {
  status = assigned;
  agent_id = payload_str p "agent_id";
  branch = payload_str p "branch";
  wave = payload_int p "wave";
  updated_at = env.now;
}

abbrev pub project_story_pr_created : Env → String → Fields → Store → Store
project_story_pr_created env id p = update_story id λ r. record r {
  status = pr_submitted;
  pr_url = payload_str p "pr_url";
  pr_number = payload_int p "pr_number";
  updated_at = env.now;
}

abbrev pub project_story_merged : Env → Event → Store → Store
project_story_merged env e =
    update_story e.story_id
      λ r. record r { status = merged; merged_at = some e.timestamp; updated_at = env.now }

-- guardedStartStory: a complete story is not started again.
unfoldable pub guarded_start_story : Env → String → Store → Store
unfolding is_story_complete
guarded_start_story env id s =
    let started = update_story_status env id in_progress s in
    elim (get_story s id) [
      | none ↦ started
      | some r ↦ if is_story_complete r.status then s else started
    ]

abbrev pub approve : StoryStatus → StoryStatus
approve merged = merged
approve _ = approved

abbrev pub unless_merged : StoryStatus → ℕ → ℕ → ℕ
unless_merged merged now old = old
unless_merged _ now old = now

-- The WHERE clause leaves the row of a merged story as it is.
abbrev pub update_story_approved : Env → String → Store → Store
update_story_approved env id = update_story id λ r. record r {
  status = approve r.status;
  updated_at = unless_merged r.status env.now r.updated_at;
}
