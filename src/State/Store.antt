-- ===== src/State/Store.antt =====
-- The tables of the projection (the schema of internal/state/sqlite.go, models.go). The
-- columns that only the INSERT of their row fills, with a default, a constant or the clock, and that
-- no query of the model reads, are left out: the `created_at` of a story, `model` and `updated_at` of
-- an agent, and `status`, `resolution` and `resolved_at` of an escalation.
use vortex_dispatch.Prelude.{Bool, List, Option, String, [], false, str_eq, true, ℕ, ◌&&◌}
use vortex_dispatch.State.Event.{Value}
use vortex_dispatch.State.Table.{find_where}

pub data ReqStatus : Type 0 where
  pending analyzed planned paused completed blocked plan_rejected req_archived : ReqStatus

pub data StoryStatus : Type 0 where
  draft estimated assigned in_progress review qa pr_submitted merged : StoryStatus
  awaiting_approval approved split archived : StoryStatus

pub data AgentStatus : Type 0 where
  active terminated : AgentStatus

pub record Requirement : Type 0 where
  pub id : String
  pub title : String
  pub description : String
  pub status : ReqStatus
  pub repo_path : String
  pub review_mode : String
  pub hours_low : ℕ
  pub hours_high : ℕ
  pub cost_low : ℕ
  pub cost_high : ℕ
  pub recovered_at : Option ℕ
  pub created_at : ℕ
  pub updated_at : ℕ

-- `owned_files` is the JSON value that the column holds.
pub record Story : Type 0 where
  pub id : String
  pub req_id : String
  pub title : String
  pub description : String
  pub acceptance_criteria : String
  pub complexity : ℕ
  pub status : StoryStatus
  pub agent_id : String
  pub branch : String
  pub pr_url : String
  pub pr_number : ℕ
  pub owned_files : Value
  pub wave_hint : String
  pub wave : ℕ
  pub escalation_tier : ℕ
  pub split_depth : ℕ
  pub merged_at : Option ℕ
  pub updated_at : ℕ

pub record Agent : Type 0 where
  pub id : String
  pub type : String
  pub runtime : String
  pub status : AgentStatus
  pub current_story_id : String
  pub session_name : String
  pub created_at : ℕ

pub record StoryDep : Type 0 where
  pub story_id : String
  pub depends_on : String

pub record Escalation : Type 0 where
  pub id : String
  pub story_id : String
  pub from_agent : String
  pub reason : String
  pub from_tier : ℕ
  pub to_tier : ℕ
  pub created_at : ℕ

pub record StoryDb : Type 0 where
  pub story_id : String
  pub db_id : String
  pub db_name : String
  pub provider : String
  pub status : String
  pub template : String
  pub conn_string_hash : String
  pub error : String
  pub created_at : ℕ
  pub deleted_at : Option ℕ
  pub duration_seconds : ℕ
  pub bytes_used : ℕ

pub record StoryCost : Type 0 where
  pub id : String
  pub story_id : String
  pub req_id : String
  pub stage : String
  pub model : String
  pub input_tokens : ℕ
  pub output_tokens : ℕ
  pub est_usd : ℕ
  pub created_at : ℕ

pub record Store : Type 0 where
  pub requirements : List Requirement
  pub stories : List Story
  pub agents : List Agent
  pub story_deps : List StoryDep
  pub escalations : List Escalation
  pub story_databases : List StoryDb
  pub story_costs : List StoryCost

abbrev pub empty_store : Store
empty_store = record {
  requirements = [];
  stories = [];
  agents = [];
  story_deps = [];
  escalations = [];
  story_databases = [];
  story_costs = [];
}

-- The primary keys of the schema.
abbrev pub same_req : Requirement → Requirement → Bool
same_req a b = str_eq a.id b.id

abbrev pub same_story : Story → Story → Bool
same_story a b = str_eq a.id b.id

abbrev pub same_agent : Agent → Agent → Bool
same_agent a b = str_eq a.id b.id

abbrev pub same_dep : StoryDep → StoryDep → Bool
same_dep a b = str_eq a.story_id b.story_id && str_eq a.depends_on b.depends_on

abbrev pub same_escalation : Escalation → Escalation → Bool
same_escalation a b = str_eq a.id b.id

abbrev pub same_db : StoryDb → StoryDb → Bool
same_db a b = str_eq a.story_id b.story_id && str_eq a.db_id b.db_id

abbrev pub same_cost : StoryCost → StoryCost → Bool
same_cost a b = str_eq a.id b.id

-- IsStoryComplete (story_status.go).
unfoldable pub is_story_complete : StoryStatus → Bool
is_story_complete merged = true
is_story_complete pr_submitted = true
is_story_complete split = true
is_story_complete awaiting_approval = true
is_story_complete _ = false

-- GetStory, as far as the row goes.
abbrev pub get_story : Store → String → Option Story
get_story s id = find_where (λ (r : Story). str_eq r.id id) s.stories
