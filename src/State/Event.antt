-- ===== src/State/Event.antt =====
-- Events and their payloads (internal/state/events.go). A payload is the JSON object that
-- DecodePayload reads, `none` where it is missing or corrupt. The numbers of a payload are the
-- naturals that the emitters write there (tiers, counts, complexities, token and cost figures).
use vortex_dispatch.Prelude.{Bool, Option, String, if◌then◌else◌, none, some, str_eq, ℕ}

mutual
  pub data Value : Type 0 where
    str : String → Value
    num : ℕ → Value
    bool : Bool → Value
    arr : Items → Value
    obj : Fields → Value
    null : Value

  pub data Fields : Type 0 where
    no_fields : Fields
    field : (key : String) (v : Value) (others : Fields) → Fields

  pub data Items : Type 0 where
    no_items : Items
    item : (v : Value) (others : Items) → Items

pub data EventType : Type 0 where
  req_submitted req_analyzed req_planned req_paused req_resumed : EventType
  req_completed req_blocked req_estimated req_planning_started req_budget_exceeded : EventType
  story_created story_estimated story_assigned story_started story_progress : EventType
  story_completed story_review_requested story_review_passed story_review_failed : EventType
  story_qa_started story_qa_passed story_qa_failed story_qa_flaky : EventType
  story_security_passed story_security_failed story_pr_created story_merged : EventType
  story_escalated story_rewritten story_sla_breached story_split : EventType
  story_db_created story_db_failed story_db_deleted story_cost_recorded : EventType
  story_awaiting_approval story_approved story_rejected story_reset : EventType
  story_conflict_binary story_conflict_binary_removed story_conflict_escalated : EventType
  story_integration_failed : EventType
  agent_spawned agent_checkpoint agent_resumed agent_stuck agent_terminated : EventType
  supervisor_check supervisor_drift_detected : EventType
  worktree_pruned branch_deleted gc_completed : EventType
  security_scan_completed security_rule_learned dashboard_token_rotated : EventType
  review_mode_set plan_approved plan_rejected recovery_completed pipeline_stalled : EventType
  baseline_measured experiment_proposed experiment_running experiment_measured : EventType
  experiment_tiebroken experiment_tripwired experiment_kept experiment_discarded : EventType
  experiment_failed coordinator_panic programmd_evolved : EventType

unfoldable pub EventType-discrete : Discrete EventType
EventType-discrete = hlevel

-- `timestamp` counts from Go's zero time.
pub record Event : Type 0 where
  pub id : String
  pub type : EventType
  pub timestamp : ℕ
  pub agent_id : String
  pub story_id : String
  pub payload : Option Fields

abbrev pub decode_payload : Option Fields → Fields
decode_payload none = no_fields
decode_payload (some fs) = fs

-- `m[key]` of a decoded object.
abbrev pub field_of : Fields → String → Option Value
field_of no_fields key = none
field_of (field k v fs) key = if str_eq k key then some v else field_of fs key

abbrev pub as_str : Option Value → String
as_str (some (str s)) = s
as_str _ = ""

abbrev pub as_int : Option Value → ℕ
as_int (some (num n)) = n
as_int _ = 0

abbrev pub as_map : Option Value → Fields
as_map (some (obj fs)) = fs
as_map _ = no_fields

-- payloadStr, payloadInt and payloadFloat, payloadMap of sqlite.go.
abbrev pub payload_str : Fields → String → String
payload_str m key = as_str (field_of m key)

abbrev pub payload_int : Fields → String → ℕ
payload_int m key = as_int (field_of m key)

abbrev pub payload_map : Fields → String → Fields
payload_map m key = as_map (field_of m key)
