-- ===== src/Engine/ReviewGate.antt =====
-- The gate of human reviews (internal/engine/review_gate.go), on the log.
pub mod Mode
use vortex_dispatch.Engine.Tier.{EventStore}
use vortex_dispatch.Prelude.{
  Bool, List, Option, String, [], false, if◌then◌else◌, length, ltb, none, not, select, some,
  str_eq, true, ◌∷◌,
}
use vortex_dispatch.State.Event.{
  Event, EventType, decode_payload, payload_str, plan_approved, review_mode_set, story_approved,
}
use vortex_dispatch.State.Filter.{EventFilter, any_event}
use vortex_dispatch.State.Store.{Story, StoryStatus, awaiting_approval}

pub record MergeConfig : Type 0 where
  pub review_mode : String
  pub auto_merge : Bool

abbrev pub of_type : EventType → EventFilter
of_type ty = record any_event { type = some ty }

-- The mode that an event sets for the requirement, or an empty text.
abbrev pub mode_of : String → Event → String
mode_of req_id e =
    let p = decode_payload e.payload in
    if str_eq (payload_str p "req_id") req_id then payload_str p "mode" else ""

-- The loop of ResolveMode, which starts at the last event.
abbrev pub last_mode : String → List Event → Option String
last_mode req_id [] = none
last_mode req_id (e ∷ es) = elim (last_mode req_id es) [
  | some mode ↦ some mode
  | none ↦ if str_eq (mode_of req_id e) "" then none else some (mode_of req_id e)
]

abbrev pub configured_mode : MergeConfig → String
configured_mode cfg =
    if not (str_eq cfg.review_mode "")
    then cfg.review_mode
    else (if cfg.auto_merge then "auto" else "manual")

-- An error of the store is as if there were no events.
unfoldable pub resolve_mode : EventStore → String → MergeConfig → String
resolve_mode store req_id cfg = elim (store.list (of_type review_mode_set)) [
  | none ↦ configured_mode cfg
  | some events ↦ elim (last_mode req_id events) [ none ↦ configured_mode cfg | some mode ↦ mode ]
]

abbrev any_of_req : String → List Event → Bool
any_of_req req_id [] = false
any_of_req req_id (e ∷ es) =
    if str_eq (payload_str (decode_payload e.payload) "req_id") req_id
    then true
    else any_of_req req_id es

unfoldable pub is_plan_approved : EventStore → String → Bool
is_plan_approved store req_id = elim (store.list (of_type plan_approved)) [
  | none ↦ false
  | some events ↦ any_of_req req_id events
]

unfoldable pub is_story_approved : EventStore → String → Bool
is_story_approved store story_id =
    elim (store.list (record (of_type story_approved) { story_id = story_id })) [
      | none ↦ false
      | some events ↦ ltb 0 (length events)
    ]

abbrev is_awaiting : StoryStatus → Bool
is_awaiting awaiting_approval = true
is_awaiting _ = false

-- PendingApprovals on the stories that ListStories returns for the requirement.
abbrev pub pending_approvals : Option (List Story) → Option (List Story)
pending_approvals none = none
pending_approvals (some stories) = some (select (λ s. is_awaiting s.status) stories)
