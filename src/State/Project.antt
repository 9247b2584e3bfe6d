-- ===== src/State/Project.antt =====
-- Project, the switch over the event types (internal/state/sqlite.go), and the replay of a log into
-- a fresh projection (rebuildAndClose of internal/cli/replay.go).
pub mod Twice
pub mod Created
pub mod Lifecycle
pub mod Costs
mod Tests
use vortex_dispatch.Prelude.{List, [], ℕ, ◌+◌, ◌∷◌}
use vortex_dispatch.State.Event.{
  Event, EventType, Fields, agent_spawned, agent_terminated, decode_payload, plan_rejected,
  recovery_completed, req_analyzed, req_blocked, req_completed, req_estimated, req_paused,
  req_planned, req_resumed, req_submitted, review_mode_set, story_approved, story_assigned,
  story_awaiting_approval, story_completed, story_cost_recorded, story_created, story_db_created,
  story_db_deleted, story_db_failed, story_escalated, story_estimated, story_merged,
  story_pr_created, story_qa_failed, story_qa_passed, story_qa_started, story_rejected, story_reset,
  story_review_failed, story_review_passed, story_review_requested, story_rewritten, story_split,
  story_started,
}
use vortex_dispatch.State.Handlers.{
  Env, Outcome, guarded_start_story, project_recovery_completed, project_req_estimated,
  project_req_submitted, project_review_mode_set, project_story_assigned, project_story_created,
  project_story_merged, project_story_pr_created, projected, unique_violation, update_req_status,
  update_req_status_by_req_id, update_story_approved, update_story_escalation_tier,
  update_story_status,
}
use vortex_dispatch.State.Records.{
  project_agent_spawned, project_agent_terminated, project_story_cost_recorded,
  project_story_db_created, project_story_db_deleted, project_story_db_failed,
  project_story_escalated, project_story_rewritten,
}
use vortex_dispatch.State.Store.{
  ReqStatus, Store, analyzed, awaiting_approval, blocked, completed, draft, estimated, paused,
  planned, pr_submitted, qa, review, split,
}

-- The events of the switch that return nil; the default branch is a warning only.
unfoldable pub apply : Env → EventType → Event → Fields → Store → Outcome
apply env req_submitted e p s = projected (project_req_submitted env p s)
apply env req_analyzed e p s = projected (update_req_status env p analyzed s)
apply env req_planned e p s = projected (update_req_status env p planned s)
apply env req_paused e p s = projected (update_req_status env p paused s)
apply env req_resumed e p s = projected (update_req_status env p planned s)
apply env req_completed e p s = projected (update_req_status env p completed s)
apply env req_blocked e p s = projected (update_req_status env p blocked s)
apply env req_estimated e p s = projected (project_req_estimated env p s)
apply env plan_rejected e p s =
    projected (update_req_status_by_req_id env p ReqStatus.plan_rejected s)
apply env review_mode_set e p s = projected (project_review_mode_set env p s)
apply env recovery_completed e p s = projected (project_recovery_completed e s)
apply env story_created e p s = project_story_created env p s
apply env story_estimated e p s = projected (update_story_status env e.story_id estimated s)
apply env story_assigned e p s = projected (project_story_assigned env e.story_id p s)
apply env story_started e p s = projected (guarded_start_story env e.story_id s)
apply env story_completed e p s = projected (update_story_status env e.story_id review s)
apply env story_review_requested e p s = projected (update_story_status env e.story_id review s)
apply env story_review_passed e p s = projected (update_story_status env e.story_id qa s)
apply env story_review_failed e p s = projected (update_story_status env e.story_id draft s)
apply env story_qa_started e p s = projected (update_story_status env e.story_id qa s)
apply env story_qa_passed e p s = projected (update_story_status env e.story_id pr_submitted s)
apply env story_qa_failed e p s = projected (update_story_status env e.story_id draft s)
apply env story_cost_recorded e p s = projected (project_story_cost_recorded env e p s)
apply env story_pr_created e p s = projected (project_story_pr_created env e.story_id p s)
apply env story_merged e p s = projected (project_story_merged env e s)
apply env story_awaiting_approval e p s =
    projected (update_story_status env e.story_id awaiting_approval s)
apply env story_approved e p s = projected (update_story_approved env e.story_id s)
apply env story_rejected e p s = projected (update_story_status env e.story_id draft s)
apply env story_reset e p s =
    projected
      (update_story_escalation_tier env e.story_id 0 (update_story_status env e.story_id draft s))
apply env story_escalated e p s = projected (project_story_escalated env e p s)
apply env story_rewritten e p s = projected (project_story_rewritten env e.story_id p s)
apply env story_split e p s = projected (update_story_status env e.story_id split s)
apply env story_db_created e p s = projected (project_story_db_created e p s)
apply env story_db_failed e p s = projected (project_story_db_failed e p s)
apply env story_db_deleted e p s = projected (project_story_db_deleted e p s)
apply env agent_spawned e p s = projected (project_agent_spawned e p s)
apply env agent_terminated e p s = projected (project_agent_terminated e p s)
apply env _ e p s = projected s

unfoldable pub project : Env → Event → Store → Outcome
project env e s = apply env e.type e (decode_payload e.payload) s

-- The rest of the loop, or the first event that cannot be projected.
abbrev pub or_stop : (Store → Outcome × ℕ) → ℕ → Outcome → Outcome × ℕ
or_stop remaining applied (projected t) = remaining t
or_stop remaining applied (unique_violation t) = (unique_violation t, applied)

-- The loop of rebuildAndClose, which returns how many events were applied. The environment may
-- differ from event to event.
unfoldable pub rebuild : List (Env × Event) → ℕ → Store → Outcome × ℕ
rebuild [] applied s = (projected s, applied)
rebuild ((env, e) ∷ es) applied s = or_stop (rebuild es (applied + 1)) applied (project env e s)

-- The tables after an event, also where it was refused.
abbrev pub store_of : Outcome → Store
store_of (projected s) = s
store_of (unique_violation s) = s
