-- ===== src/State/Project/Twice/All.antt =====
-- Projecting an event a second time changes nothing but the time of the last write: escalations,
-- agents, databases, costs, and the theorem for all events.
use vortex_dispatch.Prelude.{ap, false, map, refl, str_eq, str_eq_refl, true, ◌∙◌, ◌≡◌, ◌≢◌}
use vortex_dispatch.State.Event.{
  Event, EventType, Fields, agent_spawned, agent_terminated, decode_payload, payload_int,
  plan_rejected, recovery_completed, req_analyzed, req_blocked, req_completed, req_estimated,
  req_paused, req_planned, req_resumed, req_submitted, review_mode_set, story_approved,
  story_assigned, story_awaiting_approval, story_completed, story_cost_recorded, story_created,
  story_db_created, story_db_deleted, story_db_failed, story_escalated, story_estimated,
  story_merged, story_pr_created, story_qa_failed, story_qa_passed, story_qa_started,
  story_rejected, story_reset, story_review_failed, story_review_passed, story_review_requested,
  story_rewritten, story_split, story_started,
}
use vortex_dispatch.State.Handlers.{Env, projection_row_id, update_story}
use vortex_dispatch.State.Project.{apply, project, store_of}
use vortex_dispatch.State.Project.Twice.{
  approved_twice, req_estimated_twice, req_submitted_twice, reset_twice, rewritten_twice,
  started_twice, undated, undated_req, undated_story, update_req_again, update_story_again,
}
use vortex_dispatch.State.Project.Twice.Recovery.{recovery_twice}
use vortex_dispatch.State.Records.{
  agent_of, cost_row, db_created_row, db_failed_row, escalation_row, project_agent_spawned,
  project_agent_terminated, project_story_cost_recorded, project_story_db_created,
  project_story_db_deleted, project_story_db_failed, project_story_escalated,
}
use vortex_dispatch.State.Store.{
  Store, Story, StoryDb, same_agent, same_cost, same_db, same_escalation,
}
use vortex_dispatch.State.Table.Twice.{
  insert_or_ignore_idem, insert_or_replace_idem, update_where-again, update_where_idem, upsert_idem,
}

-- The key of a row that has one per event is the event's own.
row_id_fixed :
    (env env' : Env) (e : Event)
    → str_eq e.id "" ≡ false
    → projection_row_id env' e ≡ projection_row_id env e
row_id_fixed env env' e h = rw h

escalated_twice :
    (env env' : Env) (e : Event) (p : Fields) (s : Store)
    → str_eq e.id "" ≡ false
    → undated (project_story_escalated env' e p (project_story_escalated env e p s))
      ≡ undated (project_story_escalated env e p s)
unfolding project_story_escalated update_story
escalated_twice env env' e p s h =
    let id = row_id_fixed env env' e h in
    λ i. record s {
      stories =
          update_where-again undated_story (λ (r : Story). str_eq r.id e.story_id)
            (λ r. record r { escalation_tier = payload_int p "to_tier"; updated_at = env.now })
            (λ r. record r { escalation_tier = payload_int p "to_tier"; updated_at = env'.now })
            s.stories (λ r. refl) i;
      requirements = map undated_req s.requirements;
      escalations =
          insert_or_ignore_idem same_escalation (escalation_row env e p) (escalation_row env' e p)
            s.escalations
            (ap (λ k. str_eq k (projection_row_id env e)) id
              ∙ str_eq_refl (projection_row_id env e))
            (λ q. ap (λ k. str_eq k q.id) id) i;
    }

agent_spawned_twice :
    (e : Event) (p : Fields) (s : Store)
    → project_agent_spawned e p (project_agent_spawned e p s) ≡ project_agent_spawned e p s
unfolding project_agent_spawned
agent_spawned_twice e p s =
    ap (λ rows. record s { agents = rows })
      (upsert_idem same_agent _ _ s.agents (str_eq_refl (agent_of e p)) refl (λ q. refl)
        (λ q. refl))

agent_terminated_twice :
    (e : Event) (p : Fields) (s : Store)
    → project_agent_terminated e p (project_agent_terminated e p s) ≡ project_agent_terminated e p s
unfolding project_agent_terminated
agent_terminated_twice e p s =
    ap (λ rows. record s { agents = rows }) (update_where_idem _ _ s.agents (λ r. refl))

same_db_refl : (d : StoryDb) → same_db d d ≡ true
same_db_refl d = rw (str_eq_refl d.story_id, str_eq_refl d.db_id)

db_created_twice :
    (e : Event) (p : Fields) (s : Store)
    → project_story_db_created e p (project_story_db_created e p s) ≡ project_story_db_created e p s
unfolding project_story_db_created
db_created_twice e p s =
    ap (λ rows. record s { story_databases = rows })
      (insert_or_replace_idem same_db (db_created_row e p) s.story_databases
        (same_db_refl (db_created_row e p)))

db_failed_twice :
    (e : Event) (p : Fields) (s : Store)
    → project_story_db_failed e p (project_story_db_failed e p s) ≡ project_story_db_failed e p s
unfolding project_story_db_failed
db_failed_twice e p s =
    ap (λ rows. record s { story_databases = rows })
      (insert_or_replace_idem same_db (db_failed_row e p) s.story_databases
        (same_db_refl (db_failed_row e p)))

db_deleted_twice :
    (e : Event) (p : Fields) (s : Store)
    → project_story_db_deleted e p (project_story_db_deleted e p s) ≡ project_story_db_deleted e p s
unfolding project_story_db_deleted
db_deleted_twice e p s =
    ap (λ rows. record s { story_databases = rows })
      (update_where_idem _ _ s.story_databases (λ r. refl))

cost_twice :
    (env env' : Env) (e : Event) (p : Fields) (s : Store)
    → str_eq e.id "" ≡ false
    → project_story_cost_recorded env' e p (project_story_cost_recorded env e p s)
      ≡ project_story_cost_recorded env e p s
unfolding project_story_cost_recorded
cost_twice env env' e p s h =
    let id = row_id_fixed env env' e h in
    ap (λ rows. record s { story_costs = rows })
      (insert_or_ignore_idem same_cost (cost_row env e p) (cost_row env' e p) s.story_costs
        (ap (λ k. str_eq k (projection_row_id env e)) id ∙ str_eq_refl (projection_row_id env e))
        (λ q. ap (λ k. str_eq k q.id) id))

apply_twice :
    (env env' : Env) (ty : EventType) (e : Event) (p : Fields) (s : Store)
    → ty ≢ story_created
    → str_eq e.id "" ≡ false
    → undated (store_of (apply env' ty e p (store_of (apply env ty e p s))))
      ≡ undated (store_of (apply env ty e p s))
unfolding apply
apply_twice env env' story_created e p s n h = absurd (n refl)
apply_twice env env' req_submitted e p s n h = ap undated (req_submitted_twice env env' p s)
apply_twice env env' req_analyzed e p s n h = update_req_again _ _ _ s (λ r. refl)
apply_twice env env' req_planned e p s n h = update_req_again _ _ _ s (λ r. refl)
apply_twice env env' req_paused e p s n h = update_req_again _ _ _ s (λ r. refl)
apply_twice env env' req_resumed e p s n h = update_req_again _ _ _ s (λ r. refl)
apply_twice env env' req_completed e p s n h = update_req_again _ _ _ s (λ r. refl)
apply_twice env env' req_blocked e p s n h = update_req_again _ _ _ s (λ r. refl)
apply_twice env env' req_estimated e p s n h = req_estimated_twice env env' p s
apply_twice env env' plan_rejected e p s n h = update_req_again _ _ _ s (λ r. refl)
apply_twice env env' review_mode_set e p s n h = update_req_again _ _ _ s (λ r. refl)
apply_twice env env' recovery_completed e p s n h = ap undated (recovery_twice e s)
apply_twice env env' story_estimated e p s n h = update_story_again _ _ _ s (λ r. refl)
apply_twice env env' story_assigned e p s n h = update_story_again _ _ _ s (λ r. refl)
apply_twice env env' story_started e p s n h = started_twice env env' e.story_id s
apply_twice env env' story_completed e p s n h = update_story_again _ _ _ s (λ r. refl)
apply_twice env env' story_review_requested e p s n h = update_story_again _ _ _ s (λ r. refl)
apply_twice env env' story_review_passed e p s n h = update_story_again _ _ _ s (λ r. refl)
apply_twice env env' story_review_failed e p s n h = update_story_again _ _ _ s (λ r. refl)
apply_twice env env' story_qa_started e p s n h = update_story_again _ _ _ s (λ r. refl)
apply_twice env env' story_qa_passed e p s n h = update_story_again _ _ _ s (λ r. refl)
apply_twice env env' story_qa_failed e p s n h = update_story_again _ _ _ s (λ r. refl)
apply_twice env env' story_cost_recorded e p s n h = ap undated (cost_twice env env' e p s h)
apply_twice env env' story_pr_created e p s n h = update_story_again _ _ _ s (λ r. refl)
apply_twice env env' story_merged e p s n h = update_story_again _ _ _ s (λ r. refl)
apply_twice env env' story_awaiting_approval e p s n h = update_story_again _ _ _ s (λ r. refl)
apply_twice env env' story_approved e p s n h = approved_twice env env' e.story_id s
apply_twice env env' story_rejected e p s n h = update_story_again _ _ _ s (λ r. refl)
apply_twice env env' story_reset e p s n h = reset_twice env env' e.story_id s
apply_twice env env' story_escalated e p s n h = escalated_twice env env' e p s h
apply_twice env env' story_rewritten e p s n h = rewritten_twice env env' e.story_id p s
apply_twice env env' story_split e p s n h = update_story_again _ _ _ s (λ r. refl)
apply_twice env env' story_db_created e p s n h = ap undated (db_created_twice e p s)
apply_twice env env' story_db_failed e p s n h = ap undated (db_failed_twice e p s)
apply_twice env env' story_db_deleted e p s n h = ap undated (db_deleted_twice e p s)
apply_twice env env' agent_spawned e p s n h = ap undated (agent_spawned_twice e p s)
apply_twice env env' agent_terminated e p s n h = ap undated (agent_terminated_twice e p s)
apply_twice env env' _ e p s n h = refl

-- Projecting an event that has an id a second time, even with another clock, leaves every table as
-- the first time left it, but for the columns updated_at of the stories and the requirements, which
-- hold the time of the last write. Only STORY_CREATED is not covered here.
pub project_twice :
    (env env' : Env) (e : Event) (s : Store)
    → e.type ≢ story_created
    → str_eq e.id "" ≡ false
    → undated (store_of (project env' e (store_of (project env e s))))
      ≡ undated (store_of (project env e s))
unfolding project
project_twice env env' e s n h = apply_twice env env' e.type e (decode_payload e.payload) s n h
