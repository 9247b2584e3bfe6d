-- ===== src/State/Project/Lifecycle/Refines.antt =====
-- Project refines the state machine: the theorem for all events but the creation of a story, and
-- for that one.
use vortex_dispatch.Prelude.{
  Bool, List, Option, Option-cases, String, ap, false, inl, inr, none, refl, some, str_eq, sym,
  true, ℕ, ◌∙◌, ◌≡◌, ◌≢◌,
}
use vortex_dispatch.State.Event.{
  Event, EventType, Fields, agent_spawned, agent_terminated, decode_payload, payload_int,
  plan_rejected, recovery_completed, req_analyzed, req_blocked, req_completed, req_estimated,
  req_paused, req_planned, req_resumed, req_submitted, review_mode_set, story_approved,
  story_assigned, story_awaiting_approval, story_completed, story_cost_recorded, story_created,
  story_db_created, story_db_deleted, story_db_failed, story_escalated, story_estimated,
  story_merged, story_pr_created, story_qa_failed, story_qa_passed, story_qa_started,
  story_rejected, story_reset, story_review_failed, story_review_passed, story_review_requested,
  story_rewritten, story_split, story_started,
}
use vortex_dispatch.State.Handlers.{
  Env, approve, latest_resumable, project_recovery_completed, project_req_estimated,
  project_req_submitted, unless_merged, update_req, update_story_approved,
  update_story_escalation_tier, update_story_status,
}
use vortex_dispatch.State.Project.{apply, project, store_of}
use vortex_dispatch.State.Project.Lifecycle.{
  goes, guarded_start-progress, move, move-ext, next_progress, own, progress, progress-same,
  progress-update, progress-update_story, progress_of, rows_progress,
}
use vortex_dispatch.State.Records.{
  project_agent_spawned, project_agent_terminated, project_story_cost_recorded,
  project_story_db_created, project_story_db_deleted, project_story_db_failed,
  project_story_escalated, project_story_rewritten,
}
use vortex_dispatch.State.Store.{
  Requirement, Store, Story, StoryStatus, awaiting_approval, draft, estimated, merged, pr_submitted,
  qa, review, split,
}

module _ (e : Event) (p : Fields) (s : Store) (j : String) where
  idle :
      (ty : EventType) (rows : List Story)
      → rows ≡ s.stories
      → ((x : StoryStatus × ℕ) → next_progress ty p x ≡ x)
      → rows_progress rows j ≡ goes e p s j ty
  idle ty rows same keep =
      ap (λ rows. rows_progress rows j) same
      ∙ sym (progress-same e.story_id j s)
      ∙ move-ext (own e p s j) (λ x. x) (next_progress ty p) (progress_of s j)
          (λ x o h. sym (keep x))

  by_req : (id : String) (f : Requirement → Requirement) → (update_req id f s).stories ≡ s.stories
  unfolding update_req
  by_req id f = refl

  recovered_stories : (project_recovery_completed e s).stories ≡ s.stories
  unfolding project_recovery_completed update_req
  recovered_stories = elim (Option-cases (latest_resumable s.requirements)) [
    | inl none_there ↦ rw (none_there, project_recovery_completed)
    | inr (q, found) ↦ rw (found, project_recovery_completed)
  ]

  -- STORY_RESET writes twice.
  reset-progress :
      (env : Env)
      → progress_of
          (update_story_escalation_tier env e.story_id 0
            (update_story_status env e.story_id draft s))
          j
        ≡ goes e p s j story_reset
  reset-progress env =
      progress-update_story e.story_id j (update_story_status env e.story_id draft s)
        (λ r. record r { escalation_tier = 0; updated_at = env.now }) (λ x. (x.0, 0)) (λ r. refl)
        (λ r. refl)
      ∙ ap (move (own e p s j) (λ x. (x.0, 0))) (
          progress-update_story e.story_id j s
            (λ r. record r { status = draft; updated_at = env.now }) (λ x. (draft, x.1)) (λ r. refl)
            (λ r. refl))
      ∙ twice (own e p s j) (progress_of s j)
    where
      twice :
          (b : Bool) (o : Option (StoryStatus × ℕ))
          → move b (λ x. (x.0, 0)) (move b (λ x. (draft, x.1)) o)
            ≡ move b (next_progress story_reset p) o
      twice b none = refl
      twice true (some x) = refl
      twice false (some x) = refl

  escalated-progress :
      (env : Env) → progress_of (project_story_escalated env e p s) j ≡ goes e p s j story_escalated
  unfolding project_story_escalated
  escalated-progress env =
      progress-update e p s j
        (λ r. record r { escalation_tier = payload_int p "to_tier"; updated_at = env.now })
        story_escalated (λ r. refl) (λ r. refl)

  rewritten-progress :
      (env : Env)
      → progress_of (project_story_rewritten env e.story_id p s) j ≡ goes e p s j story_rewritten
  unfolding project_story_rewritten
  rewritten-progress env = progress-update e p s j _ story_rewritten (λ r. refl) (λ r. refl)

  approved-progress :
      (env : Env)
      → progress_of (update_story_approved env e.story_id s) j ≡ goes e p s j story_approved
  approved-progress env =
      progress-update e p s j
        (λ r. record r {
          status = approve r.status;
          updated_at = unless_merged r.status env.now r.updated_at;
        })
        story_approved (λ r. refl) (λ r. by_status r.status r.escalation_tier)
    where
      by_status :
          (st : StoryStatus) (tier : ℕ)
          → (approve st, tier) ≡ next_progress story_approved p (st, tier)
      by_status merged tier = refl
      by_status _ tier = refl

  status-progress :
      (env : Env) (ty : EventType) (st : StoryStatus)
      → ((x : StoryStatus × ℕ) → (st, x.1) ≡ next_progress ty p x)
      → progress_of (update_story_status env e.story_id st s) j ≡ goes e p s j ty
  status-progress env ty st h =
      progress-update e p s j (λ r. record r { status = st; updated_at = env.now }) ty (λ r. refl)
        (λ r. h (progress r))

  apply-progress :
      (env : Env) (ty : EventType)
      → ty ≢ story_created
      → progress_of (store_of (apply env ty e p s)) j ≡ goes e p s j ty
  unfolding apply
  apply-progress env story_created h = absurd (h refl)
  apply-progress env req_submitted h =
      idle req_submitted _ (unfold project_req_submitted in refl) (λ x. refl)
  apply-progress env req_analyzed h = idle req_analyzed _ (by_req _ _) (λ x. refl)
  apply-progress env req_planned h = idle req_planned _ (by_req _ _) (λ x. refl)
  apply-progress env req_paused h = idle req_paused _ (by_req _ _) (λ x. refl)
  apply-progress env req_resumed h = idle req_resumed _ (by_req _ _) (λ x. refl)
  apply-progress env req_completed h = idle req_completed _ (by_req _ _) (λ x. refl)
  apply-progress env req_blocked h = idle req_blocked _ (by_req _ _) (λ x. refl)
  apply-progress env req_estimated h =
      idle req_estimated _ (unfold project_req_estimated in by_req _ _) (λ x. refl)
  apply-progress env plan_rejected h = idle plan_rejected _ (by_req _ _) (λ x. refl)
  apply-progress env review_mode_set h = idle review_mode_set _ (by_req _ _) (λ x. refl)
  apply-progress env recovery_completed h = idle recovery_completed _ recovered_stories (λ x. refl)
  apply-progress env story_estimated h = status-progress env story_estimated estimated (λ x. refl)
  apply-progress env story_assigned h =
      progress-update e p s j _ story_assigned (λ r. refl) (λ r. refl)
  apply-progress env story_started h = guarded_start-progress e p s j env
  apply-progress env story_completed h = status-progress env story_completed review (λ x. refl)
  apply-progress env story_review_requested h =
      status-progress env story_review_requested review (λ x. refl)
  apply-progress env story_review_passed h = status-progress env story_review_passed qa (λ x. refl)
  apply-progress env story_review_failed h =
      status-progress env story_review_failed draft (λ x. refl)
  apply-progress env story_qa_started h = status-progress env story_qa_started qa (λ x. refl)
  apply-progress env story_qa_passed h =
      status-progress env story_qa_passed pr_submitted (λ x. refl)
  apply-progress env story_qa_failed h = status-progress env story_qa_failed draft (λ x. refl)
  apply-progress env story_cost_recorded h =
      idle story_cost_recorded _ (unfold project_story_cost_recorded in refl) (λ x. refl)
  apply-progress env story_pr_created h =
      progress-update e p s j _ story_pr_created (λ r. refl) (λ r. refl)
  apply-progress env story_merged h = progress-update e p s j _ story_merged (λ r. refl) (λ r. refl)
  apply-progress env story_awaiting_approval h =
      status-progress env story_awaiting_approval awaiting_approval (λ x. refl)
  apply-progress env story_approved h = approved-progress env
  apply-progress env story_rejected h = status-progress env story_rejected draft (λ x. refl)
  apply-progress env story_reset h = reset-progress env
  apply-progress env story_escalated h = escalated-progress env
  apply-progress env story_rewritten h = rewritten-progress env
  apply-progress env story_split h = status-progress env story_split split (λ x. refl)
  apply-progress env story_db_created h =
      idle story_db_created _ (unfold project_story_db_created in refl) (λ x. refl)
  apply-progress env story_db_failed h =
      idle story_db_failed _ (unfold project_story_db_failed in refl) (λ x. refl)
  apply-progress env story_db_deleted h =
      idle story_db_deleted _ (unfold project_story_db_deleted in refl) (λ x. refl)
  apply-progress env agent_spawned h =
      idle agent_spawned _ (unfold project_agent_spawned in refl) (λ x. refl)
  apply-progress env agent_terminated h =
      idle agent_terminated _ (unfold project_agent_terminated in refl) (λ x. refl)
  apply-progress env ty h = idle ty s.stories refl (λ x. refl)

-- After any event but STORY_CREATED, the status and the tier of every story are what the state
-- machine says for the story that the event names, and unchanged for all others. So a complete
-- story is not started again, and a merged story is not approved again.
pub project-next_progress :
    (env : Env) (e : Event) (s : Store) (j : String)
    → e.type ≢ story_created
    → progress_of (store_of (project env e s)) j
      ≡ move
          (str_eq e.story_id j)
          (next_progress e.type (decode_payload e.payload))
          (progress_of s j)
unfolding project
project-next_progress env e s j h = apply-progress e (decode_payload e.payload) s j env e.type h
