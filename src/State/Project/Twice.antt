-- ===== src/State/Project/Twice.antt =====
-- Projecting an event a second time changes nothing but the time of the last write: the handlers of
-- internal/state/sqlite.go and sqlite_requirements.go.
pub mod All
pub mod Recovery
use mathlib.Core.Option
use vortex_dispatch.Prelude.{
  Bool, Bool-cases, List, Option, Option-cases, String, [], ap, arith, inl, inr, map, none, refl,
  some, str_eq, str_eq_refl, sym, ℕ, ◌∙◌, ◌∷◌, ◌≡◌, ◌⊎◌,
}
use vortex_dispatch.State.Event.{Fields, Value, field_of, num, payload_map, payload_str}
use vortex_dispatch.State.Handlers.{
  Env, approve, guarded_start_story, project_req_estimated, project_req_submitted, update_req,
  update_story, update_story_approved, update_story_escalation_tier, update_story_status,
}
use vortex_dispatch.State.Records.{int_change, project_story_rewritten, text_change}
use vortex_dispatch.State.Store.{
  Requirement, Store, Story, StoryStatus, draft, get_story, in_progress, is_story_complete, merged,
  same_req,
}
use vortex_dispatch.State.Table.{update_where}
use vortex_dispatch.State.Table.Twice.{insert_or_ignore_idem, update_where-again}

abbrev pub undated_story : Story → Story
undated_story r = record r { updated_at = 0 }

abbrev pub undated_req : Requirement → Requirement
undated_req r = record r { updated_at = 0 }

-- The tables without the columns that hold the time of the last write.
abbrev pub undated : Store → Store
undated s = record s {
  stories = map undated_story s.stories;
  requirements = map undated_req s.requirements;
}

pub update_story_again :
    (id : String) (f f' : Story → Story) (s : Store)
    → ((r : Story) → undated_story (f' (f r)) ≡ undated_story (f r))
    → undated (update_story id f' (update_story id f s)) ≡ undated (update_story id f s)
unfolding update_story
update_story_again id f f' s h =
    ap (λ rows. record s { stories = rows; requirements = map undated_req s.requirements })
      (update_where-again undated_story (λ r. str_eq r.id id) f f' s.stories h)

pub update_req_again :
    (id : String) (f f' : Requirement → Requirement) (s : Store)
    → ((r : Requirement) → undated_req (f' (f r)) ≡ undated_req (f r))
    → undated (update_req id f' (update_req id f s)) ≡ undated (update_req id f s)
unfolding update_req
update_req_again id f f' s h =
    ap (λ rows. record s { stories = map undated_story s.stories; requirements = rows })
      (update_where-again undated_req (λ r. str_eq r.id id) f f' s.requirements h)

pub req_submitted_twice :
    (env env' : Env) (p : Fields) (s : Store)
    → project_req_submitted env' p (project_req_submitted env p s) ≡ project_req_submitted env p s
unfolding project_req_submitted
req_submitted_twice env env' p s =
    ap (λ rows. record s { requirements = rows })
      (insert_or_ignore_idem same_req _ _ s.requirements (str_eq_refl (payload_str p "id"))
        (λ q. refl))

pub req_estimated_twice :
    (env env' : Env) (p : Fields) (s : Store)
    → undated (project_req_estimated env' p (project_req_estimated env p s))
      ≡ undated (project_req_estimated env p s)
unfolding project_req_estimated
req_estimated_twice env env' p s = update_req_again _ _ _ s (λ r. refl)

start_cases :
    (id : String) (s : Store)
    → ((env : Env) → guarded_start_story env id s ≡ s)
      ⊎ ((env : Env) → guarded_start_story env id s ≡ update_story_status env id in_progress s)
unfolding guarded_start_story
start_cases id s = elim (Option-cases (get_story s id)) [
  | inl absent ↦ inr (λ env. rw (absent, guarded_start_story))
  | inr (r, found) ↦ elim (Bool-cases (is_story_complete r.status)) [
    | inl complete ↦ inl (λ env. rw (found, guarded_start_story, complete))
    | inr running ↦ inr (λ env. rw (found, guarded_start_story, running))
  ]
]

pub started_twice :
    (env env' : Env) (id : String) (s : Store)
    → undated (guarded_start_story env' id (guarded_start_story env id s))
      ≡ undated (guarded_start_story env id s)
started_twice env env' id s = elim (start_cases id s) [
  | inl kept ↦ ap undated (ap (guarded_start_story env' id) (kept env) ∙ kept env' ∙ sym (kept env))
  | inr started ↦
      let t = update_story_status env id in_progress s in
      let again : undated (guarded_start_story env' id t) ≡ undated t = elim (start_cases id t) [
        | inl kept ↦ ap undated (kept env')
        | inr more ↦ ap undated (more env') ∙ update_story_again id _ _ s (λ r. refl)
      ] in
      ap (λ u. undated (guarded_start_story env' id u)) (started env)
      ∙ again
      ∙ ap undated (sym (started env))
]

update_where-both :
    (p : Story → Bool) (f g : Story → Story) (rs : List Story)
    → ((r : Story) → p (g r) ≡ p r)
    → update_where p f (update_where p g rs) ≡ update_where p (λ r. f (g r)) rs
unfolding update_where
update_where-both p f g [] h = refl
update_where-both p f g (r ∷ rs) h = ground (arith, h r, update_where-both p f g rs h)

abbrev reset_story : Env → String → Store → Store
reset_story env id s = update_story_escalation_tier env id 0 (update_story_status env id draft s)

reset_once :
    (env : Env) (id : String) (s : Store)
    → reset_story env id s
      ≡ update_story id
          (λ r. record r { status = draft; escalation_tier = 0; updated_at = env.now })
          s
unfolding update_story
reset_once env id s =
    ap (λ rows. record s { stories = rows })
      (update_where-both (λ r. str_eq r.id id)
        (λ r. record r { escalation_tier = 0; updated_at = env.now })
        (λ r. record r { status = draft; updated_at = env.now }) s.stories (λ r. refl))

pub reset_twice :
    (env env' : Env) (id : String) (s : Store)
    → undated (reset_story env' id (reset_story env id s)) ≡ undated (reset_story env id s)
reset_twice env env' id s =
    ap undated (reset_once env' id (reset_story env id s))
    ∙ ap
        (λ t. undated (
          update_story id
            (λ r. record r { status = draft; escalation_tier = 0; updated_at = env'.now }) t))
        (reset_once env id s)
    ∙ update_story_again id _ _ s (λ r. refl)
    ∙ ap undated (sym (reset_once env id s))

text_change_twice : (c old : String) → text_change c (text_change c old) ≡ text_change c old
text_change_twice c old = ground arith

int_change_twice : (c : Option Value) (old : ℕ) → int_change c (int_change c old) ≡ int_change c old
int_change_twice (some (num n)) old = refl
int_change_twice (some v) old = refl
int_change_twice none old = refl

pub rewritten_twice :
    (env env' : Env) (id : String) (p : Fields) (s : Store)
    → undated (project_story_rewritten env' id p (project_story_rewritten env id p s))
      ≡ undated (project_story_rewritten env id p s)
unfolding project_story_rewritten
rewritten_twice env env' id p s =
    let c = payload_map p "changes" in
    update_story_again id _ _ s λ r. λ i. record r {
      title = text_change_twice (payload_str c "title") r.title i;
      description = text_change_twice (payload_str c "description") r.description i;
      acceptance_criteria =
          text_change_twice (payload_str c "acceptance_criteria") r.acceptance_criteria i;
      complexity = int_change_twice (field_of c "complexity") r.complexity i;
      escalation_tier = 0;
      status = draft;
      updated_at = 0;
    }

approve_twice : (st : StoryStatus) → approve (approve st) ≡ approve st
approve_twice merged = refl
approve_twice _ = refl

pub approved_twice :
    (env env' : Env) (id : String) (s : Store)
    → undated (update_story_approved env' id (update_story_approved env id s))
      ≡ undated (update_story_approved env id s)
approved_twice env env' id s =
    update_story_again id _ _ s
      (λ r i. record r { status = approve_twice r.status i; updated_at = 0 })
