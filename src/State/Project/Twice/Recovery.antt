-- ===== src/State/Project/Twice/Recovery.antt =====
-- RECOVERY_COMPLETED a second time (projectRecoveryCompleted of
-- internal/state/sqlite_requirements.go).
use mathlib.Core.Option
use vortex_dispatch.Prelude.{
  Bool, Bool-cases, List, Option, Option-cases, String, [], ap, ap₂, arith, if◌then◌else◌, inl, inr,
  ltb, map, none, refl, some, str_eq, ℕ, ◌∙◌, ◌∷◌, ◌≡◌,
}
use vortex_dispatch.State.Event.{Event}
use vortex_dispatch.State.Handlers.{
  is_resumable, latest_resumable, newer, project_recovery_completed, update_req,
}
use vortex_dispatch.State.Store.{Requirement, Store}
use vortex_dispatch.State.Table.{update_where}
use vortex_dispatch.State.Table.Twice.{update_where_idem}

update_req_idem :
    (id : String) (f : Requirement → Requirement) (s : Store)
    → ((r : Requirement) → f (f r) ≡ f r)
    → update_req id f (update_req id f s) ≡ update_req id f s
unfolding update_req
update_req_idem id f s h =
    ap (λ rows. record s { requirements = rows })
      (update_where_idem (λ r. str_eq r.id id) f s.requirements h)

-- The sub-select of projectRecoveryCompleted chooses the same row after its own update.
module _ (h : Requirement → Requirement) (same_status : (r : Requirement) → (h r).status ≡ r.status)
    (same_created : (r : Requirement) → (h r).created_at ≡ r.created_at) where
  newer-map :
      (r : Requirement) (o : Option Requirement)
      → newer (h r) (Option.map h o) ≡ Option.map h (newer r o)
  newer-map r none = refl
  newer-map r (some q) =
      let t = ap₂ ltb (same_created r) (same_created q) in
      elim (Bool-cases (ltb r.created_at q.created_at)) [
        | inl e ↦ rw (t ∙ e, e)
        | inr e ↦ rw (t ∙ e, e)
      ]

  latest-map :
      (rs : List Requirement) → latest_resumable (map h rs) ≡ Option.map h (latest_resumable rs)
  latest-map [] = refl
  latest-map (r ∷ rs) = elim (Bool-cases (is_resumable r.status)) [
    | inl e ↦
        rw (ap is_resumable (same_status r) ∙ e, e, latest-map rs)
          (newer-map r (latest_resumable rs))
    | inr e ↦ rw (ap is_resumable (same_status r) ∙ e, e, latest-map rs)
  ]

update_where-map :
    (p : Requirement → Bool) (f : Requirement → Requirement) (rs : List Requirement)
    → update_where p f rs ≡ map (λ r. if p r then f r else r) rs
unfolding update_where
update_where-map p f [] = refl
update_where-map p f (r ∷ rs) = ap₂ ◌∷◌ refl (update_where-map p f rs)

abbrev mark : String → ℕ → Requirement → Requirement
mark id at r = if str_eq r.id id then record r { recovered_at = some at } else r

mark_same :
    (id : String) (at : ℕ) (r : Requirement)
    → ((mark id at r).status ≡ r.status)
      × ((mark id at r).created_at ≡ r.created_at)
      × ((mark id at r).id ≡ r.id)
mark_same id at r = ground arith

recovered_once :
    (e : Event) (s : Store) (q : Requirement)
    → latest_resumable s.requirements ≡ some q
    → project_recovery_completed e s
      ≡ update_req q.id (λ r. record r { recovered_at = some e.timestamp }) s
unfolding project_recovery_completed
recovered_once e s q h = rw (h, project_recovery_completed)

latest_again :
    (e : Event) (s : Store) (q : Requirement)
    → latest_resumable s.requirements ≡ some q
    → latest_resumable
        (update_req q.id (λ r. record r { recovered_at = some e.timestamp }) s).requirements
      ≡ some (mark q.id e.timestamp q)
unfolding update_req
latest_again e s q h =
    ap latest_resumable (update_where-map (λ r. str_eq r.id q.id) _ s.requirements)
    ∙ latest-map (mark q.id e.timestamp) (λ r. (mark_same q.id e.timestamp r).0)
        (λ r. (mark_same q.id e.timestamp r).1) s.requirements
    ∙ ap (Option.map (mark q.id e.timestamp)) h

pub recovery_twice :
    (e : Event) (s : Store)
    → project_recovery_completed e (project_recovery_completed e s) ≡ project_recovery_completed e s
recovery_twice e s = elim (Option-cases (latest_resumable s.requirements)) [
  | inl absent ↦
      let none_there = idle_recovery absent in ap (project_recovery_completed e) none_there
  | inr (q, found) ↦
      let once = recovered_once e s q found in
      let id_kept = (mark_same q.id e.timestamp q).2 in
      rw once (
        recovered_once e _ (mark q.id e.timestamp q) (latest_again e s q found)
        ∙ (rw id_kept (update_req_idem q.id _ s (λ r. refl))))
]
  where
    idle_recovery : latest_resumable s.requirements ≡ none → project_recovery_completed e s ≡ s
    idle_recovery absent =
        unfold project_recovery_completed in rw (absent, project_recovery_completed)
