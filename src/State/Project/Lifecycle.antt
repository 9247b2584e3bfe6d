-- ===== src/State/Project/Lifecycle.antt =====
-- The life of one story under the projection: the tables implement a state machine on its status
-- and its escalation tier.
pub mod Refines
use mathlib.Core.Option
use vortex_dispatch.Prelude.{
  Bool, Bool-cases, List, Option, Option-cases, String, [], ap, arith, false, if◌then◌else◌, inl,
  inr, none, refl, some, str_eq, str_eq_iff, sym, true, ℕ, ◌∙◌, ◌∷◌, ◌≡◌,
}
use vortex_dispatch.State.Event.{
  Event, EventType, Fields, payload_int, story_approved, story_assigned, story_awaiting_approval,
  story_completed, story_escalated, story_estimated, story_merged, story_pr_created,
  story_qa_failed, story_qa_passed, story_qa_started, story_rejected, story_reset,
  story_review_failed, story_review_passed, story_review_requested, story_rewritten, story_split,
  story_started,
}
use vortex_dispatch.State.Handlers.{Env, guarded_start_story, update_story, update_story_status}
use vortex_dispatch.State.Store.{
  Store, Story, StoryStatus, approved, assigned, awaiting_approval, draft, estimated, get_story,
  in_progress, is_story_complete, merged, pr_submitted, qa, review, split,
}
use vortex_dispatch.State.Table.{find_where, update_where}

-- The machine, read off the meaning of the events.
abbrev pub next_progress : EventType → Fields → StoryStatus × ℕ → StoryStatus × ℕ
next_progress story_estimated p (st, tier) = (estimated, tier)
next_progress story_assigned p (st, tier) = (assigned, tier)
next_progress story_started p (merged, tier) = (merged, tier)
next_progress story_started p (pr_submitted, tier) = (pr_submitted, tier)
next_progress story_started p (split, tier) = (split, tier)
next_progress story_started p (awaiting_approval, tier) = (awaiting_approval, tier)
next_progress story_started p (st, tier) = (in_progress, tier)
next_progress story_completed p (st, tier) = (review, tier)
next_progress story_review_requested p (st, tier) = (review, tier)
next_progress story_review_passed p (st, tier) = (qa, tier)
next_progress story_review_failed p (st, tier) = (draft, tier)
next_progress story_qa_started p (st, tier) = (qa, tier)
next_progress story_qa_passed p (st, tier) = (pr_submitted, tier)
next_progress story_qa_failed p (st, tier) = (draft, tier)
next_progress story_pr_created p (st, tier) = (pr_submitted, tier)
next_progress story_merged p (st, tier) = (merged, tier)
next_progress story_awaiting_approval p (st, tier) = (awaiting_approval, tier)
next_progress story_approved p (merged, tier) = (merged, tier)
next_progress story_approved p (st, tier) = (approved, tier)
next_progress story_rejected p (st, tier) = (draft, tier)
next_progress story_reset p (st, tier) = (draft, 0)
next_progress story_escalated p (st, tier) = (st, payload_int p "to_tier")
next_progress story_rewritten p (st, tier) = (draft, 0)
next_progress story_split p (st, tier) = (split, tier)
next_progress ty p (st, tier) = (st, tier)

abbrev pub progress : Story → StoryStatus × ℕ
progress r = (r.status, r.escalation_tier)

abbrev pub rows_progress : List Story → String → Option (StoryStatus × ℕ)
rows_progress [] j = none
rows_progress (r ∷ rs) j = if str_eq r.id j then some (progress r) else rows_progress rs j

abbrev pub progress_of : Store → String → Option (StoryStatus × ℕ)
progress_of s j = rows_progress s.stories j

abbrev pub move :
    Bool → (StoryStatus × ℕ → StoryStatus × ℕ) → Option (StoryStatus × ℕ) → Option (StoryStatus × ℕ)
move own g none = none
move own g (some x) = some (if own then g x else x)

rows_progress-update :
    (i j : String) (f : Story → Story) (g : StoryStatus × ℕ → StoryStatus × ℕ) (rs : List Story)
    → ((r : Story) → (f r).id ≡ r.id)
    → ((r : Story) → progress (f r) ≡ g (progress r))
    → rows_progress (update_where (λ (r : Story). str_eq r.id i) f rs) j
      ≡ move (str_eq i j) g (rows_progress rs j)
unfolding update_where
rows_progress-update i j f g [] h k = refl
rows_progress-update i j f g (r ∷ rs) h k = ground (
  arith,
  h r,
  k r,
  str_eq_iff r.id i,
  str_eq_iff r.id j,
  str_eq_iff i j,
  rows_progress-update i j f g rs h k,
)

module _ (i j : String) (s : Store) where
  pub progress-update_story :
      (f : Story → Story) (g : StoryStatus × ℕ → StoryStatus × ℕ)
      → ((r : Story) → (f r).id ≡ r.id)
      → ((r : Story) → progress (f r) ≡ g (progress r))
      → progress_of (update_story i f s) j ≡ move (str_eq i j) g (progress_of s j)
  unfolding update_story
  progress-update_story f g h k = rows_progress-update i j f g s.stories h k

  pub progress-same : move (str_eq i j) (λ x. x) (progress_of s j) ≡ progress_of s j
  progress-same = go (str_eq i j) (progress_of s j)
    where
      go : (b : Bool) (o : Option (StoryStatus × ℕ)) → move b (λ x. x) o ≡ o
      go b none = refl
      go true (some x) = refl
      go false (some x) = refl

-- guardedStartStory reads the row before it writes.
pub rows_progress-find :
    (j : String) (rs : List Story)
    → rows_progress rs j ≡ Option.map progress (find_where (λ (r : Story). str_eq r.id j) rs)
rows_progress-find j [] = refl
rows_progress-find j (r ∷ rs) = ground (arith, rows_progress-find j rs)

pub move-ext :
    (own : Bool) (g g' : StoryStatus × ℕ → StoryStatus × ℕ) (o : Option (StoryStatus × ℕ))
    → ((x : StoryStatus × ℕ) → own ≡ true → o ≡ some x → g x ≡ g' x)
    → move own g o ≡ move own g' o
move-ext own g g' none h = refl
move-ext true g g' (some x) h = ap some (h x refl refl)
move-ext false g g' (some x) h = refl

start_complete :
    (p : Fields) (st : StoryStatus) (tier : ℕ)
    → is_story_complete st ≡ true
    → next_progress story_started p (st, tier) ≡ (st, tier)
unfolding is_story_complete
start_complete p st tier h = ground arith

start_open :
    (p : Fields) (st : StoryStatus) (tier : ℕ)
    → is_story_complete st ≡ false
    → next_progress story_started p (st, tier) ≡ (in_progress, tier)
unfolding is_story_complete
start_open p st tier h = ground arith

module _ (e : Event) (p : Fields) (s : Store) (j : String) where
  abbrev pub own : Bool
  own = str_eq e.story_id j

  abbrev pub goes : EventType → Option (StoryStatus × ℕ)
  goes ty = move own (next_progress ty p) (progress_of s j)

  own-progress : own ≡ true → progress_of s j ≡ Option.map progress (get_story s e.story_id)
  own-progress h =
      let same : e.story_id ≡ j = (str_eq_iff e.story_id j).0 h in
      rw same (rows_progress-find j s.stories)

  started-progress :
      (env : Env)
      → ((x : StoryStatus × ℕ)
          → own ≡ true
          → progress_of s j ≡ some x
          → (in_progress, x.1) ≡ next_progress story_started p x)
      → progress_of (update_story_status env e.story_id in_progress s) j ≡ goes story_started
  started-progress env h =
      progress-update_story e.story_id j s
        (λ r. record r { status = in_progress; updated_at = env.now }) (λ x. (in_progress, x.1))
        (λ r. refl) (λ r. refl)
      ∙ move-ext own (λ x. (in_progress, x.1)) (next_progress story_started p) (progress_of s j) h

  pub guarded_start-progress :
      (env : Env) → progress_of (guarded_start_story env e.story_id s) j ≡ goes story_started
  unfolding guarded_start_story
  guarded_start-progress env = elim (Option-cases (get_story s e.story_id)) [
    | inl absent ↦
        rw (absent, guarded_start_story)
          (started-progress env (λ x o h. cc (own-progress o, absent, h)))
    | inr (r, found) ↦ elim (Bool-cases (is_story_complete r.status)) [
      | inl complete ↦
          rw (found, guarded_start_story, complete)
            (sym (progress-same e.story_id j s)
              ∙ move-ext own (λ x. x) (next_progress story_started p) (progress_of s j)
                  (λ x o h.
                    let seen : progress r ≡ x = cc (own-progress o, found, h) in
                    rw (← seen) (sym (start_complete p r.status r.escalation_tier complete))))
      | inr open_story ↦
          rw (found, guarded_start_story, open_story)
            (started-progress env (λ x o h.
              let seen : progress r ≡ x = cc (own-progress o, found, h) in
              rw (← seen) (sym (start_open p r.status r.escalation_tier open_story))))
    ]
  ]

  pub progress-update :
      (f : Story → Story) (ty : EventType)
      → ((r : Story) → (f r).id ≡ r.id)
      → ((r : Story) → progress (f r) ≡ next_progress ty p (progress r))
      → progress_of (update_story e.story_id f s) j ≡ goes ty
  progress-update f ty h k = progress-update_story e.story_id j s f (next_progress ty p) h k
