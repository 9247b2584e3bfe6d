-- ===== src/State/Project/Created.antt =====
-- A story is created once: projectStoryCreated of internal/state/sqlite.go, and the events after it.
use vortex_dispatch.Prelude.{
  Bool, Bool-cases, List, Option, String, [], ap, arith, if◌then◌else◌, inl, inr, none, refl, some,
  str_eq, str_eq_iff, str_eq_refl, subst, sym, true, ℕ, ◌++◌, ◌∙◌, ◌∷◌, ◌≡◌, ◌⊎◌,
}
use vortex_dispatch.State.Event.{
  Event, EventType-discrete, Fields, decode_payload, field_of, payload_str, story_created,
}
use vortex_dispatch.State.Handlers.{
  Env, as_items, insert_deps, new_story, project_story_created, projected, unique_violation,
}
use vortex_dispatch.State.Project.{apply, project, store_of}
use vortex_dispatch.State.Project.Lifecycle.{
  move, next_progress, own, progress, progress_of, rows_progress,
}
use vortex_dispatch.State.Project.Lifecycle.Refines.{project-next_progress}
use vortex_dispatch.State.Store.{Store, Story, StoryStatus, same_story}
use vortex_dispatch.State.Table.{any_same, insert_row}

-- A story with this id is stored.
abbrev pub HasStory : String → Store → Type 0
HasStory id s = (x : StoryStatus × ℕ) × (progress_of s id ≡ some x)

any_same-progress :
    (r : Story) (rs : List Story) (x : StoryStatus × ℕ)
    → rows_progress rs r.id ≡ some x
    → any_same same_story r rs ≡ true
any_same-progress r [] x h = cc h
any_same-progress r (q ∷ rs) x h = elim (Bool-cases (str_eq r.id q.id)) [
  | inl y ↦ rw y
  | inr n ↦
      rw n (
        any_same-progress r rs x (ground (arith, h, n, str_eq_iff r.id q.id, str_eq_iff q.id r.id)))
]

rows_progress-append :
    (rs : List Story) (r : Story) (id : String) (x : StoryStatus × ℕ)
    → rows_progress rs id ≡ some x
    → rows_progress (rs ++ r ∷ []) id ≡ some x
rows_progress-append [] r id x h = cc h
rows_progress-append (q ∷ rs) r id x h = elim (Bool-cases (str_eq q.id id)) [
  | inl y ↦ rw y (ground (arith, h, y))
  | inr n ↦ rw n (rows_progress-append rs r id x (ground (arith, h, n)))
]

rows_progress-last :
    (rs : List Story) (r : Story)
    → (x : StoryStatus × ℕ) × (rows_progress (rs ++ r ∷ []) r.id ≡ some x)
rows_progress-last [] r = (progress r, rw (str_eq_refl r.id) refl)
rows_progress-last (q ∷ rs) r = elim (Bool-cases (str_eq q.id r.id)) [
  | inl y ↦ (progress q, rw y refl)
  | inr n ↦ let (x, h) = rows_progress-last rs r in (x, rw n h)
]

-- The id that a STORY_CREATED gives its story.
abbrev pub created_id : Event → String
created_id e = payload_str (decode_payload e.payload) "id"

created_cases :
    (env : Env) (p : Fields) (s : Store)
    → ((any_same same_story (new_story env p) s.stories ≡ true)
        × (project_story_created env p s ≡ unique_violation s))
      ⊎ ((t : Store) × (project_story_created env p s ≡ projected t)
          × (t.stories ≡ s.stories ++ new_story env p ∷ []))
unfolding project_story_created insert_row
created_cases env p s = elim (Bool-cases (any_same same_story (new_story env p) s.stories)) [
  | inl y ↦ inl (y, rw (project_story_created, y))
  | inr n ↦ inr (
    record s {
      stories = s.stories ++ new_story env p ∷ [];
      story_deps =
          insert_deps (payload_str p "id") (as_items (field_of p "depends_on")) s.story_deps;
    },
    rw (project_story_created, n) refl,
    refl,
  )
]

created_refused :
    (env : Env) (p : Fields) (s : Store)
    → HasStory (payload_str p "id") s
    → project_story_created env p s ≡ unique_violation s
unfolding project_story_created insert_row
created_refused env p s (x, h) =
    rw (project_story_created, any_same-progress (new_story env p) s.stories x h)

created_keeps :
    (env : Env) (p : Fields) (s : Store) (id : String)
    → HasStory id s
    → HasStory id (store_of (project_story_created env p s))
created_keeps env p s id (x, h) = elim (created_cases env p s) [
  | inl (y, e) ↦ (x, ap (λ o. progress_of (store_of o) id) e ∙ h)
  | inr (t, e, rows) ↦ (
    x,
    ap (λ o. progress_of (store_of o) id) e
        ∙ ap (λ rs. rows_progress rs id) rows
        ∙ rows_progress-append s.stories (new_story env p) id x h,
  )
]

created_there :
    (env : Env) (p : Fields) (s t : Store)
    → project_story_created env p s ≡ projected t
    → HasStory (payload_str p "id") t
created_there env p s t h = elim (created_cases env p s) [
  | inl (y, e) ↦ absurd (cc (h, e))
  | inr (u, e, rows) ↦
      let (x, found) = rows_progress-last s.stories (new_story env p) in
      let same : u ≡ t = cc (h, e) in
      (
        x,
        ap (λ (v : Store). progress_of v (payload_str p "id")) (sym same)
            ∙ ap (λ rs. rows_progress rs (payload_str p "id")) rows
            ∙ found,
      )
]

move-some :
    (own : Bool) (g : StoryStatus × ℕ → StoryStatus × ℕ) (o : Option (StoryStatus × ℕ))
    (x : StoryStatus × ℕ)
    → o ≡ some x
    → (y : StoryStatus × ℕ) × (move own g o ≡ some y)
move-some own g none x h = absurd (cc h)
move-some own g (some z) x h = (if own then g z else z, refl)

-- No event deletes a story.
project-HasStory :
    (env : Env) (e : Event) (s : Store) (id : String)
    → HasStory id s
    → HasStory id (store_of (project env e s))
unfolding project apply
project-HasStory env e s id (x, h) = elim (EventType-discrete e.type story_created) [
  | yes created ↦
      subst (λ ty. HasStory id (store_of (apply env ty e (decode_payload e.payload) s)))
        (sym created) (created_keeps env (decode_payload e.payload) s id (x, h))
  | no other ↦
      let (y, k) =
        move-some (str_eq e.story_id id) (next_progress e.type (decode_payload e.payload))
          (progress_of s id) x h in
      (y, project-next_progress env e s id other ∙ k)
]

-- Events one after the other, where a refused one leaves the tables as they are.
abbrev pub project_all : List (Env × Event) → Store → Store
project_all [] s = s
project_all ((env, e) ∷ es) s = project_all es (store_of (project env e s))

project_all-HasStory :
    (es : List (Env × Event)) (s : Store) (id : String)
    → HasStory id s
    → HasStory id (project_all es s)
project_all-HasStory [] s id h = h
project_all-HasStory ((env, e) ∷ es) s id h =
    project_all-HasStory es (store_of (project env e s)) id (project-HasStory env e s id h)

-- After a STORY_CREATED has been projected, and any events after it, another STORY_CREATED that
-- names the same story id is refused as a violated key and changes nothing, whatever else it
-- carries.
pub project_created_again :
    (env env' : Env) (e e' : Event) (es : List (Env × Event)) (s t : Store)
    → e.type ≡ story_created
    → e'.type ≡ story_created
    → created_id e' ≡ created_id e
    → project env e s ≡ projected t
    → project env' e' (project_all es t) ≡ unique_violation (project_all es t)
unfolding project apply
project_created_again env env' e e' es s t n n' same h =
    let first =
      created_there env (decode_payload e.payload) s t
        (sym (ap (λ ty. apply env ty e (decode_payload e.payload) s) n) ∙ h) in
    let later = project_all-HasStory es t (created_id e) first in
    ap (λ ty. apply env' ty e' (decode_payload e'.payload) (project_all es t)) n'
    ∙ created_refused env' (decode_payload e'.payload) (project_all es t)
        (subst (λ id. HasStory id (project_all es t)) (sym same) later)
