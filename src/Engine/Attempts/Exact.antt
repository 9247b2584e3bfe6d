-- ===== src/Engine/Attempts/Exact.antt =====
-- The attempts of a log, without the loop.
use vortex_dispatch.Engine.Attempts.{
  Attempt, close, finish, in_progress_at, is_start, list_attempts, new_attempt, scan_event,
  scan_events,
}
use vortex_dispatch.Engine.Tier.{EventStore}
use vortex_dispatch.Prelude.{
  Bool-cases, List, Option, Option-cases, String, [], ap, append-nil, append_assoc, if◌then◌else◌,
  inl, inr, none, refl, some, sym, ℕ, ◌++◌, ◌+◌, ◌∙◌, ◌∷◌, ◌≡◌,
}
use vortex_dispatch.State.Event.{Event}
use vortex_dispatch.State.Filter.{any_event}

module _ (join : List String → String) (now : ℕ) where
  -- What becomes of an attempt: the first event that ends it, unless the story is started again
  -- before, when the attempt is lost.
  abbrev pub fate : Attempt → List Event → List Attempt
  fate a [] = in_progress_at join now a ∷ []
  fate a (e ∷ es) =
      let later = fate a es in
      if is_start e.type
      then []
      else (elim (close join e.type e a) [ none ↦ later | some b ↦ b ∷ [] ])

  -- An attempt for each start, by what comes after it; `n` starts were before.
  abbrev pub attempts_of : ℕ → List Event → List Attempt
  attempts_of n [] = []
  attempts_of n (e ∷ es) =
      let first = fate (new_attempt (n + 1) e) es ++ attempts_of (n + 1) es in
      let others = attempts_of n es in if is_start e.type then first else others

  abbrev pub fate_of : Option Attempt → List Event → List Attempt
  fate_of none es = []
  fate_of (some a) es = fate a es

  scan_events-attempts_of :
      (es : List Event) (attempts : List Attempt) (current : Option Attempt) (n : ℕ)
      → finish join now
          (scan_events join es (record { attempts = attempts; current = current; attempt_num = n }))
        ≡ attempts ++ (fate_of current es ++ attempts_of n es)
  unfolding scan_events scan_event
  scan_events-attempts_of [] attempts none n = sym (append-nil attempts)
  scan_events-attempts_of [] attempts (some a) n = refl
  scan_events-attempts_of (e ∷ es) attempts none n = elim (Bool-cases (is_start e.type)) [
    | inl y ↦
        simp (scan_event, attempts_of, y)
          (scan_events-attempts_of es attempts (some (new_attempt (n + 1) e)) (n + 1))
    | inr other ↦ simp (scan_event, attempts_of, other) (scan_events-attempts_of es attempts none n)
  ]
  scan_events-attempts_of (e ∷ es) attempts (some a) n = elim (Bool-cases (is_start e.type)) [
    | inl y ↦
        simp (scan_event, attempts_of, fate, y)
          (scan_events-attempts_of es attempts (some (new_attempt (n + 1) e)) (n + 1))
    | inr other ↦ elim (Option-cases (close join e.type e a)) [
      | inl stays ↦
          simp (scan_event, attempts_of, fate, other, stays)
            (scan_events-attempts_of es attempts (some a) n)
      | inr (b, ended_as) ↦
          simp (scan_event, attempts_of, fate, other, ended_as)
            (scan_events-attempts_of es (attempts ++ b ∷ []) none n
              ∙ append_assoc attempts (b ∷ []) (attempts_of n es))
    ]
  ]

  -- If the store can be read, ListAttempts has an attempt for each start of the story that an
  -- ending event follows before the next start, numbered by the starts up to it and closed by the
  -- first such event, and one in progress for the last start if no ending event follows it. A start
  -- that is followed by another start first is left out.
  pub list_attempts_exact :
      (store : EventStore) (story_id : String) (events : List Event)
      → store.list (record any_event { story_id = story_id }) ≡ some events
      → list_attempts join store now story_id ≡ some (attempts_of 0 events)
  unfolding list_attempts
  list_attempts_exact store story_id events h =
      rw (list_attempts, h) (ap some (scan_events-attempts_of events [] none 0))
