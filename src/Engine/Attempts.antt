-- ===== src/Engine/Attempts.antt =====
-- The attempts at a story, read off the log (internal/engine/attempts.go). The duration of an
-- attempt, which is the difference of its times, is left out. strings.Join comes from Go's library,
-- and is a parameter.
pub mod Exact
use vortex_dispatch.Engine.Tier.{EventStore}
use vortex_dispatch.Prelude.{
  Bool, List, Option, String, [], false, if◌then◌else◌, none, some, true, ℕ, ◌++◌, ◌+◌, ◌>>=◌, ◌∷◌,
}
use vortex_dispatch.State.Event.{
  Event, EventType, Items, Value, arr, decode_payload, field_of, item, no_items, payload_int,
  payload_str, story_merged, story_qa_failed, story_qa_passed, story_reset, story_review_failed,
  story_started, str,
}
use vortex_dispatch.State.Filter.{any_event}

pub data AttemptOutcome : Type 0 where
  no_outcome success review_failed qa_failed error in_progress : AttemptOutcome

pub record Attempt : Type 0 where
  pub number : ℕ
  pub tier : ℕ
  pub role : String
  pub agent_id : String
  pub started_at : ℕ
  pub ended_at : ℕ
  pub outcome : AttemptOutcome
  pub error_text : String

-- The variables of the loop: `current` is the pointer, and `attempt_num` the counter.
pub record Scan : Type 0 where
  pub attempts : List Attempt
  pub current : Option Attempt
  pub attempt_num : ℕ

abbrev pub is_start : EventType → Bool
is_start story_started = true
is_start _ = false

abbrev pub new_attempt : ℕ → Event → Attempt
new_attempt number e =
    let payload = decode_payload e.payload in
    record {
      number = number;
      tier = payload_int payload "tier";
      role = payload_str payload "role";
      agent_id = e.agent_id;
      started_at = e.timestamp;
      ended_at = 0;
      outcome = no_outcome;
      error_text = "";
    }

-- The texts among the entries of failed_checks.
abbrev pub texts_of : Items → List String
texts_of no_items = []
texts_of (item (str s) is) = s ∷ texts_of is
texts_of (item v is) = texts_of is

module _ (join : List String → String) where
  abbrev pub checks_text : Option Value → String
  checks_text (some (arr is)) = join (texts_of is)
  checks_text _ = ""

  -- The attempt as the event ends it; `none` is an event that ends no attempt.
  abbrev pub close : EventType → Event → Attempt → Option Attempt
  close story_qa_passed e a = some (record a { ended_at = e.timestamp; outcome = success })
  close story_merged e a = some (record a { ended_at = e.timestamp; outcome = success })
  close story_review_failed e a = some (record a {
    ended_at = e.timestamp;
    outcome = review_failed;
    error_text = payload_str (decode_payload e.payload) "reason";
  })
  close story_qa_failed e a = some (record a {
    ended_at = e.timestamp;
    outcome = qa_failed;
    error_text = checks_text (field_of (decode_payload e.payload) "failed_checks");
  })
  close story_reset e a = some (record a {
    ended_at = e.timestamp;
    outcome = error;
    error_text = payload_str (decode_payload e.payload) "reason";
  })
  close _ e a = none

  -- The body of the loop.
  unfoldable pub scan_event : Event → Scan → Scan
  scan_event e st =
      let started = record st {
        current = some (new_attempt (st.attempt_num + 1) e);
        attempt_num = st.attempt_num + 1;
      } in
      if is_start e.type then started else (elim st.current [
        | none ↦ st
        | some a ↦ elim (close e.type e a) [
          | none ↦ st
          | some b ↦ record st { attempts = st.attempts ++ b ∷ []; current = none }
        ]
      ])

  unfoldable pub scan_events : List Event → Scan → Scan
  scan_events [] st = st
  scan_events (e ∷ es) st = scan_events es (scan_event e st)

  abbrev pub in_progress_at : ℕ → Attempt → Attempt
  in_progress_at now a = record a { outcome = in_progress; ended_at = now }

  abbrev pub with_current : ℕ → Option Attempt → List Attempt → List Attempt
  with_current now none attempts = attempts
  with_current now (some a) attempts = attempts ++ in_progress_at now a ∷ []

  abbrev pub finish : ℕ → Scan → List Attempt
  finish now st = with_current now st.current st.attempts

  -- ListAttempts; `none` is an error of the store.
  unfoldable pub list_attempts : EventStore → ℕ → String → Option (List Attempt)
  list_attempts store now story_id =
      store.list (record any_event { story_id = story_id }) >>= λ events.
      some (
        finish now (scan_events events (record { attempts = []; current = none; attempt_num = 0 })))

  abbrev pub last_of : List Attempt → Option Attempt
  last_of [] = none
  last_of (a ∷ []) = some a
  last_of (a ∷ b ∷ as') = last_of (b ∷ as')

  -- LastAttempt: an error, or the last attempt if there is one.
  unfoldable pub last_attempt : EventStore → ℕ → String → Option (Option Attempt)
  last_attempt store now story_id =
      list_attempts store now story_id >>= λ attempts. some (last_of attempts)
