-- ===== src/Engine/Tier.antt =====
-- The escalation tier of a story and its retries at that tier, read from the log
-- (internal/engine/escalation.go, EscalationMachine).
pub mod Attempts
pub mod Exact
pub mod Advance
use vortex_dispatch.Prelude.{
  Bool, List, Option, String, [], count, false, if◌then◌else◌, leb, ltb, some, suc, true, zero, ℕ,
  ◌+◌, ◌>>=◌, ◌∷◌,
}
use vortex_dispatch.State.Event.{
  Event, EventType, Value, decode_payload, field_of, num, story_escalated, story_qa_failed,
  story_reset, story_review_failed,
}
use vortex_dispatch.State.Filter.{EventFilter, Line, any_event, count_events, list_events}

-- state.EventStore as far as the machine reads it; `none` is the error of a read.
pub record EventStore : Type 0 where
  pub list : EventFilter → Option (List Event)
  pub count : EventFilter → Option ℕ

-- The FileStore over a file that can be read.
abbrev pub file_store : List Line → EventStore
file_store ls = record {
  list = λ f. some (list_events f ls);
  count = λ f. some (count_events f ls);
}

pub record RoutingConfig : Type 0 where
  pub junior_max_complexity : ℕ
  pub intermediate_max_complexity : ℕ
  pub max_retries_before_escalation : ℕ
  pub max_senior_retries : ℕ
  pub max_manager_attempts : ℕ
  pub adaptive : Bool
  pub adaptive_min_samples : ℕ

-- The filter by type and story, and by a time.
abbrev pub of_story : EventType → String → ℕ → EventFilter
of_story ty story after = record any_event { type = some ty; story_id = story; after = after }

-- The loops of latestResetTime and lastEscalationTime.
unfoldable pub latest : List Event → ℕ → ℕ
latest [] time = time
latest (e ∷ es) time = latest es (if ltb time e.timestamp then e.timestamp else time)

unfoldable pub latest_reset_time : EventStore → String → Option ℕ
latest_reset_time store story =
    store.list (of_story story_reset story 0) >>= λ events. some (latest events 0)

abbrev pub raise : Option Value → ℕ → ℕ
raise (some (num to_tier)) tier = if ltb tier to_tier then to_tier else tier
raise _ tier = tier

-- The loop of CurrentTier.
unfoldable pub max_tier : ℕ → List Event → ℕ → ℕ
max_tier reset_at [] tier = tier
max_tier reset_at (e ∷ es) tier = max_tier reset_at es (
    if ltb reset_at e.timestamp
    then raise (field_of (decode_payload e.payload) "to_tier") tier
    else tier)

unfoldable pub current_tier : EventStore → String → Option ℕ
current_tier store story = do
  reset_at ← latest_reset_time store story
  events ← store.list (of_story story_escalated story 0)
  some (max_tier reset_at events 0)

unfoldable pub last_escalation_time : EventStore → String → Option ℕ
last_escalation_time store story = do
  events ← store.list (of_story story_escalated story 0)
  reset_at ← latest_reset_time store story
  some (latest events reset_at)

unfoldable pub retry_count_at_current_tier : EventStore → String → Option ℕ
retry_count_at_current_tier store story = do
  after ← last_escalation_time store story
  reviews ← store.count (of_story story_review_failed story after)
  qas ← store.count (of_story story_qa_failed story after)
  some (reviews + qas)

unfoldable pub max_retries_for_tier : RoutingConfig → ℕ → ℕ
max_retries_for_tier cfg zero = cfg.max_retries_before_escalation
max_retries_for_tier cfg (suc zero) = cfg.max_senior_retries
max_retries_for_tier cfg (suc (suc zero)) = cfg.max_manager_attempts
max_retries_for_tier cfg (suc (suc (suc zero))) = 1
max_retries_for_tier cfg _ = 0

-- Whether to escalate, and the tier to go on with.
unfoldable pub should_escalate : EventStore → RoutingConfig → String → Option (Bool × ℕ)
should_escalate store cfg story = do
  tier ← current_tier store story
  count ← retry_count_at_current_tier store story
  some (if leb (max_retries_for_tier cfg tier) count then (true, tier + 1) else (false, tier))
