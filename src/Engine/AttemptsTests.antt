-- ===== src/Engine/AttemptsTests.antt =====
-- Logs of attempts, and the theorem on them.
use mathlib.Core.Option
use vortex_dispatch.Engine.Attempts.{last_attempt, list_attempts, scan_event, scan_events}
use vortex_dispatch.Engine.Attempts.Exact.{attempts_of, list_attempts_exact}
use vortex_dispatch.Engine.Tier.{EventStore}
use vortex_dispatch.Prelude.{List, String, [], map, refl, some, ℕ, ◌∷◌, ◌≡◌}
use vortex_dispatch.State.Event.{
  Event, EventType, Fields, field, no_fields, num, story_review_failed, story_started, str,
}

abbrev event_of : ℕ → EventType → Fields → Event
event_of time ty p = record {
  id = "e";
  type = ty;
  timestamp = time;
  agent_id = "agent";
  story_id = "s";
  payload = some p;
}

-- The first start is followed by another, the second attempt fails, and the third is running.
abbrev events : List Event
events =
    event_of 1 story_started no_fields
    ∷ event_of 2 story_started (field "tier" (num 1) no_fields)
    ∷ event_of 3 story_review_failed (field "reason" (str "late") no_fields)
    ∷ event_of 4 story_started no_fields
    ∷ []

abbrev store : EventStore
store = record { list = λ f. some events; count = λ f. some 4 }

abbrev joined : List String → String
joined names = ""

program : Unit {0}
unfolding list_attempts scan_events scan_event last_attempt
program = tt

-- The first attempt is not in the list.
two_of_three :
    Option.map (map (λ a. a.number)) (list_attempts joined store 9 "s") ≡ some (2 ∷ 3 ∷ [])
unfolding program
two_of_three = refl

last_running :
    Option.map (Option.map (λ a. a.ended_at)) (last_attempt joined store 9 "s") ≡ some (some 9)
unfolding program
last_running = refl

list_attempts_exact_example :
    list_attempts joined store 9 "s" ≡ some (attempts_of joined 9 0 events)
list_attempts_exact_example = list_attempts_exact joined 9 store "s" events refl
