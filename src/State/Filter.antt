-- ===== src/State/Filter.antt =====
-- The event log behind FileStore (internal/state/filestore.go, store.go): List and Count read the
-- file line by line. A line is an event, or corrupt, and then it is skipped.
pub mod Laws
use vortex_dispatch.Prelude.{
  Bool, List, Option, String, [], decide, if◌then◌else◌, leb, length, ltb, none, some, str_eq, true,
  ℕ, ◌&&◌, ◌++◌, ◌+◌, ◌==◌, ◌||◌, ◌∷◌,
}
use vortex_dispatch.State.Event.{Event, EventType, EventType-discrete}

-- The zero values of Go mean that a field does not filter.
pub record EventFilter : Type 0 where
  pub type : Option EventType
  pub agent_id : String
  pub story_id : String
  pub limit : ℕ
  pub after : ℕ

abbrev pub any_event : EventFilter
any_event = record { type = none; agent_id = ""; story_id = ""; limit = 0; after = 0 }

abbrev type_passes : Option EventType → EventType → Bool
type_passes none t = true
type_passes (some u) t = decide (EventType-discrete t u)

abbrev text_passes : String → String → Bool
text_passes wanted x = if str_eq wanted "" then true else str_eq x wanted

-- The four tests of the loop body.
unfoldable pub passes : EventFilter → Event → Bool
unfolding EventType-discrete
passes f e =
    type_passes f.type e.type
    && text_passes f.agent_id e.agent_id
    && text_passes f.story_id e.story_id
    && (f.after == 0 || ltb f.after e.timestamp)

pub data Line : Type 0 where
  event : Event → Line
  corrupt : Line

-- The loop of readAndFilter; `out` is what it has collected.
unfoldable pub read_and_filter : EventFilter → List Line → List Event → List Event
read_and_filter f [] out = out
read_and_filter f (corrupt ∷ ls) out = read_and_filter f ls out
read_and_filter f (event e ∷ ls) out =
    let out' = out ++ e ∷ [] in
    let skipped = read_and_filter f ls out in
    let kept = read_and_filter f ls out' in
    if passes f e
    then (if ltb 0 f.limit && leb f.limit (length out') then out' else kept)
    else skipped

-- The loop of Count.
unfoldable pub count_lines : EventFilter → List Line → ℕ → ℕ
count_lines f [] n = n
count_lines f (corrupt ∷ ls) n = count_lines f ls n
count_lines f (event e ∷ ls) n =
    let skipped = count_lines f ls n in
    let kept = count_lines f ls (n + 1) in
    if passes f e then (if ltb 0 f.limit && leb f.limit (n + 1) then n + 1 else kept) else skipped

unfoldable pub list_events : EventFilter → List Line → List Event
list_events f ls = read_and_filter f ls []

unfoldable pub count_events : EventFilter → List Line → ℕ
count_events f ls = count_lines f ls 0

-- Append writes one whole line at the end of the file.
unfoldable pub append : Event → List Line → List Line
append e ls = ls ++ event e ∷ []
