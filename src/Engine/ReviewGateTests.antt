-- ===== src/Engine/ReviewGateTests.antt =====
-- Review modes, and the theorem on them.
use vortex_dispatch.Engine.ReviewGate.{MergeConfig, resolve_mode}
use vortex_dispatch.Engine.ReviewGate.Mode.{resolve_mode-append}
use vortex_dispatch.Engine.Tier.{file_store}
use vortex_dispatch.Prelude.{List, String, [], if◌then◌else◌, refl, some, true, ◌&&◌, ◌∷◌, ◌≡◌}
use vortex_dispatch.State.Event.{Event, EventType-discrete, field, no_fields, review_mode_set, str}
use vortex_dispatch.State.Filter.{
  Line, any_event, append, corrupt, event, list_events, passes, read_and_filter,
}

abbrev setting : String → String → Event
setting req_id mode = record {
  id = "e";
  type = review_mode_set;
  timestamp = 1;
  agent_id = "";
  story_id = "";
  payload = some (field "req_id" (str req_id) (field "mode" (str mode) no_fields));
}

abbrev cfg : MergeConfig
cfg = record { review_mode = ""; auto_merge = true }

abbrev modes : List Line
modes = event (setting "r" "plan") ∷ corrupt ∷ event (setting "q" "full") ∷ []

program : Unit {0}
unfolding resolve_mode list_events read_and_filter passes EventType-discrete append
    mathlib.Core.Bool.decide
program = tt

set_mode : resolve_mode (file_store modes) "r" cfg ≡ "plan"
unfolding program
set_mode = refl

configured : resolve_mode (file_store modes) "s" cfg ≡ "auto"
unfolding program
configured = refl

resolve_mode-append_example :
    resolve_mode (file_store (append (setting "r" "manual") modes)) "r" cfg ≡ (
      if passes (record any_event { type = some review_mode_set }) (setting "r" "manual") && true
      then "manual"
      else resolve_mode (file_store modes) "r" cfg)
resolve_mode-append_example = resolve_mode-append modes (setting "r" "manual") "r" cfg
