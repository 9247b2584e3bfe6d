-- ===== src/Engine/Rates.antt =====
-- The outcomes of past attempts by tier and complexity (internal/engine/adaptive.go,
-- TierSuccessRates): one walk through the log with two maps and the table of outcomes.
pub mod Exact
pub mod Result
use vortex_dispatch.Engine.Route.{
  Role, TierOutcome, role_intermediate, role_junior, role_manager, role_qa, role_senior,
  role_supervisor, role_tech_lead,
}
use vortex_dispatch.Prelude.{
  Bool, Dict, List, Option, String, [], assign, false, if◌then◌else◌, ltb, none, some, str_eq, true,
  value, ℕ, ◌&&◌, ◌+◌, ◌==◌, ◌||◌, ◌∷◌,
}
use vortex_dispatch.State.Event.{
  Event, EventType, decode_payload, payload_int, payload_str, story_completed, story_created,
  story_escalated, story_started,
}

-- The role that a text names, among the seven of internal/agent/roles.go.
unfoldable pub role_named : String → Option Role
role_named name =
    if str_eq name "tech_lead"
    then some role_tech_lead
    else if str_eq name "senior"
    then some role_senior
    else if str_eq name "intermediate"
    then some role_intermediate
    else if str_eq name "junior"
    then some role_junior
    else if str_eq name "qa"
    then some role_qa
    else if str_eq name "supervisor"
    then some role_supervisor
    else if str_eq name "manager"
    then some role_manager
    else none

-- routeTierForRole with its second result: `none` is a role without a tier.
abbrev pub tier_of_role : Option Role → Option ℕ
tier_of_role (some role_junior) = some 0
tier_of_role (some role_intermediate) = some 1
tier_of_role (some role_senior) = some 2
tier_of_role _ = none

-- The table `out`; a missing cell is no samples.
abbrev pub Outcomes : Type 0
Outcomes = ℕ → ℕ → TierOutcome

abbrev pub no_outcomes : Outcomes
no_outcomes tier complexity = record { successes = 0; failures = 0 }

abbrev pub bump : Bool → TierOutcome → TierOutcome
bump true o = record o { successes = o.successes + 1 }
bump false o = record o { failures = o.failures + 1 }

-- The closure `record`.
abbrev pub put_outcome : ℕ → ℕ → Bool → Outcomes → Outcomes
put_outcome tier complexity success out t c =
    if tier == t && complexity == c then bump success (out t c) else out t c

pub record Walk : Type 0 where
  pub complexity_by_story : Dict ℕ
  pub current_role : Dict String
  pub out : Outcomes

-- An attempt is resolved if the complexity and the role of its story are known.
unfoldable pub resolve_cell : Bool → ℕ → Option ℕ → Walk → Walk
resolve_cell success complexity none w = w
resolve_cell success complexity (some tier) w =
    if ltb 0 complexity then record w { out = put_outcome tier complexity success w.out } else w

abbrev pub resolve : Bool → String → Walk → Walk
resolve success story w =
    resolve_cell success (value 0 w.complexity_by_story story)
      (tier_of_role (role_named (value "" w.current_role story))) w

-- The body of the loop.
unfoldable pub rate_event : EventType → Event → Walk → Walk
rate_event story_created e w = if str_eq e.story_id "" then w else record w {
  complexity_by_story =
      assign e.story_id (payload_int (decode_payload e.payload) "complexity") w.complexity_by_story;
}
rate_event story_started e w =
    let role = payload_str (decode_payload e.payload) "role" in
    if str_eq e.story_id "" || str_eq role ""
    then w
    else record w { current_role = assign e.story_id role w.current_role }
rate_event story_escalated e w = resolve false e.story_id w
rate_event story_completed e w = resolve true e.story_id w
rate_event _ e w = w

unfoldable pub rate_events : List Event → Walk → Walk
rate_events [] w = w
rate_events (e ∷ es) w = rate_events es (rate_event e.type e w)

unfoldable pub tier_success_rates : List Event → Outcomes
tier_success_rates es =
    (rate_events es (record { complexity_by_story = []; current_role = []; out = no_outcomes })).out
