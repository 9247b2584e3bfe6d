-- ===== src/Engine/Route.antt =====
-- The role that gets a story (internal/agent/roles.go, internal/engine/dispatcher.go routeStory,
-- internal/engine/adaptive.go). Success rates are compared as fractions.
pub mod Recommend
use vortex_dispatch.Engine.Dispatch.{PlannedStory}
use vortex_dispatch.Engine.Tier.{EventStore, RoutingConfig, of_story, raise}
use vortex_dispatch.Prelude.{
  Bool, List, Option, [], if◌then◌else◌, leb, ltb, none, not, some, suc, zero, ℕ, ◌&&◌, ◌*◌, ◌+◌,
  ◌==◌, ◌||◌, ◌∷◌,
}
use vortex_dispatch.State.Event.{Event, decode_payload, field_of, story_escalated}

pub data Role : Type 0 where
  role_tech_lead role_senior role_intermediate role_junior : Role
  role_qa role_supervisor role_manager : Role

unfoldable pub route_by_complexity : ℕ → RoutingConfig → Role
route_by_complexity complexity cfg =
    if leb complexity cfg.junior_max_complexity
    then role_junior
    else (if leb complexity cfg.intermediate_max_complexity then role_intermediate else role_senior)

-- routeStory: all escalations of the story count, also those before a reset. If the log cannot be
-- read, the complexity decides.
unfoldable pub route_story : EventStore → RoutingConfig → PlannedStory → Role
route_story store cfg s = elim (store.list (of_story story_escalated s.id 0)) [
  | none ↦ route_by_complexity s.complexity cfg
  | some events ↦
      if ltb 0 (max_tier_of_all events 0) then role_senior else route_by_complexity s.complexity cfg
]
  where
    max_tier_of_all : List Event → ℕ → ℕ
    max_tier_of_all [] tier = tier
    max_tier_of_all (e ∷ es) tier =
        max_tier_of_all es (raise (field_of (decode_payload e.payload) "to_tier") tier)

pub record TierOutcome : Type 0 where
  pub successes : ℕ
  pub failures : ℕ

abbrev pub total : TierOutcome → ℕ
total o = o.successes + o.failures

-- Rate() >= 0.80; the rate of no samples is 0.
abbrev pub is_trusted_rate : TierOutcome → Bool
is_trusted_rate o = not (total o == 0) && leb (4 * total o) (5 * o.successes)

-- Rate() < 0.40
abbrev pub is_failing_rate : TierOutcome → Bool
is_failing_rate o = total o == 0 || ltb (5 * o.successes) (2 * total o)

abbrev pub route_tier_for_role : Role → ℕ
route_tier_for_role role_intermediate = 1
route_tier_for_role role_senior = 2
route_tier_for_role _ = 0

-- `none` is the empty role.
abbrev pub role_for_route_tier : ℕ → Option Role
role_for_route_tier zero = some role_junior
role_for_route_tier (suc zero) = some role_intermediate
role_for_route_tier (suc (suc zero)) = some role_senior
role_for_route_tier _ = none

abbrev pub min_samples : RoutingConfig → ℕ
min_samples cfg = if cfg.adaptive_min_samples == 0 then 5 else cfg.adaptive_min_samples

-- The outcomes by tier and complexity; a missing cell is no samples.
module _ (rates : ℕ → ℕ → TierOutcome) (cfg : RoutingConfig) (complexity : ℕ) where
  abbrev pub is_trusted : ℕ → Bool
  is_trusted tier =
      leb (min_samples cfg) (total (rates tier complexity))
      && is_trusted_rate (rates tier complexity)

  abbrev pub is_failing : ℕ → Bool
  is_failing tier =
      leb (min_samples cfg) (total (rates tier complexity))
      && is_failing_rate (rates tier complexity)

  -- The loop over the cheaper tiers: `left` of them from `tier` on.
  unfoldable pub demote : ℕ → ℕ → Option ℕ
  demote zero tier = none
  demote (suc left) tier =
      let others = demote left (suc tier) in if is_trusted tier then some tier else others

  -- The tier above, but not above senior.
  abbrev pub promote : ℕ → ℕ
  promote tier = if ltb 2 (tier + 1) then 2 else tier + 1

  unfoldable pub recommend_tier : Option Role
  recommend_tier =
      let default_role = route_by_complexity complexity cfg in
      let default_tier = route_tier_for_role default_role in
      if not cfg.adaptive then some default_role else (elim (demote default_tier 0) [
        | some tier ↦ role_for_route_tier tier
        | none ↦
            if ltb default_tier 2 && is_failing default_tier
            then role_for_route_tier (promote default_tier)
            else some default_role
      ])
