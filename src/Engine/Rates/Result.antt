-- ===== src/Engine/Rates/Result.antt =====
-- The theorem on TierSuccessRates, and on the recommendation that is made from a log.
use vortex_dispatch.Engine.Rates.{
  Walk, no_outcomes, rate_event, rate_events, resolve, tier_success_rates,
}
use vortex_dispatch.Engine.Rates.Exact.{
  IsTracked, IsTracked-later, belongs, created-IsTracked, ended, ends, figure, is_created,
  is_started, one_if, resolve-IsTracked, resolve-figure, started-IsTracked, started_figure,
}
use vortex_dispatch.Engine.Tier.Attempts.{kind}
use vortex_dispatch.Prelude.{
  Bool, Bool-cases, List, [], ap, arith, false, inl, inr, refl, str_eq, true, ℕ, ◌&&◌, ◌+◌, ◌∷◌,
  ◌≡◌,
}
use vortex_dispatch.State.Event.{
  Event, EventType, story_completed, story_created, story_escalated, story_started,
}

rate_event-IsTracked :
    (ty : EventType) (past : List Event) (w : Walk) (e : Event)
    → IsTracked past w
    → e.type ≡ ty
    → IsTracked (e ∷ past) (rate_event ty e w)
unfolding rate_event
rate_event-IsTracked story_created past w e i h =
    created-IsTracked past w i e (ap is_created h) (ap is_started h)
rate_event-IsTracked story_started past w e i h =
    started-IsTracked past w i e (ap is_created h) (ap is_started h)
rate_event-IsTracked story_escalated past w e i h =
    IsTracked-later past (resolve false e.story_id w) (resolve-IsTracked false e.story_id past w i)
      e (ap is_created h) (ap is_started h)
rate_event-IsTracked story_completed past w e i h =
    IsTracked-later past (resolve true e.story_id w) (resolve-IsTracked true e.story_id past w i) e
      (ap is_created h) (ap is_started h)
rate_event-IsTracked ty past w e i h =
    IsTracked-later past w i e (ap is_created h) (ap is_started h)

rate_event-figure :
    (ty : EventType) (kind : Bool) (past : List Event) (w : Walk) (e : Event) (tier complexity : ℕ)
    → IsTracked past w
    → figure kind ((rate_event ty e w).out tier complexity)
      ≡ figure kind (w.out tier complexity)
        + one_if (ends kind ty && belongs tier complexity e.story_id past)
unfolding rate_event
rate_event-figure story_escalated true past w e t c i =
    resolve-figure true false e.story_id w past t c i
rate_event-figure story_escalated false past w e t c i =
    resolve-figure false false e.story_id w past t c i
rate_event-figure story_completed true past w e t c i =
    resolve-figure true true e.story_id w past t c i
rate_event-figure story_completed false past w e t c i =
    resolve-figure false true e.story_id w past t c i
rate_event-figure story_created true past w e t c i = elim (Bool-cases (str_eq e.story_id "")) [
  | inl y ↦ rw y (omega arith)
  | inr n ↦ rw n (omega arith)
]
rate_event-figure story_created false past w e t c i = elim (Bool-cases (str_eq e.story_id "")) [
  | inl y ↦ rw y (omega arith)
  | inr n ↦ rw n (omega arith)
]
rate_event-figure story_started true past w e t c i = started_figure true w e t c
rate_event-figure story_started false past w e t c i = started_figure false w e t c
rate_event-figure ty true past w e t c i = omega arith
rate_event-figure ty false past w e t c i = omega arith

rate_events-figure :
    (kind : Bool) (es past : List Event) (w : Walk) (tier complexity : ℕ)
    → IsTracked past w
    → figure kind ((rate_events es w).out tier complexity)
      ≡ figure kind (w.out tier complexity) + ended kind tier complexity past es
unfolding rate_events
rate_events-figure kind [] past w t c i = omega arith
rate_events-figure kind (e ∷ es) past w t c i = omega (
  arith,
  rate_event-figure e.type kind past w e t c i,
  rate_events-figure kind es (e ∷ past) (rate_event e.type e w) t c
      (rate_event-IsTracked e.type past w e i refl),
)

-- For every tier and complexity TierSuccessRates counts exactly the completions, and exactly the
-- escalations, of stories that were created with this complexity, if it is not 0, and were last
-- started, before that event, by a role of this tier.
pub tier_success_rates_exact :
    (es : List Event) (tier complexity : ℕ)
    → ((tier_success_rates es tier complexity).successes ≡ ended true tier complexity [] es)
      × ((tier_success_rates es tier complexity).failures ≡ ended false tier complexity [] es)
unfolding tier_success_rates
tier_success_rates_exact es tier complexity =
    let start : Walk = record { complexity_by_story = []; current_role = []; out = no_outcomes } in
    let i : IsTracked [] start = record { complexities = λ s. refl; roles = λ s. refl } in
    (
      omega (arith, rate_events-figure true es [] start tier complexity i),
      omega (arith, rate_events-figure false es [] start tier complexity i),
    )
