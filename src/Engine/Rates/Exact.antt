-- ===== src/Engine/Rates/Exact.antt =====
-- The table of outcomes against a count in the log.
use vortex_dispatch.Engine.Rates.{
  Walk, bump, rate_event, resolve, resolve_cell, role_named, tier_of_role,
}
use vortex_dispatch.Engine.Route.{TierOutcome}
use vortex_dispatch.Engine.Tier.Attempts.{kind}
use vortex_dispatch.Prelude.{
  Bool, Bool-cases, List, Option, String, [], arith, false, if◌then◌else◌, inl, inr, ltb, none, not,
  some, str_eq, str_eq_iff, true, value, value-assign, ℕ, ◌&&◌, ◌+◌, ◌==◌, ◌||◌, ◌∷◌, ◌≡◌,
}
use vortex_dispatch.State.Event.{
  Event, EventType, decode_payload, payload_int, payload_str, story_completed, story_created,
  story_escalated, story_started,
}

abbrev pub is_created : EventType → Bool
is_created story_created = true
is_created _ = false

abbrev pub is_started : EventType → Bool
is_started story_started = true
is_started _ = false

abbrev pub is_tier : ℕ → Option ℕ → Bool
is_tier tier none = false
is_tier tier (some t) = t == tier

-- What the log says of a story before some event; `past` stands newest first.
abbrev pub complexity_before : String → List Event → ℕ
complexity_before story [] = 0
complexity_before story (e ∷ past) =
    if is_created e.type && str_eq e.story_id story && not (str_eq story "")
    then payload_int (decode_payload e.payload) "complexity"
    else complexity_before story past

abbrev pub role_before : String → List Event → String
role_before story [] = ""
role_before story (e ∷ past) =
    if is_started e.type
      && str_eq e.story_id story
      && not (str_eq story "")
      && not (str_eq (payload_str (decode_payload e.payload) "role") "")
    then payload_str (decode_payload e.payload) "role"
    else role_before story past

-- Is the attempt that ends for the story at this point one of this tier and complexity?
abbrev pub belongs : ℕ → ℕ → String → List Event → Bool
belongs tier complexity story past =
    ltb 0 (complexity_before story past)
    && complexity_before story past == complexity
    && is_tier tier (tier_of_role (role_named (role_before story past)))

-- How many events that end an attempt, of the two kinds, belong to a cell.
abbrev pub ends : Bool → EventType → Bool
ends true story_completed = true
ends false story_escalated = true
ends _ _ = false

abbrev pub ended : Bool → ℕ → ℕ → List Event → List Event → ℕ
ended success tier complexity past [] = 0
ended success tier complexity past (e ∷ es) =
    (if ends success e.type && belongs tier complexity e.story_id past then 1 else 0)
    + ended success tier complexity (e ∷ past) es

-- The figure of an outcome that an ending counts in.
abbrev pub figure : Bool → TierOutcome → ℕ
figure true o = o.successes
figure false o = o.failures

abbrev pub same : Bool → Bool → Bool
same true b = b
same false b = not b

-- The two maps hold what the log says.
pub record IsTracked (past : List Event) (w : Walk) : Type 0 where
  pub complexities : (s : String) → value 0 w.complexity_by_story s ≡ complexity_before s past
  pub roles : (s : String) → value "" w.current_role s ≡ role_before s past

abbrev pub one_if : Bool → ℕ
one_if b = if b then 1 else 0

figure-bump :
    (kind success : Bool) (o : TierOutcome)
    → figure kind (bump success o) ≡ figure kind o + one_if (same kind success)
figure-bump true true o = omega arith
figure-bump true false o = omega arith
figure-bump false true o = omega arith
figure-bump false false o = omega arith

resolve_cell-figure :
    (kind success : Bool) (cx : ℕ) (role : Option ℕ) (w : Walk) (tier complexity : ℕ)
    → figure kind ((resolve_cell success cx role w).out tier complexity)
      ≡ figure kind (w.out tier complexity)
        + one_if (same kind success && (ltb 0 cx && cx == complexity && is_tier tier role))
unfolding resolve_cell
resolve_cell-figure kind success cx none w tier complexity = ground arith
resolve_cell-figure kind success cx (some t) w tier complexity =
    ground (arith, figure-bump kind success (w.out tier complexity))

pub resolve-figure :
    (kind success : Bool) (story : String) (w : Walk) (past : List Event) (tier complexity : ℕ)
    → IsTracked past w
    → figure kind ((resolve success story w).out tier complexity)
      ≡ figure kind (w.out tier complexity)
        + one_if (same kind success && belongs tier complexity story past)
resolve-figure kind success story w past tier complexity i =
    rw (i.complexities story, i.roles story)
      (resolve_cell-figure kind success (complexity_before story past)
        (tier_of_role (role_named (role_before story past))) w tier complexity)

pub resolve-IsTracked :
    (success : Bool) (story : String) (past : List Event) (w : Walk)
    → IsTracked past w
    → IsTracked past (resolve success story w)
unfolding resolve_cell
resolve-IsTracked success story past w i =
    go (value 0 w.complexity_by_story story)
      (tier_of_role (role_named (value "" w.current_role story)))
  where
    go : (cx : ℕ) (role : Option ℕ) → IsTracked past (resolve_cell success cx role w)
    go cx none = i
    go cx (some t) = elim (Bool-cases (ltb 0 cx)) [
      | inl y ↦ rw (y, resolve_cell) (record { complexities = i.complexities; roles = i.roles })
      | inr n ↦ rw (n, resolve_cell) i
    ]

module _ (past : List Event) (w : Walk) (i : IsTracked past w) (e : Event) where
  pub IsTracked-later :
      is_created e.type ≡ false → is_started e.type ≡ false → IsTracked (e ∷ past) w
  IsTracked-later c s = record {
    complexities = λ j. rw c (i.complexities j);
    roles = λ j. rw s (i.roles j);
  }

  pub created-IsTracked :
      is_created e.type ≡ true
      → is_started e.type ≡ false
      → IsTracked (e ∷ past) (rate_event story_created e w)
  unfolding rate_event
  created-IsTracked c s = elim (Bool-cases (str_eq e.story_id "")) [
    | inl y ↦ rw y (record {
      complexities = λ j.
          ground (arith, i.complexities j, y, str_eq_iff e.story_id j, str_eq_iff e.story_id "");
      roles = λ j. rw s (i.roles j);
    })
    | inr n ↦
        let cx = payload_int (decode_payload e.payload) "complexity" in
        rw n (record {
          complexities = λ j. ground (
            arith,
            i.complexities j,
            n,
            c,
            value-assign 0 e.story_id j cx w.complexity_by_story,
            str_eq_iff e.story_id j,
            str_eq_iff e.story_id "",
            str_eq_iff j "",
          );
          roles = λ j. rw s (i.roles j);
        })
  ]

  pub started-IsTracked :
      is_created e.type ≡ false
      → is_started e.type ≡ true
      → IsTracked (e ∷ past) (rate_event story_started e w)
  unfolding rate_event
  started-IsTracked c s =
      let role = payload_str (decode_payload e.payload) "role" in
      elim (Bool-cases (str_eq e.story_id "" || str_eq role "")) [
        | inl y ↦ rw y (record {
          complexities = λ j. rw c (i.complexities j);
          roles = λ j. ground (
            arith,
            i.roles j,
            y,
            str_eq_iff e.story_id j,
            str_eq_iff j "",
            str_eq_iff e.story_id "",
          );
        })
        | inr n ↦ rw n (record {
          complexities = λ j. rw c (i.complexities j);
          roles = λ j. ground (
            arith,
            i.roles j,
            n,
            s,
            value-assign "" e.story_id j role w.current_role,
            str_eq_iff e.story_id j,
            str_eq_iff e.story_id "",
            str_eq_iff j "",
          );
        })
      ]

pub started_figure :
    (kind : Bool) (w : Walk) (e : Event) (tier complexity : ℕ)
    → figure kind ((rate_event story_started e w).out tier complexity)
      ≡ figure kind (w.out tier complexity) + 0
unfolding rate_event
started_figure kind w e t c =
    elim (Bool-cases
      (str_eq e.story_id "" || str_eq (payload_str (decode_payload e.payload) "role") "")) [
        | inl y ↦ rw y (omega arith)
        | inr n ↦ rw n (omega arith)
      ]
