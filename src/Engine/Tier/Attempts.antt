-- ===== src/Engine/Tier/Attempts.antt =====
-- What the machine reads from the log against a step-by-step account of a story's attempts: its
-- tier, and the failures at that tier.
use vortex_dispatch.Engine.Tier.{latest, max_tier, of_story, raise}
use vortex_dispatch.Prelude.{
  All, Bool, Bool-cases, List, String, [], append-nil, arith, decide, false, if◌then◌else◌, inl,
  inr, length, ltb, refl, select, str_eq, true, ℕ, ◌&&◌, ◌++◌, ◌+◌, ◌<◌, ◌==◌, ◌||◌, ◌∙◌, ◌∷◌, ◌≡◌,
  ◌≤◌,
}
use vortex_dispatch.State.Event.{
  Event, EventType, EventType-discrete, Fields, decode_payload, field_of, story_escalated,
  story_qa_failed, story_reset, story_review_failed,
}
use vortex_dispatch.State.Filter.{passes}

-- The account, read off the meaning of the events.
abbrev pub next_attempt : EventType → Fields → ℕ × ℕ → ℕ × ℕ
next_attempt story_reset p (tier, failures) = (0, 0)
next_attempt story_escalated p (tier, failures) = (raise (field_of p "to_tier") tier, 0)
next_attempt story_review_failed p (tier, failures) = (tier, failures + 1)
next_attempt story_qa_failed p (tier, failures) = (tier, failures + 1)
next_attempt ty p (tier, failures) = (tier, failures)

abbrev pub step : String → Event → ℕ × ℕ → ℕ × ℕ
step story e x =
    if str_eq e.story_id story then next_attempt e.type (decode_payload e.payload) x else x

abbrev pub history : String → List Event → ℕ × ℕ → ℕ × ℕ
history story [] x = x
history story (e ∷ es) x = history story es (step story e x)

-- The events of the story carry later and later times, from after `time` on.
abbrev pub IsChronological : String → ℕ → List Event → Type 0
IsChronological story time [] = Unit
IsChronological story time (e ∷ es) =
    if str_eq e.story_id story
    then ((time < e.timestamp) × IsChronological story e.timestamp es)
    else IsChronological story time es

abbrev pub kind : EventType → EventType → Bool
kind ty t = decide (EventType-discrete t ty)

abbrev pub own_kind : String → EventType → ℕ → Event → Bool
own_kind story ty after e =
    kind ty e.type && (str_eq e.story_id story && (after == 0 || ltb after e.timestamp))

pub passes-own_kind :
    (story : String) (ty : EventType) (after : ℕ) (e : Event)
    → str_eq story "" ≡ false
    → passes (of_story ty story after) e ≡ own_kind story ty after e
unfolding passes
passes-own_kind story ty after e h = ground (arith, h)

-- The events that lists and counts of the machine select.
abbrev pub found : String → EventType → ℕ → List Event → List Event
found story ty after es = select (own_kind story ty after) es

pub select-ext :
    (p q : Event → Bool) (es : List Event) → ((e : Event) → p e ≡ q e) → select p es ≡ select q es
select-ext p q [] h = refl
select-ext p q (e ∷ es) h = ground (arith, h e, select-ext p q es h)

select-append :
    (p : Event → Bool) (xs ys : List Event) → select p (xs ++ ys) ≡ select p xs ++ select p ys
select-append p [] ys = refl
select-append p (x ∷ xs) ys = ground (arith, select-append p xs ys)

pub latest-append :
    (xs ys : List Event) (time : ℕ) → latest (xs ++ ys) time ≡ latest ys (latest xs time)
unfolding latest
latest-append [] ys time = refl
latest-append (x ∷ xs) ys time = latest-append xs ys _

pub max_tier-append :
    (reset_at : ℕ) (xs ys : List Event) (tier : ℕ)
    → max_tier reset_at (xs ++ ys) tier ≡ max_tier reset_at ys (max_tier reset_at xs tier)
unfolding max_tier
max_tier-append r [] ys tier = refl
max_tier-append r (x ∷ xs) ys tier = max_tier-append r xs ys _

abbrev pub IsUpTo : ℕ → Event → Type 0
IsUpTo time e = e.timestamp ≤ time

pub latest-le :
    (xs : List Event) (time bound : ℕ)
    → All (IsUpTo bound) xs
    → time ≤ bound
    → latest xs time ≤ bound
unfolding latest
latest-le [] time bound h k = k
latest-le (x ∷ xs) time bound h k = latest-le xs _ bound h.1 (ground (arith, h.0, k))

pub latest-ge : (xs : List Event) (time : ℕ) → time ≤ latest xs time
unfolding latest
latest-ge [] time = omega arith
latest-ge (x ∷ xs) time =
    ground (arith, latest-ge xs (if ltb time x.timestamp then x.timestamp else time))

pub max_tier-old :
    (reset_at tier : ℕ) (xs : List Event)
    → All (IsUpTo reset_at) xs
    → max_tier reset_at xs tier ≡ tier
unfolding max_tier
max_tier-old r tier [] h = refl
max_tier-old r tier (x ∷ xs) h = ground (arith, h.0, max_tier-old r tier xs h.1)

abbrev pub IsBounded : String → ℕ → List Event → Type 0
IsBounded story time es = All (λ e. str_eq e.story_id story ≡ true → e.timestamp ≤ time) es

pub found-IsUpTo :
    (story : String) (ty : EventType) (after time : ℕ) (es : List Event)
    → IsBounded story time es
    → All (IsUpTo time) (found story ty after es)
found-IsUpTo story ty after time [] h = tt
found-IsUpTo story ty after time (e ∷ es) h = elim (Bool-cases (own_kind story ty after e)) [
  | inl y ↦ rw y (h.0 (ground (arith, y)), found-IsUpTo story ty after time es h.1)
  | inr n ↦ rw n (found-IsUpTo story ty after time es h.1)
]

pub found-none :
    (story : String) (ty : EventType) (after time : ℕ) (es : List Event)
    → IsBounded story time es
    → time < after
    → found story ty after es ≡ []
found-none story ty after time [] h l = refl
found-none story ty after time (e ∷ es) h l =
    ground (arith, h.0, found-none story ty after time es h.1 l)

abbrev pub reset_of : String → List Event → ℕ
reset_of story es = latest (found story story_reset 0 es) 0

abbrev pub tier_of : String → List Event → ℕ
tier_of story es = max_tier (reset_of story es) (found story story_escalated 0 es) 0

abbrev pub floor_of : String → List Event → ℕ
floor_of story es = latest (found story story_escalated 0 es) (reset_of story es)

abbrev pub failures_after : String → ℕ → List Event → ℕ
failures_after story after es =
    length (found story story_review_failed after es)
    + length (found story story_qa_failed after es)

abbrev pub state_of : String → List Event → ℕ × ℕ
state_of story es = (tier_of story es, failures_after story (floor_of story es) es)

found-last :
    (story : String) (ty : EventType) (after : ℕ) (es : List Event) (e : Event)
    → found story ty after (es ++ e ∷ [])
      ≡ found story ty after es ++ (if own_kind story ty after e then e ∷ [] else [])
found-last story ty after es e = select-append (own_kind story ty after) es (e ∷ [])

module _ (story : String) (es : List Event) (e : Event) where
  abbrev pub more : List Event
  more = es ++ e ∷ []

  pub skipped :
      (ty : EventType) (after : ℕ)
      → kind ty e.type ≡ false
      → found story ty after more ≡ found story ty after es
  skipped ty after h = found-last story ty after es e ∙ rw h (append-nil (found story ty after es))

  pub other_story :
      (ty : EventType) (after : ℕ)
      → str_eq e.story_id story ≡ false
      → found story ty after more ≡ found story ty after es
  other_story ty after h =
      found-last story ty after es e ∙ ground (arith, h, append-nil (found story ty after es))

  pub taken :
      (ty : EventType) (after : ℕ)
      → kind ty e.type ≡ true
      → str_eq e.story_id story ≡ true
      → after < e.timestamp
      → found story ty after more ≡ found story ty after es ++ e ∷ []
  taken ty after h its l = found-last story ty after es e ∙ ground (arith, h, its, l)
