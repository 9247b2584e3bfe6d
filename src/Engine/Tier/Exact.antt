-- ===== src/Engine/Tier/Exact.antt =====
-- The decision to escalate, on every log whose events of the story carry later and later times.
use vortex_dispatch.Engine.Tier.{
  RoutingConfig, current_tier, file_store, last_escalation_time, latest, latest_reset_time,
  max_retries_for_tier, max_tier, of_story, retry_count_at_current_tier, should_escalate,
}
use vortex_dispatch.Engine.Tier.Advance.{escalate, fail, idle, other, reset}
use vortex_dispatch.Engine.Tier.Attempts.{
  IsBounded, IsChronological, failures_after, floor_of, found, history, kind, more, next_attempt,
  passes-own_kind, reset_of, select-ext, state_of, tier_of,
}
use vortex_dispatch.Prelude.{
  All-append, All-map, Bool, Bool-cases, List, String, [], ap, append-nil, append_assoc, arith,
  false, if◌then◌else◌, inl, inr, leb, length, refl, some, str_eq, subst, sym, true, ℕ, ◌++◌, ◌+◌,
  ◌<◌, ◌∙◌, ◌∷◌, ◌≡◌,
}
use vortex_dispatch.State.Event.{
  Event, EventType, EventType-discrete, decode_payload, story_escalated, story_qa_failed,
  story_reset, story_review_failed,
}
use vortex_dispatch.State.Filter.{Line, count_events, list_events}
use vortex_dispatch.State.Filter.Laws.{count_events-list_events, events_of, list_events_exact}

advance :
    (story : String) (es : List Event) (e : Event) (time : ℕ) (ty : EventType)
    → IsBounded story time es
    → time < e.timestamp
    → str_eq e.story_id story ≡ true
    → e.type ≡ ty
    → state_of story (more story es e)
      ≡ next_attempt ty (decode_payload e.payload) (state_of story es)
unfolding EventType-discrete mathlib.Core.Bool.decide
advance story es e time story_reset b l its h =
    reset story es e time b l its (ap (kind story_reset) h) (ap (kind story_escalated) h)
      (ap (kind story_review_failed) h) (ap (kind story_qa_failed) h)
advance story es e time story_escalated b l its h =
    escalate story es e time b l its (ap (kind story_reset) h) (ap (kind story_escalated) h)
      (ap (kind story_review_failed) h) (ap (kind story_qa_failed) h)
advance story es e time story_review_failed b l its h =
    fail story es e time b l its true (ap (kind story_reset) h) (ap (kind story_escalated) h)
      (ap (kind story_review_failed) h) (ap (kind story_qa_failed) h)
advance story es e time story_qa_failed b l its h =
    fail story es e time b l its false (ap (kind story_reset) h) (ap (kind story_escalated) h)
      (ap (kind story_review_failed) h) (ap (kind story_qa_failed) h)
advance story es e time ty b l its h =
    idle story es e time b l its (ap (kind story_reset) h) (ap (kind story_escalated) h)
      (ap (kind story_review_failed) h) (ap (kind story_qa_failed) h)

state_of-history :
    (story : String) (es rest : List Event) (time : ℕ)
    → IsBounded story time es
    → IsChronological story time rest
    → state_of story (es ++ rest) ≡ history story rest (state_of story es)
state_of-history story es [] time b c = ap (state_of story) (append-nil es)
state_of-history story es (e ∷ rest) time b c = elim (Bool-cases (str_eq e.story_id story)) [
  | inl its ↦
      let c' : (time < e.timestamp) × IsChronological story e.timestamp rest =
        subst
          (λ t.
            if t
            then ((time < e.timestamp) × IsChronological story e.timestamp rest)
            else IsChronological story time rest)
          its c in
      ap (state_of story) (sym (append_assoc es (e ∷ []) rest))
      ∙ state_of-history story (more story es e) rest e.timestamp
          (All-append _ es (e ∷ []) (All-map _ _ es (λ d h o. omega (arith, h o, c'.0)) b)
            ((λ o. omega arith), tt))
          c'.1
      ∙ ap (history story rest) (
          advance story es e time e.type b c'.0 its refl
          ∙ ap
              (λ t.
                if t
                then next_attempt e.type (decode_payload e.payload) (state_of story es)
                else state_of story es)
              (sym its))
  | inr not_its ↦
      let c' : IsChronological story time rest =
        subst
          (λ t.
            if t
            then ((time < e.timestamp) × IsChronological story e.timestamp rest)
            else IsChronological story time rest)
          not_its c in
      ap (state_of story) (sym (append_assoc es (e ∷ []) rest))
      ∙ state_of-history story (more story es e) rest time
          (All-append _ es (e ∷ []) b ((λ o. ground (arith, o, not_its)), tt)) c'
      ∙ ap (history story rest) (
          other story es e not_its
          ∙ ap
              (λ t.
                if t
                then next_attempt e.type (decode_payload e.payload) (state_of story es)
                else state_of story es)
              (sym not_its))
]

module _ (story : String) (named : str_eq story "" ≡ false) (ls : List Line) where
  listed :
      (ty : EventType) (after : ℕ)
      → list_events (of_story ty story after) ls ≡ found story ty after (events_of ls)
  listed ty after =
      list_events_exact (of_story ty story after) ls
      ∙ select-ext _ _ (events_of ls) (λ e. passes-own_kind story ty after e named)

  counted :
      (ty : EventType) (after : ℕ)
      → count_events (of_story ty story after) ls ≡ length (found story ty after (events_of ls))
  counted ty after =
      count_events-list_events (of_story ty story after) ls ∙ ap length (listed ty after)

  reset_time-exact : latest_reset_time (file_store ls) story ≡ some (reset_of story (events_of ls))
  unfolding latest_reset_time
  reset_time-exact = rw (listed story_reset 0)

  tier-exact : current_tier (file_store ls) story ≡ some (tier_of story (events_of ls))
  unfolding current_tier
  tier-exact = rw (reset_time-exact, listed story_escalated 0)

  floor-exact : last_escalation_time (file_store ls) story ≡ some (floor_of story (events_of ls))
  unfolding last_escalation_time
  floor-exact = rw (reset_time-exact, listed story_escalated 0)

  failures-exact :
      retry_count_at_current_tier (file_store ls) story
      ≡ some (failures_after story (floor_of story (events_of ls)) (events_of ls))
  unfolding retry_count_at_current_tier
  failures-exact =
      let at = floor_of story (events_of ls) in
      rw (floor-exact, counted story_review_failed at, counted story_qa_failed at)

-- The decision of ShouldEscalate from the account of a story.
abbrev pub decision : RoutingConfig → ℕ × ℕ → Bool × ℕ
decision cfg (tier, failures) =
    if leb (max_retries_for_tier cfg tier) failures then (true, tier + 1) else (false, tier)

-- On a log that can be read, in which the events of the story carry later and later times, the
-- decision of ShouldEscalate is that of the account which goes through the log once: a reset
-- starts it again at tier 0, an escalation raises the tier and clears the failures, and a failed
-- review or test counts one.
pub should_escalate_exact :
    (story : String) (cfg : RoutingConfig) (ls : List Line)
    → str_eq story "" ≡ false
    → IsChronological story 0 (events_of ls)
    → should_escalate (file_store ls) cfg story
      ≡ some (decision cfg (history story (events_of ls) (0, 0)))
unfolding should_escalate
should_escalate_exact story cfg ls named c =
    let whole : state_of story (events_of ls) ≡ history story (events_of ls) (0, 0) =
      unfold latest max_tier in state_of-history story [] (events_of ls) 0 tt c in
    rw (tier-exact story named ls, failures-exact story named ls)
      (ap (λ x. some (decision cfg x)) whole)
