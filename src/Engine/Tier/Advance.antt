-- ===== src/Engine/Tier/Advance.antt =====
-- One more event of the log: what it does to the tier and the failures that the machine reads.
use vortex_dispatch.Engine.Tier.{latest, max_tier, raise}
use vortex_dispatch.Engine.Tier.Attempts.{
  IsBounded, failures_after, floor_of, found, found-IsUpTo, found-none, kind, latest-append,
  latest-ge, latest-le, max_tier-append, max_tier-old, more, other_story, reset_of, skipped,
  state_of, taken, tier_of,
}
use vortex_dispatch.Prelude.{
  All-map, Bool, List, String, [], ap, ap₂, arith, false, length-append, not, str_eq, true, ℕ, ◌++◌,
  ◌+◌, ◌<◌, ◌∙◌, ◌∷◌, ◌≡◌, ◌≤◌,
}
use vortex_dispatch.State.Event.{
  Event, EventType, decode_payload, field_of, story_escalated, story_qa_failed, story_reset,
  story_review_failed,
}

module _ (story : String) (es : List Event) (e : Event) where
  tier_of-kept :
      found story story_reset 0 (more story es e) ≡ found story story_reset 0 es
      → found story story_escalated 0 (more story es e) ≡ found story story_escalated 0 es
      → (tier_of story (more story es e) ≡ tier_of story es)
        × (floor_of story (more story es e) ≡ floor_of story es)
  tier_of-kept r x = (rw (r, x), rw (r, x))

  pub other : str_eq e.story_id story ≡ false → state_of story (more story es e) ≡ state_of story es
  other h =
      let same : (ty : EventType) (after : ℕ)
          → found story ty after (more story es e) ≡ found story ty after es =
        λ ty after. other_story story es e ty after h in
      let kept = tier_of-kept (same story_reset 0) (same story_escalated 0) in
      ap₂ (λ a b. (a, b)) kept.0
        (rw (
          kept.1,
          same story_review_failed (floor_of story es),
          same story_qa_failed (floor_of story es),
        ))

module _ (story : String) (es : List Event) (e : Event) (time : ℕ)
    (bounded : IsBounded story time es) (later : time < e.timestamp) where
  IsBounded-later : IsBounded story e.timestamp es
  IsBounded-later = All-map _ _ es (λ d h its. omega (arith, h its)) bounded

  reset_of-le : reset_of story es ≤ time
  reset_of-le =
      latest-le (found story story_reset 0 es) 0 time
        (found-IsUpTo story story_reset 0 time es bounded) (omega arith)

  floor_of-le : floor_of story es ≤ time
  floor_of-le =
      latest-le (found story story_escalated 0 es) (reset_of story es) time
        (found-IsUpTo story story_escalated 0 time es bounded) reset_of-le

  latest-last :
      (xs : List Event) (from : ℕ)
      → latest xs from ≤ time
      → latest (xs ++ e ∷ []) from ≡ e.timestamp
  unfolding latest
  latest-last xs from h = latest-append xs (e ∷ []) from ∙ ground (arith, h)

  no_failures :
      kind story_review_failed e.type ≡ false
      → kind story_qa_failed e.type ≡ false
      → failures_after story e.timestamp (more story es e) ≡ 0
  no_failures v q = rw (
    skipped story es e story_review_failed e.timestamp v,
    skipped story es e story_qa_failed e.timestamp q,
    found-none story story_review_failed e.timestamp time es bounded later,
    found-none story story_qa_failed e.timestamp time es bounded later,
  )

  module _ (its : str_eq e.story_id story ≡ true) where
    pub idle :
        kind story_reset e.type ≡ false
        → kind story_escalated e.type ≡ false
        → kind story_review_failed e.type ≡ false
        → kind story_qa_failed e.type ≡ false
        → state_of story (more story es e) ≡ state_of story es
    idle r x v q =
        let kept =
          tier_of-kept story es e (skipped story es e story_reset 0 r)
            (skipped story es e story_escalated 0 x) in
        ap₂ (λ a b. (a, b)) kept.0
          (rw (
            kept.1,
            skipped story es e story_review_failed (floor_of story es) v,
            skipped story es e story_qa_failed (floor_of story es) q,
          ))

    pub reset :
        kind story_reset e.type ≡ true
        → kind story_escalated e.type ≡ false
        → kind story_review_failed e.type ≡ false
        → kind story_qa_failed e.type ≡ false
        → state_of story (more story es e) ≡ (0, 0)
    reset r x v q =
        let at : reset_of story (more story es e) ≡ e.timestamp =
          ap (λ xs. latest xs 0) (taken story es e story_reset 0 r its (omega (arith, later)))
          ∙ latest-last (found story story_reset 0 es) 0 reset_of-le in
        let old = found-IsUpTo story story_escalated 0 e.timestamp es IsBounded-later in
        let floor : floor_of story (more story es e) ≡ e.timestamp =
          rw (skipped story es e story_escalated 0 x, at)
            (omega (
              arith,
              latest-le (found story story_escalated 0 es) e.timestamp e.timestamp old
                  (omega arith),
              latest-ge (found story story_escalated 0 es) e.timestamp,
            )) in
        ap₂ (λ a b. (a, b))
          (rw (skipped story es e story_escalated 0 x, at) (max_tier-old e.timestamp 0 _ old))
          (rw floor (no_failures v q))

    pub escalate :
        kind story_reset e.type ≡ false
        → kind story_escalated e.type ≡ true
        → kind story_review_failed e.type ≡ false
        → kind story_qa_failed e.type ≡ false
        → state_of story (more story es e)
          ≡ (raise (field_of (decode_payload e.payload) "to_tier") (tier_of story es), 0)
    unfolding max_tier
    escalate r x v q =
        let next = taken story es e story_escalated 0 x its (omega (arith, later)) in
        let same = ap (λ xs. latest xs 0) (skipped story es e story_reset 0 r) in
        let floor : floor_of story (more story es e) ≡ e.timestamp =
          ap₂ latest next same
          ∙ latest-last (found story story_escalated 0 es) (reset_of story es) floor_of-le in
        ap₂ (λ a b. (a, b))
          (ap₂ (λ a xs. max_tier a xs 0) same next
            ∙ max_tier-append (reset_of story es) (found story story_escalated 0 es) (e ∷ []) 0
            ∙ ground (arith, reset_of-le))
          (rw floor (no_failures v q))

    pub fail :
        (v : Bool)
        → kind story_reset e.type ≡ false
        → kind story_escalated e.type ≡ false
        → kind story_review_failed e.type ≡ v
        → kind story_qa_failed e.type ≡ not v
        → state_of story (more story es e)
          ≡ (tier_of story es, failures_after story (floor_of story es) es + 1)
    fail v r x hv hq =
        let kept =
          tier_of-kept story es e (skipped story es e story_reset 0 r)
            (skipped story es e story_escalated 0 x) in
        ap₂ (λ a b. (a, b)) kept.0 (rw kept.1 (counted v hv hq))
      where
        counted :
            (v : Bool)
            → kind story_review_failed e.type ≡ v
            → kind story_qa_failed e.type ≡ not v
            → failures_after story (floor_of story es) (more story es e)
              ≡ failures_after story (floor_of story es) es + 1
        counted true hv hq =
            rw
              (
                taken story es e story_review_failed (floor_of story es) hv its
                    (omega (arith, floor_of-le)),
                skipped story es e story_qa_failed (floor_of story es) hq,
              )
              (omega (
                arith,
                length-append (found story story_review_failed (floor_of story es) es) (e ∷ []),
              ))
        counted false hv hq =
            rw
              (
                skipped story es e story_review_failed (floor_of story es) hv,
                taken story es e story_qa_failed (floor_of story es) hq its
                    (omega (arith, floor_of-le)),
              )
              (omega (
                arith,
                length-append (found story story_qa_failed (floor_of story es) es) (e ∷ []),
              ))
