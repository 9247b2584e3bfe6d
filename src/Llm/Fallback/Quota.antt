-- ===== src/Llm/Fallback/Quota.antt =====
-- The primary client is not called beyond its quota.
use vortex_dispatch.Llm.Errors.{is_rate_limited}
use vortex_dispatch.Llm.Fallback.{
  Calendar, QuotaTracker, Served, cooldown_of, is_exhausted, mark_exhausted, maybe_reset,
  new_quota_tracker, record_request, serve, settle,
}
use vortex_dispatch.Llm.Retry.{Reply, error, response}
use vortex_dispatch.Prelude.{
  All, All-map, Bool, Bool-cases, List, [], ap, arith, count, false, if◌then◌else◌, inl, inr, ltb,
  refl, subst, sym, true, ℕ, ◌&&◌, ◌*◌, ◌+◌, ◌/◌, ◌<◌, ◌==◌, ◌∙◌, ◌∷◌, ◌≡◌, ◌≤◌,
}

abbrev pub minute_quota : QuotaTracker → ℕ
minute_quota q = (q.rpm_limit * 9) / 10

abbrev pub day_quota : QuotaTracker → ℕ
day_quota q = (q.rpd_limit * 9) / 10

-- One request: the readings of the clock, and the replies of the clients.
pub record Request (A : Type 0) : Type 0 where
  pub now : ℕ
  pub later : ℕ
  pub after : ℕ
  pub primary : Reply A
  pub secondary : Reply A

abbrev pub is_response : {A : Type 0} → Reply A → Bool
is_response (response a) = true
is_response (error e) = false

module _ (cal : Calendar) where
  -- The clock stays in the minute of the tracker.
  abbrev pub IsInMinute : {A : Type 0} → Request A → QuotaTracker → Type 0
  IsInMinute r q = (cal.minute r.now ≡ q.current_minute) × (cal.minute r.after ≡ q.current_minute)

  abbrev pub serve_request : {A : Type 0} → Request A → QuotaTracker → Served A
  serve_request r q = serve cal r.now r.later r.after r.primary r.secondary q

  maybe_reset-same :
      (now : ℕ) (q : QuotaTracker)
      → cal.minute now ≡ q.current_minute
      → ((maybe_reset cal now q).minute_count ≡ q.minute_count)
        × ((maybe_reset cal now q).current_minute ≡ q.current_minute)
        × ((maybe_reset cal now q).rpm_limit ≡ q.rpm_limit)
        × ((maybe_reset cal now q).exhausted_until ≡ q.exhausted_until)
  unfolding maybe_reset
  maybe_reset-same now q h = elim (Bool-cases (cal.minute now == q.current_minute)) [
    | inl y ↦ elim (Bool-cases (cal.year_day now == q.current_day)) [
      | inl day ↦ rw (y, day) (refl, refl, refl, refl)
      | inr day ↦ rw (y, day) (refl, refl, refl, refl)
    ]
    | inr other ↦ absurd (ground (arith, h, other))
  ]

  -- A request within the minute, and whether the primary served it.
  pub record IsServed (q t : QuotaTracker) (by_primary : Bool) : Type 0 where
    pub counted : t.minute_count ≡ q.minute_count + (if by_primary then 1 else 0)
    pub had_room : by_primary ≡ true → q.minute_count < minute_quota q
    pub same_minute : t.current_minute ≡ q.current_minute
    pub same_limit : t.rpm_limit ≡ q.rpm_limit

  abbrev pub served_by_primary : {A : Type 0} → Request A → QuotaTracker → Bool
  served_by_primary r q = (serve_request r q).primary_called && is_response r.primary

  has_room :
      (now later : ℕ) (q : QuotaTracker)
      → cal.minute now ≡ q.current_minute
      → (is_exhausted cal now later q).0 ≡ false
      → q.minute_count < minute_quota q
  unfolding is_exhausted
  has_room now later q same h =
      let (count, minute, limit, until) = maybe_reset-same now q same in
      let free : ltb (maybe_reset cal now q).minute_count (minute_quota (maybe_reset cal now q))
          ≡ true =
        ground (arith, h) in
      ground (arith, free, count, limit)

  is_exhausted-tracker :
      (now later : ℕ) (q : QuotaTracker) → (is_exhausted cal now later q).1 ≡ maybe_reset cal now q
  unfolding is_exhausted
  is_exhausted-tracker now later q = refl

  -- The tracker after the reset that a request makes.
  record IsProbed (q x : QuotaTracker) : Type 0 where
    count : x.minute_count ≡ q.minute_count
    minute : x.current_minute ≡ q.current_minute
    limit : x.rpm_limit ≡ q.rpm_limit

  is_exhausted-IsProbed :
      (now later : ℕ) (q : QuotaTracker)
      → cal.minute now ≡ q.current_minute
      → IsProbed q (is_exhausted cal now later q).1
  is_exhausted-IsProbed now later q same =
      let (count, minute, limit, until) = maybe_reset-same now q same in
      subst (IsProbed q) (sym (is_exhausted-tracker now later q))
        (record { count = count; minute = minute; limit = limit })

  record_request-IsServed :
      (after : ℕ) (q x : QuotaTracker)
      → cal.minute after ≡ q.current_minute
      → IsProbed q x
      → q.minute_count < minute_quota q
      → IsServed q (record_request cal after x) true
  unfolding record_request
  record_request-IsServed after q x same p room =
      let (count, minute, limit, until) = maybe_reset-same after x (same ∙ sym p.minute) in
      record {
        counted = omega (arith, count, p.count);
        had_room = λ y. room;
        same_minute = minute ∙ p.minute;
        same_limit = limit ∙ p.limit;
      }

  probed-IsServed : (q x : QuotaTracker) → IsProbed q x → IsServed q x false
  probed-IsServed q x p = record {
    counted = omega (arith, p.count);
    had_room = λ y. absurd (cc y);
    same_minute = p.minute;
    same_limit = p.limit;
  }

  mark_exhausted-IsProbed :
      (b : Bool) (now cooldown : ℕ) (q x : QuotaTracker)
      → IsProbed q x
      → IsProbed q (if b then mark_exhausted cal now cooldown x else x)
  unfolding mark_exhausted
  mark_exhausted-IsProbed true now cooldown q x p = record {
    count = p.count;
    minute = p.minute;
    limit = p.limit;
  }
  mark_exhausted-IsProbed false now cooldown q x p = p

  settle-IsServed :
      {A : Type 0} (after : ℕ) (primary secondary : Reply A) (q x : QuotaTracker)
      → cal.minute after ≡ q.current_minute
      → IsProbed q x
      → q.minute_count < minute_quota q
      → IsServed q
          (settle cal after primary secondary x).tracker
          ((settle cal after primary secondary x).primary_called && is_response primary)
  settle-IsServed after (response a) secondary q x same p room =
      record_request-IsServed after q x same p room
  settle-IsServed after (error e) secondary q x same p room =
      probed-IsServed q _
        (mark_exhausted-IsProbed (is_rate_limited e) after (cooldown_of cal e) q x p)

  serve-IsServed :
      {A : Type 0} (r : Request A) (q : QuotaTracker)
      → IsInMinute r q
      → IsServed q (serve_request r q).tracker (served_by_primary r q)
  unfolding serve
  serve-IsServed r q in_minute =
      let p = is_exhausted-IsProbed r.now r.later q in_minute.0 in
      elim (Bool-cases (is_exhausted cal r.now r.later q).0) [
        | inl y ↦ rw (serve, y) (probed-IsServed q _ p)
        | inr room ↦
            rw (serve, room)
              (settle-IsServed r.after r.primary r.secondary q _ in_minute.1 p
                (has_room r.now r.later q in_minute.0 room))
      ]

  -- Requests one after the other: how many of them the primary served.
  abbrev pub serve_all : {A : Type 0} → List (Request A) → QuotaTracker → ℕ × QuotaTracker
  serve_all [] q = (0, q)
  serve_all (r ∷ rs) q =
      let others = serve_all rs (serve_request r q).tracker in
      ((if served_by_primary r q then 1 else 0) + others.0, others.1)

  add_served :
      (b : Bool) (before after others quota quota' : ℕ)
      → after ≡ before + (if b then 1 else 0)
      → (b ≡ true → before < quota)
      → before ≤ quota
      → quota' ≡ quota
      → (after ≤ quota' → after + others ≤ quota')
      → before + ((if b then 1 else 0) + others) ≤ quota
  add_served true before after others quota quota' counted room within same later =
      omega (arith, counted, same, later (omega (arith, counted, same, room refl)))
  add_served false before after others quota quota' counted room within same later =
      omega (arith, counted, same, later (omega (arith, counted, same, within)))

  serve_all-counted :
      {A : Type 0} (rs : List (Request A)) (q : QuotaTracker)
      → All (λ r. IsInMinute r q) rs
      → q.minute_count ≤ minute_quota q
      → q.minute_count + (serve_all rs q).0 ≤ minute_quota q
  serve_all-counted [] q in_minute h = omega (arith, h)
  serve_all-counted (r ∷ rs) q in_minute h =
      let st = serve-IsServed r q in_minute.0 in
      let t = (serve_request r q).tracker in
      let quota : minute_quota t ≡ minute_quota q = ap (λ n. (n * 9) / 10) st.same_limit in
      let others = serve_all-counted rs t (
        All-map _ (λ x. IsInMinute x t) rs
          (λ x k. (k.0 ∙ sym st.same_minute, k.1 ∙ sym st.same_minute)) in_minute.1) in
      add_served (served_by_primary r q) q.minute_count t.minute_count (serve_all rs t).0
        (minute_quota q) (minute_quota t) st.counted st.had_room h quota others

  -- Of the requests that come one after the other in the minute in which the tracker was made, the
  -- primary client serves at most nine tenths of its limit for a minute, rounded down.
  pub serve_all-minute_quota :
      {A : Type 0} (rs : List (Request A)) (now rpm rpd : ℕ)
      → All (λ r. IsInMinute r (new_quota_tracker cal now rpm rpd)) rs
      → (serve_all rs (new_quota_tracker cal now rpm rpd)).0 ≤ (rpm * 9) / 10
  unfolding new_quota_tracker
  serve_all-minute_quota rs now rpm rpd in_minute =
      omega
        (arith, serve_all-counted rs (new_quota_tracker cal now rpm rpd) in_minute (omega arith))
