-- ===== src/Llm/Fallback.antt =====
-- The quota of the primary client and the fallback to the secondary (internal/llm/fallback.go).
-- The minute of the hour and the day of the year of a time come from Go's library.
pub mod Quota
pub mod Suppressed
use vortex_dispatch.Llm.Errors.{Failure, is_rate_limited, retry_after_seconds}
use vortex_dispatch.Llm.Retry.{Reply, error, response, second}
use vortex_dispatch.Prelude.{
  Bool, false, if◌then◌else◌, leb, ltb, true, ℕ, ◌*◌, ◌+◌, ◌/◌, ◌==◌, ◌||◌,
}

pub record QuotaTracker : Type 0 where
  pub rpm_limit : ℕ
  pub rpd_limit : ℕ
  pub minute_count : ℕ
  pub day_count : ℕ
  pub current_minute : ℕ
  pub current_day : ℕ
  pub exhausted_until : ℕ

-- time.Minute and time.YearDay.
pub record Calendar : Type 0 where
  pub minute : ℕ → ℕ
  pub year_day : ℕ → ℕ

abbrev pub default_rpm : ℕ
default_rpm = 10

abbrev pub default_rpd : ℕ
default_rpd = 1500

-- What Complete did: whether it called the primary, the reply, and the tracker after it.
pub record Served (A : Type 0) : Type 0 where
  pub primary_called : Bool
  pub reply : Reply A
  pub tracker : QuotaTracker

module _ (cal : Calendar) where
  unfoldable pub new_quota_tracker : ℕ → ℕ → ℕ → QuotaTracker
  new_quota_tracker now rpm rpd = record {
    rpm_limit = rpm;
    rpd_limit = rpd;
    minute_count = 0;
    day_count = 0;
    current_minute = cal.minute now;
    current_day = cal.year_day now;
    exhausted_until = 0;
  }

  abbrev reset_minute : ℕ → QuotaTracker → QuotaTracker
  reset_minute now q =
      if cal.minute now == q.current_minute
      then q
      else record q { minute_count = 0; current_minute = cal.minute now }

  abbrev reset_day : ℕ → QuotaTracker → QuotaTracker
  reset_day now q =
      if cal.year_day now == q.current_day
      then q
      else record q { day_count = 0; current_day = cal.year_day now }

  unfoldable pub maybe_reset : ℕ → QuotaTracker → QuotaTracker
  maybe_reset now q = reset_day now (reset_minute now q)

  -- The limits are cut to nine tenths.
  abbrev pub over_quota : QuotaTracker → Bool
  over_quota q =
      leb ((q.rpm_limit * 9) / 10) q.minute_count || leb ((q.rpd_limit * 9) / 10) q.day_count

  -- The answer, and the tracker after the reset. The clock is read twice.
  unfoldable pub is_exhausted : ℕ → ℕ → QuotaTracker → Bool × QuotaTracker
  is_exhausted now later q =
      let r = maybe_reset now q in (if ltb later r.exhausted_until then true else over_quota r, r)

  unfoldable pub record_request : ℕ → QuotaTracker → QuotaTracker
  record_request now q =
      let r = maybe_reset now q in
      record r { minute_count = r.minute_count + 1; day_count = r.day_count + 1 }

  unfoldable pub mark_exhausted : ℕ → ℕ → QuotaTracker → QuotaTracker
  mark_exhausted now cooldown q = record q { exhausted_until = now + cooldown }

  -- How long a rate limit suppresses the primary.
  abbrev pub cooldown_of : Failure → ℕ
  cooldown_of e =
      if ltb 0 (retry_after_seconds e) then retry_after_seconds e * second else 60 * second

  -- The primary was called.
  abbrev pub settle : {A : Type 0} → ℕ → Reply A → Reply A → QuotaTracker → Served A
  settle after (response a) secondary q = record {
    primary_called = true;
    reply = response a;
    tracker = record_request after q;
  }
  settle after (error e) secondary q = record {
    primary_called = true;
    reply = secondary;
    tracker = if is_rate_limited e then mark_exhausted after (cooldown_of e) q else q;
  }

  -- Complete. `primary` and `secondary` are what the two clients reply; the clock is read at
  -- `now` and `later` for the test, and at `after` when the primary has replied.
  unfoldable pub serve : {A : Type 0} → ℕ → ℕ → ℕ → Reply A → Reply A → QuotaTracker → Served A
  serve now later after primary secondary q =
      let called = settle after primary secondary (is_exhausted now later q).1 in
      if (is_exhausted now later q).0
      then record {
        primary_called = false;
        reply = secondary;
        tracker = (is_exhausted now later q).1;
      }
      else called
