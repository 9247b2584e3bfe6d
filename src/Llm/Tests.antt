-- ===== src/Llm/Tests.antt =====
-- Runs of the two clients, and the theorems on them.
use vortex_dispatch.Llm.Errors.{Failure, api_error}
use vortex_dispatch.Llm.Fallback.{
  Calendar, QuotaTracker, is_exhausted, mark_exhausted, maybe_reset, new_quota_tracker,
  record_request, serve,
}
use vortex_dispatch.Llm.Fallback.Quota.{
  IsInMinute, Request, serve_all, serve_all-minute_quota, serve_request,
}
use vortex_dispatch.Llm.Retry.{
  Reply, complete, completed, delay_after, error, max_retries_exceeded, response, retry_loop, word,
}
use vortex_dispatch.Llm.Retry.Runs.{IsRun, complete-IsRun, delay_after-bound}
use vortex_dispatch.Prelude.{
  All, Bool, List, [], arith, false, if◌then◌else◌, ltb, refl, true, ℕ, ◌%◌, ◌*◌, ◌/◌, ◌<◌, ◌∷◌,
  ◌≡◌, ◌≤◌,
}

abbrev overloaded : Failure
overloaded =
    api_error (record { status_code = 529; message = ""; retryable = true; retry_after = 0 })

abbrev limited : Failure
limited = api_error (record { status_code = 429; message = ""; retryable = true; retry_after = 0 })

-- Two failures and a response.
abbrev third_time : ℕ → Reply ℕ
third_time attempt = if ltb attempt 2 then error overloaded else response 7

abbrev never_done : ℕ → Bool
never_done attempt = false

abbrev always_overloaded : ℕ → Reply ℕ
always_overloaded attempt = error overloaded

program : Unit {0}
unfolding retry_loop serve is_exhausted record_request mark_exhausted maybe_reset new_quota_tracker
program = tt

third_call :
    complete third_time never_done 3
    ≡ record { result = completed 7; calls = 3; delays = 2000000000 ∷ 4000000000 ∷ [] }
unfolding program
third_call = refl

-- The client waits 4 seconds after the last attempt, and then gives up.
waits_in_vain : complete always_overloaded never_done 1 ≡ record {
  result = max_retries_exceeded 1 overloaded;
  calls = 2;
  delays = 2000000000 ∷ 4000000000 ∷ [];
}
unfolding program
waits_in_vain = refl

complete-IsRun_example : IsRun third_time never_done 3 0 3 (complete third_time never_done 3)
complete-IsRun_example = complete-IsRun third_time never_done 3

delay_after-bound_example :
    (delay_after 5 overloaded ≡ 64000000000) × (2 * delay_after 5 overloaded < word)
delay_after-bound_example = delay_after-bound 5 overloaded (omega arith) (omega arith)

-- A clock that counts seconds.
abbrev seconds : Calendar
seconds = record { minute = λ t. (t / 60) % 60; year_day = λ t. (t / 86400) % 365 }

abbrev request_at : ℕ → Reply ℕ → Request ℕ
request_at t primary = record {
  now = t;
  later = t;
  after = t;
  primary = primary;
  secondary = response 0;
}

abbrev tracker : QuotaTracker
tracker = new_quota_tracker seconds 30 4 100

abbrev requests : List (Request ℕ)
requests =
    request_at 31 (response 1)
    ∷ request_at 32 (response 2)
    ∷ request_at 33 (response 3)
    ∷ request_at 34 (response 4)
    ∷ []

three_served : (serve_all seconds requests tracker).0 ≡ 3
unfolding program
three_served = refl

-- An hour later the minute of the hour is the same, and the count is kept.
hour_later :
    (serve_request seconds
      (request_at 3634 (response 5))
      (serve_all seconds requests tracker).1).primary_called
    ≡ false
unfolding program
hour_later = refl

-- A limit of one request leaves none.
limit_one :
    (serve_request seconds
      (request_at 31 (response 1))
      (new_quota_tracker seconds 30 1 100)).primary_called
    ≡ false
unfolding program
limit_one = refl

requests-IsInMinute : All (λ r. IsInMinute seconds r tracker) requests
unfolding program
requests-IsInMinute = ((refl, refl), ((refl, refl), ((refl, refl), ((refl, refl), tt))))

serve_all-minute_quota_example : (serve_all seconds requests tracker).0 ≤ 3
serve_all-minute_quota_example =
    serve_all-minute_quota seconds requests 30 4 100 requests-IsInMinute

abbrev followers : List (Request ℕ)
followers =
    request_at 32 (response 1) ∷ request_at 45 (response 2) ∷ request_at 59 (response 3) ∷ []
