-- ===== src/Llm/Retry.antt =====
-- The client that retries (internal/llm/retry.go). The client inside it and the context are given
-- by what each call returns, and by whether the context is done during each wait.
pub mod Runs
use vortex_dispatch.Llm.Errors.{Failure, is_retryable, retry_after_seconds}
use vortex_dispatch.Prelude.{
  Bool, List, [], if◌then◌else◌, ltb, not, suc, zero, ℕ, ◌%◌, ◌*◌, ◌+◌, ◌∷◌,
}

pub data Reply (A : Type 0) : Type 0 where
  response : A → Reply A
  error : Failure → Reply A

-- What Complete returns: the inner response, an error that is not retryable, the error of the
-- context, or that the retries are used up, with the last error.
pub data Result (A : Type 0) : Type 0 where
  completed : A → Result A
  failed : Failure → Result A
  context_done : Result A
  max_retries_exceeded : ℕ → Failure → Result A

pub record Run (A : Type 0) : Type 0 where
  pub result : Result A
  pub calls : ℕ
  pub delays : List ℕ

abbrev pub two_to : ℕ → ℕ
two_to zero = 1
two_to (suc n) = 2 * two_to n

abbrev pub word : ℕ
word = 18446744073709551616

abbrev pub second : ℕ
second = 1000000000

-- NewRetryClient sets 2 seconds.
abbrev pub base_delay : ℕ
base_delay = 2 * second

-- The 64 bits of the delay before the next attempt, in nanoseconds.
abbrev pub delay_after : ℕ → Failure → ℕ
delay_after attempt e =
    if ltb 0 (retry_after_seconds e)
    then (retry_after_seconds e * second) % word
    else (base_delay * (two_to attempt % word)) % word

module _ {A : Type 0} (inner : ℕ → Reply A) (done : ℕ → Bool) (max_retries : ℕ) where
  abbrev after_wait : ℕ → Failure → Run A → Run A
  after_wait attempt e later = record later {
    calls = suc later.calls;
    delays = delay_after attempt e ∷ later.delays;
  }

  abbrev stop : Result A → List ℕ → Run A
  stop r ds = record { result = r; calls = 1; delays = ds }

  -- The loop with `n` further attempts after the one with number `attempt`.
  unfoldable pub retry_loop : ℕ → ℕ → Run A
  retry_loop zero attempt = elim (inner attempt) [
    | response a ↦ stop (completed a) []
    | error e ↦
        if not (is_retryable e)
        then stop (failed e) []
        else (if done attempt
            then stop context_done (delay_after attempt e ∷ [])
            else stop (max_retries_exceeded max_retries e) (delay_after attempt e ∷ []))
  ]
  retry_loop (suc n) attempt =
      let later = retry_loop n (attempt + 1) in
      elim (inner attempt) [
        | response a ↦ stop (completed a) []
        | error e ↦
            if not (is_retryable e)
            then stop (failed e) []
            else (if done attempt
                then stop context_done (delay_after attempt e ∷ [])
                else after_wait attempt e later)
      ]

  abbrev pub complete : Run A
  complete = retry_loop max_retries 0
