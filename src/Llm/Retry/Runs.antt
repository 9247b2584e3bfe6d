-- ===== src/Llm/Retry/Runs.antt =====
-- The attempts that the client makes.
use vortex_dispatch.Llm.Errors.{Failure, is_retryable, retry_after_seconds}
use vortex_dispatch.Llm.Retry.{
  Reply, Result, Run, base_delay, complete, completed, context_done, delay_after, error, failed,
  max_retries_exceeded, response, retry_loop, second, two_to, word,
}
use vortex_dispatch.Prelude.{
  Bool, Bool-cases, List, [], ap, arith, false, if◌then◌else◌, inl, inr, length, ltb, refl, subst,
  suc, sym, true, zero, ℕ, ◌*◌, ◌+◌, ◌<◌, ◌∙◌, ◌∷◌, ◌≡◌, ◌≤◌, ◌⊎◌,
}

zero-or-suc : (n : ℕ) → (n ≡ 0) ⊎ ((k : ℕ) × (n ≡ suc k))
zero-or-suc zero = inl refl
zero-or-suc (suc k) = inr (k, refl)

plus_zero : (n : ℕ) → n + 0 ≡ n
plus_zero n = omega arith

plus_one : (n k : ℕ) → n + 1 + k ≡ n + suc k
plus_one n k = omega arith

module _ {A : Type 0} (inner : ℕ → Reply A) (done : ℕ → Bool) (max_retries : ℕ) where
  -- Attempt `i` failed, and the client went on.
  abbrev pub WasRetried : ℕ → Type 0
  WasRetried i = (e : Failure) × (inner i ≡ error e) × (is_retryable e ≡ true) × (done i ≡ false)

  -- The result is what attempt `i` called for.
  abbrev pub IsEnding : ℕ → Result A → Type 0
  IsEnding i (completed a) = inner i ≡ response a
  IsEnding i (failed e) = (inner i ≡ error e) × (is_retryable e ≡ false)
  IsEnding i context_done =
      (e : Failure) × (inner i ≡ error e) × (is_retryable e ≡ true) × (done i ≡ true)
  IsEnding i (max_retries_exceeded m e) =
      (i ≡ max_retries)
      × (m ≡ max_retries)
      × (inner i ≡ error e)
      × (is_retryable e ≡ true)
      × (done i ≡ false)

  -- The waits: the last attempt has one as well, unless it brought a result or a lasting error.
  abbrev pub waits : ℕ → Result A → ℕ
  waits last (completed a) = last
  waits last (failed e) = last
  waits last context_done = suc last
  waits last (max_retries_exceeded m e) = suc last

  pub record IsRun (first extra : ℕ) (run : Run A) : Type 0 where
    pub last : ℕ
    pub last_call : run.calls ≡ suc last
    pub within : last ≤ extra
    pub retried : (i : ℕ) → i < last → WasRetried (first + i)
    pub ending : IsEnding (first + last) run.result
    pub waited : length run.delays ≡ waits last run.result

  Reply-cases : (r : Reply A) → ((a : A) × (r ≡ response a)) ⊎ ((e : Failure) × (r ≡ error e))
  Reply-cases (response a) = inl (a, refl)
  Reply-cases (error e) = inr (e, refl)

  Attempt-cases :
      (i : ℕ)
      → ((a : A) × (inner i ≡ response a))
        ⊎ (((e : Failure) × (inner i ≡ error e) × (is_retryable e ≡ false))
            ⊎ (((e : Failure) × (inner i ≡ error e) × (is_retryable e ≡ true) × (done i ≡ true))
                ⊎ WasRetried i))
  Attempt-cases i = elim (Reply-cases (inner i)) [
    | inl good ↦ inl good
    | inr (e, bad) ↦ elim (Bool-cases (is_retryable e)) [
      | inl again ↦ elim (Bool-cases (done i)) [
        | inl stopped ↦ inr (inr (inl (e, bad, again, stopped)))
        | inr on ↦ inr (inr (inr (e, bad, again, on)))
      ]
      | inr lasting ↦ inr (inl (e, bad, lasting))
    ]
  ]

  stop-IsRun :
      (first extra : ℕ) (r : Result A) (ds : List ℕ)
      → IsEnding first r
      → length ds ≡ waits 0 r
      → IsRun first extra (record { result = r; calls = 1; delays = ds })
  stop-IsRun first extra r ds ending waited = record {
    last = 0;
    last_call = refl;
    within = omega arith;
    retried = λ i lt. absurd (omega (arith, lt));
    ending = subst (λ i. IsEnding i r) (sym (plus_zero first)) ending;
    waited = waited;
  }

  waits-suc : (last : ℕ) (r : Result A) → waits (suc last) r ≡ suc (waits last r)
  waits-suc last (completed a) = refl
  waits-suc last (failed e) = refl
  waits-suc last context_done = refl
  waits-suc last (max_retries_exceeded m e) = refl

  after_wait-IsRun :
      (first extra delay : ℕ) (later : Run A)
      → WasRetried first
      → IsRun (first + 1) extra later
      → IsRun first
          (suc extra)
          (record later { calls = suc later.calls; delays = delay ∷ later.delays })
  after_wait-IsRun first extra delay later retried_first r = record {
    last = suc r.last;
    last_call = ap suc r.last_call;
    within = omega (arith, r.within);
    retried = λ i lt. elim (zero-or-suc i) [
      | inl start ↦ subst WasRetried (omega (arith, start)) retried_first
      | inr (k, after) ↦
          subst WasRetried (omega (arith, after)) (r.retried k (omega (arith, lt, after)))
    ];
    ending = subst (λ i. IsEnding i later.result) (plus_one first r.last) r.ending;
    waited = ap suc r.waited ∙ sym (waits-suc r.last later.result);
  }

  retry_loop-IsRun :
      (n attempt : ℕ)
      → attempt + n ≡ max_retries
      → IsRun attempt n (retry_loop inner done max_retries n attempt)
  unfolding retry_loop
  retry_loop-IsRun zero attempt h = elim (Attempt-cases attempt) [
    | inl (a, good) ↦ rw (retry_loop, good) (stop-IsRun attempt 0 (completed a) [] good refl)
    | inr (inl (e, bad, lasting)) ↦
        rw (retry_loop, bad, lasting) (stop-IsRun attempt 0 (failed e) [] (bad, lasting) refl)
    | inr (inr (inl (e, bad, again, stopped))) ↦
        rw (retry_loop, bad, again, stopped)
          (stop-IsRun attempt 0 context_done _ (e, bad, again, stopped) refl)
    | inr (inr (inr (e, bad, again, on))) ↦
        rw (retry_loop, bad, again, on)
          (stop-IsRun attempt 0 (max_retries_exceeded max_retries e) _
            (omega (arith, h), refl, bad, again, on) refl)
  ]
  retry_loop-IsRun (suc n) attempt h = elim (Attempt-cases attempt) [
    | inl (a, good) ↦ rw (retry_loop, good) (stop-IsRun attempt (suc n) (completed a) [] good refl)
    | inr (inl (e, bad, lasting)) ↦
        rw (retry_loop, bad, lasting) (stop-IsRun attempt (suc n) (failed e) [] (bad, lasting) refl)
    | inr (inr (inl (e, bad, again, stopped))) ↦
        rw (retry_loop, bad, again, stopped)
          (stop-IsRun attempt (suc n) context_done _ (e, bad, again, stopped) refl)
    | inr (inr (inr (e, bad, again, on))) ↦
        rw (retry_loop, bad, again, on)
          (after_wait-IsRun attempt n (delay_after attempt e) _ (e, bad, again, on)
            (retry_loop-IsRun n (attempt + 1) (omega (arith, h))))
  ]

  -- Complete calls the inner client at most once more than there are retries. All calls but the
  -- last failed with a retryable error and were waited for; the result is what the last call
  -- brought, and the retries are used up only after the last one allowed. The last call has a wait
  -- of its own if it failed with a retryable error, also where no attempt follows.
  pub complete-IsRun : IsRun 0 max_retries (complete inner done max_retries)
  complete-IsRun = retry_loop-IsRun max_retries 0 (omega arith)

two_to-le : (n k : ℕ) → n ≤ k → two_to n ≤ two_to k
two_to-le zero zero h = omega arith
two_to-le zero (suc k) h = omega (arith, two_to-le zero k (omega arith))
two_to-le (suc n) zero h = absurd (omega (arith, h))
two_to-le (suc n) (suc k) h = omega (arith, two_to-le n k (omega (arith, h)))

-- Up to attempt 32, and for a Retry-After of at most 9000000000 seconds, the delay does not wrap
-- around, and is below 2 ^ 63: it is the Retry-After, or the base delay doubled once for each
-- attempt.
pub delay_after-bound :
    (attempt : ℕ) (e : Failure)
    → attempt ≤ 32
    → retry_after_seconds e ≤ 9000000000
    → (delay_after attempt e ≡ (
        if ltb 0 (retry_after_seconds e)
        then retry_after_seconds e * second
        else base_delay * two_to attempt))
      × (2 * delay_after attempt e < word)
delay_after-bound attempt e h k = ground (arith, two_to-le attempt 32 h)
