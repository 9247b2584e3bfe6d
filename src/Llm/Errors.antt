-- ===== src/Llm/Errors.antt =====
-- The errors of a provider (internal/llm/errors.go). errors.As finds the APIError of an error, if
-- there is one. strings.ToLower and strings.Contains come from Go's library, and are parameters.
use vortex_dispatch.Prelude.{
  Bool, List, Option, String, [], false, if◌then◌else◌, none, some, true, ℕ, ◌&&◌, ◌==◌, ◌||◌, ◌∷◌,
}

-- A Retry-After below 0, which the code treats like 0, is 0 here.
pub record ApiError : Type 0 where
  pub status_code : ℕ
  pub message : String
  pub retryable : Bool
  pub retry_after : ℕ

-- An error is an APIError, or has only its text.
pub data Failure : Type 0 where
  api_error : ApiError → Failure
  plain_error : String → Failure

abbrev pub is_rate_limited : Failure → Bool
is_rate_limited (plain_error text) = false
is_rate_limited (api_error e) = e.status_code == 429

abbrev pub is_overloaded : Failure → Bool
is_overloaded (plain_error text) = false
is_overloaded (api_error e) = e.status_code == 529

abbrev pub is_retryable : Failure → Bool
is_retryable (plain_error text) = false
is_retryable (api_error e) = e.retryable

abbrev pub retry_after_seconds : Failure → ℕ
retry_after_seconds (plain_error text) = 0
retry_after_seconds (api_error e) = e.retry_after

abbrev pub capacity_signatures : List String
capacity_signatures =
    "session limit" ∷ "usage limit" ∷ "rate limit" ∷ "rate_limit" ∷ "too many requests"
    ∷ "overloaded" ∷ "\"api_error_status\":429" ∷ "\"api_error_status\":529"
    ∷ "\"api_error_status\": 429" ∷ "\"api_error_status\": 529" ∷ "socket connection was closed"
    ∷ "connection closed unexpectedly" ∷ "connection reset" ∷ "connection refused" ∷ "i/o timeout"
    ∷ "tls handshake timeout" ∷ "unexpected eof" ∷ "service unavailable" ∷ "bad gateway"
    ∷ "gateway timeout" ∷ []

module _ (to_lower : String → String) (contains : String → String → Bool)
    (error_text : Failure → String) where
  abbrev pub is_insufficient_balance : Failure → Bool
  is_insufficient_balance (plain_error text) = false
  is_insufficient_balance (api_error e) =
      let msg = to_lower e.message in
      (e.status_code == 400)
      && (contains msg "credit balance"
          || (contains msg "billing"
              || (contains msg "insufficient_quota" || contains msg "out of extra usage")))

  abbrev pub is_fatal_api_error : Failure → Bool
  is_fatal_api_error (plain_error text) = false
  is_fatal_api_error (api_error e) =
      (e.status_code == 401) || ((e.status_code == 403) || is_insufficient_balance (api_error e))

  abbrev contains_any : String → List String → Bool
  contains_any lower [] = false
  contains_any lower (s ∷ ss) = if contains lower s then true else contains_any lower ss

  abbrev pub contains_capacity_signature : String → Bool
  contains_capacity_signature s = contains_any (to_lower s) capacity_signatures

  abbrev pub is_capacity_error : Option Failure → Bool
  is_capacity_error none = false
  is_capacity_error (some (plain_error text)) =
      contains_capacity_signature (error_text (plain_error text))
  is_capacity_error (some (api_error e)) =
      if (e.status_code == 429) || (e.status_code == 529)
      then true
      else contains_capacity_signature (error_text (api_error e))
