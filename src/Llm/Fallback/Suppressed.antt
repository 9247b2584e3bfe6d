-- ===== src/Llm/Fallback/Suppressed.antt =====
-- A rate limit keeps the primary client from being called for a while.
use vortex_dispatch.Llm.Fallback.{Calendar, QuotaTracker}
use vortex_dispatch.Llm.Fallback.Quota.{Request, serve_request}
use vortex_dispatch.Prelude.{List, [], false, ◌∷◌, ◌≡◌}

module _ (cal : Calendar) where
  -- Requests one after the other, each answered by its secondary client, the primary not called.
  abbrev pub AreSuppressed : {A : Type 0} → List (Request A) → QuotaTracker → Type 0
  AreSuppressed [] q = Unit
  AreSuppressed (r ∷ rs) q =
      ((serve_request cal r q).primary_called ≡ false)
      × ((serve_request cal r q).reply ≡ r.secondary)
      × AreSuppressed rs (serve_request cal r q).tracker
