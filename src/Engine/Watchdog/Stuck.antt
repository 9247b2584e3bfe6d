-- ===== src/Engine/Watchdog/Stuck.antt =====
-- When the watchdog reports a session as stuck.
use vortex_dispatch.Engine.Watchdog.{
  AgentStatus, Fingerprint, Report, Watchdog, check, nanoseconds, no_action, observe, status_done,
  status_permission_prompt, status_plan_mode, status_stuck, status_terminated, status_working,
  stuck_detected,
}
use vortex_dispatch.Prelude.{
  Bool-cases, Option, Option-cases, String, arith, false, inl, inr, leb, none, refl, some, str_eq,
  str_eq_iff, subst, value, ℕ, ◌*◌, ◌-◌, ◌↔◌, ◌≡◌, ◌≤◌,
}

module _ (hash : String → String) (stuck_threshold_s : ℕ) where
  -- The same output for at least as long as the threshold.
  abbrev pub IsStuck : Option Fingerprint → String → ℕ → Type 0
  IsStuck none h now = ⊥
  IsStuck (some f) h now = (f.hash ≡ h) × (stuck_threshold_s * nanoseconds ≤ now - f.timestamp)

  not-long :
      (f : Fingerprint) (h : String) (now : ℕ)
      → leb (stuck_threshold_s * nanoseconds) (now - f.timestamp) ≡ false
      → ¬ IsStuck (some f) h now
  not-long f h now short k = ground (arith, short, k.1)

  not-same :
      (f : Fingerprint) (h : String) (now : ℕ) → str_eq f.hash h ≡ false → ¬ IsStuck (some f) h now
  not-same f h now other k = cc (other, (str_eq_iff f.hash h).1 k.0)

  observe-IsStuck :
      (session h : String) (now : ℕ) (w : Watchdog)
      → ((observe hash stuck_threshold_s session h now w).0.action ≡ stuck_detected)
        ↔ IsStuck (value none w.fingerprints session) h now
  observe-IsStuck session h now w = elim (Option-cases (value none w.fingerprints session)) [
    | inl unseen ↦
        let act : (observe hash stuck_threshold_s session h now w).0.action ≡ no_action =
          simp (observe, unseen) refl in
        rw unseen (λ e. absurd (cc (act, e)), λ k. absurd k)
    | inr (f, seen_as) ↦ elim (Bool-cases (str_eq f.hash h)) [
      | inl y ↦ elim (Bool-cases (leb (stuck_threshold_s * nanoseconds) (now - f.timestamp))) [
        | inl long ↦
            let act : (observe hash stuck_threshold_s session h now w).0.action ≡ stuck_detected =
              simp (observe, seen_as, y, long) refl in
            (λ e. rw seen_as ((str_eq_iff f.hash h).0 y, ground (arith, long)), λ k. act)
        | inr short ↦
            let act : (observe hash stuck_threshold_s session h now w).0.action ≡ no_action =
              simp (observe, seen_as, y, short) refl in
            (
              λ e. absurd (cc (act, e)),
              λ k. absurd (not-long f h now short (subst (λ o. IsStuck o h now) seen_as k)),
            )
      ]
      | inr n ↦
          let act : (observe hash stuck_threshold_s session h now w).0.action ≡ no_action =
            simp (observe, seen_as, n) refl in
          (
            λ e. absurd (cc (act, e)),
            λ k. absurd (not-same f h now n (subst (λ o. IsStuck o h now) seen_as k)),
          )
    ]
  ]

  -- The output of a working session.
  abbrev pub working_output : Report → Option String
  working_output r = elim r.status [ some status_working ↦ r.output | _ ↦ none ]

  abbrev pub IsStuckReport : Option String → Report → Watchdog → Type 0
  IsStuckReport none r w = ⊥
  IsStuckReport (some output) r w =
      IsStuck (value none w.fingerprints r.session) (hash output) r.now

  report-IsStuckReport :
      (session : String) (now : ℕ) (w : Watchdog) (output : Option String)
      (status : Option AgentStatus)
      → ((check hash stuck_threshold_s
            (record { session = session; status = status; output = output; now = now })
            w).0.action
          ≡ stuck_detected)
        ↔ IsStuckReport
            (working_output
              (record { session = session; status = status; output = output; now = now }))
            (record { session = session; status = status; output = output; now = now })
            w
  unfolding check
  report-IsStuckReport session now w output none = (λ e. absurd (cc e), λ k. absurd k)
  report-IsStuckReport session now w output (some status_done) = (λ e. absurd (cc e), λ k. absurd k)
  report-IsStuckReport session now w output (some status_stuck) =
      (λ e. absurd (cc e), λ k. absurd k)
  report-IsStuckReport session now w output (some status_permission_prompt) =
      (λ e. absurd (cc e), λ k. absurd k)
  report-IsStuckReport session now w output (some status_plan_mode) =
      (λ e. absurd (cc e), λ k. absurd k)
  report-IsStuckReport session now w output (some status_terminated) =
      (λ e. absurd (cc e), λ k. absurd k)
  report-IsStuckReport session now w none (some status_working) =
      (λ e. absurd (cc e), λ k. absurd k)
  report-IsStuckReport session now w (some output) (some status_working) =
      observe-IsStuck session (hash output) now w

  -- Check reports a session as stuck exactly if the session is working, its output can be read, its
  -- fingerprint has the hash of this output, and was taken at least the threshold ago.
  pub check-IsStuck :
      (r : Report) (w : Watchdog)
      → ((check hash stuck_threshold_s r w).0.action ≡ stuck_detected)
        ↔ IsStuckReport (working_output r) r w
  check-IsStuck r w = report-IsStuckReport r.session r.now w r.output r.status
