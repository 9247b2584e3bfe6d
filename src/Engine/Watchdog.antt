-- ===== src/Engine/Watchdog.antt =====
-- The watchdog of the sessions (internal/engine/watchdog.go). What the runtime reports of a session
-- is given with each check, and the hash of an output is a function. Times count nanoseconds, and
-- elapsed.Seconds() is compared with the threshold without rounding.
pub mod Streak
pub mod Stuck
use vortex_dispatch.Prelude.{
  Dict, List, Option, String, [], assign, if◌then◌else◌, leb, none, not, some, str_eq, value, ℕ,
  ◌*◌, ◌++◌, ◌-◌, ◌/◌, ◌∷◌,
}

-- AgentStatus of internal/runtime/runtime.go.
pub data AgentStatus : Type 0 where
  status_working status_done status_stuck status_permission_prompt status_plan_mode : AgentStatus
  status_terminated : AgentStatus

pub record Fingerprint : Type 0 where
  pub hash : String
  pub timestamp : ℕ

pub data Action : Type 0 where
  no_action permission_bypass plan_escape stuck_detected : Action

-- What the runtime reports: the status and the output, `none` being an error, and the time.
pub record Report : Type 0 where
  pub session : String
  pub status : Option AgentStatus
  pub output : Option String
  pub now : ℕ

pub record CheckResult : Type 0 where
  pub status : AgentStatus
  pub action : Action

-- The map of fingerprints, the input sent to sessions, and the sessions of the stuck events with
-- the time that the event tells.
pub record Watchdog : Type 0 where
  pub fingerprints : Dict (Option Fingerprint)
  pub sent : List (String × String)
  pub stuck_events : List (String × ℕ)

abbrev pub new_watchdog : Watchdog
new_watchdog = record { fingerprints = []; sent = []; stuck_events = [] }

abbrev pub nanoseconds : ℕ
nanoseconds = 1000000000

module _ (hash : String → String) (stuck_threshold_s : ℕ) where
  abbrev pub observe : String → String → ℕ → Watchdog → CheckResult × Watchdog
  observe session h now w =
      let fresh = record w {
        fingerprints = assign session (some (record { hash = h; timestamp = now })) w.fingerprints;
      } in
      elim (value none w.fingerprints session) [
        | none ↦ (record { status = status_working; action = no_action }, fresh)
        | some prev ↦
            if not (str_eq prev.hash h)
            then (record { status = status_working; action = no_action }, fresh)
            else (if leb (stuck_threshold_s * nanoseconds) (now - prev.timestamp)
                then (
                  record { status = status_stuck; action = stuck_detected },
                  record w {
                    stuck_events =
                        w.stuck_events ++ (session, (now - prev.timestamp) / nanoseconds) ∷ [];
                  },
                )
                else (record { status = status_working; action = no_action }, w))
      ]

  -- Check.
  unfoldable pub check : Report → Watchdog → CheckResult × Watchdog
  check r w = elim r.status [
    | none ↦ (record { status = status_working; action = no_action }, w)
    | some status ↦ elim status [
      | status_permission_prompt ↦ (
        record { status = status_permission_prompt; action = permission_bypass },
        record w { sent = w.sent ++ (r.session, "Y") ∷ [] },
      )
      | status_plan_mode ↦ (
        record { status = status_plan_mode; action = plan_escape },
        record w { sent = w.sent ++ (r.session, "Escape") ∷ [] },
      )
      | status_working ↦ elim r.output [
        | none ↦ (record { status = status_working; action = no_action }, w)
        | some output ↦ observe r.session (hash output) r.now w
      ]
      | status_done ↦ (record { status = status_done; action = no_action }, w)
      | status_terminated ↦ (record { status = status_terminated; action = no_action }, w)
      | status_stuck ↦ (record { status = status_stuck; action = no_action }, w)
    ]
  ]

  unfoldable pub clear_fingerprint : String → Watchdog → Watchdog
  clear_fingerprint session w = record w { fingerprints = assign session none w.fingerprints }

  abbrev pub check_all : List Report → Watchdog → Watchdog
  check_all [] w = w
  check_all (r ∷ rs) w = check_all rs (check r w).1
