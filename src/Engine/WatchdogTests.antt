-- ===== src/Engine/WatchdogTests.antt =====
-- Checks of two sessions, and the theorems on them.
use vortex_dispatch.Engine.Watchdog.{
  Report, Watchdog, check, check_all, nanoseconds, new_watchdog, no_action,
  status_permission_prompt, status_working, stuck_detected,
}
use vortex_dispatch.Engine.Watchdog.Streak.{IsStreak, check_all-IsStreak, seen}
use vortex_dispatch.Engine.Watchdog.Stuck.{IsStuckReport, check-IsStuck, working_output}
use vortex_dispatch.Prelude.{
  List, String, [], assign, none, refl, some, value, ℕ, ◌*◌, ◌↔◌, ◌∷◌, ◌≡◌,
}

abbrev seconds : ℕ → ℕ
seconds n = n * nanoseconds

abbrev working : String → String → ℕ → Report
working session output now = record {
  session = session;
  status = some status_working;
  output = some output;
  now = now;
}

-- The output of "a" is the same from second 20 on; that of "b" changes.
abbrev reports : List Report
reports =
    working "a" "x" (seconds 10)
    ∷ working "b" "u" (seconds 15)
    ∷ working "a" "y" (seconds 20)
    ∷ record {
      session = "a";
      status = some status_permission_prompt;
      output = none;
      now = seconds 25;
    }
    ∷ working "b" "v" (seconds 35)
    ∷ working "a" "y" (seconds 40)
    ∷ []

abbrev after_reports : Watchdog
after_reports = check_all (λ text. text) 60 reports new_watchdog

program : Unit {0}
unfolding check assign
program = tt

fingerprint_of_a :
    value none after_reports.fingerprints "a" ≡ some (record { hash = "y"; timestamp = seconds 20 })
unfolding program
fingerprint_of_a = refl

stuck_at_80 :
    (check (λ text. text) 60 (working "a" "y" (seconds 80)) after_reports).0.action ≡ stuck_detected
unfolding program
stuck_at_80 = refl

not_stuck_at_79 :
    (check (λ text. text) 60 (working "a" "y" (seconds 79)) after_reports).0.action ≡ no_action
unfolding program
not_stuck_at_79 = refl

check_all-IsStreak_example :
    IsStreak (seen (λ text. text) 60 "a" reports []) (value none after_reports.fingerprints "a")
check_all-IsStreak_example = check_all-IsStreak (λ text. text) 60 "a" reports

check-IsStuck_example :
    ((check (λ text. text) 60 (working "a" "y" (seconds 80)) after_reports).0.action
      ≡ stuck_detected)
    ↔ IsStuckReport
        (λ text. text)
        60
        (working_output (λ text. text) 60 (working "a" "y" (seconds 80)))
        (working "a" "y" (seconds 80))
        after_reports
check-IsStuck_example = check-IsStuck (λ text. text) 60 (working "a" "y" (seconds 80)) after_reports
