-- ===== src/Engine/Watchdog/Streak.antt =====
-- What the fingerprint of a session stands for, and when the watchdog reports a session as stuck.
use vortex_dispatch.Engine.Watchdog.{
  AgentStatus, Fingerprint, Report, Watchdog, check, check_all, nanoseconds, new_watchdog, observe,
  status_done, status_permission_prompt, status_plan_mode, status_stuck, status_terminated,
  status_working,
}
use vortex_dispatch.Prelude.{
  All, Bool, Bool-cases, Dict, List, Option, Option-cases, String, [], ap, assign, false,
  if◌then◌else◌, inl, inr, leb, none, not, refl, some, str_eq, str_eq_iff, str_eq_refl, subst, sym,
  true, value, value-assign, ℕ, ◌*◌, ◌++◌, ◌-◌, ◌∙◌, ◌∷◌, ◌≡◌,
}

module _ (hash : String → String) (stuck_threshold_s : ℕ) where
  -- The hash and the time of an output that this check reads of the session.
  abbrev pub observation : String → Report → Option (String × ℕ)
  observation s r = elim r.status [
    | some status_working ↦ elim r.output [
      | some output ↦ if str_eq r.session s then some (hash output, r.now) else none
      | none ↦ none
    ]
    | _ ↦ none
  ]

abbrev pub add : Option (String × ℕ) → List (String × ℕ) → List (String × ℕ)
add none past = past
add (some x) past = x ∷ past

abbrev pub first_time : List (String × ℕ) → Option ℕ
first_time [] = none
first_time (x ∷ []) = some x.1
first_time (x ∷ y ∷ ys) = first_time (y ∷ ys)

abbrev pub starts_otherwise : String → List (String × ℕ) → Bool
starts_otherwise h [] = true
starts_otherwise h (x ∷ xs) = not (str_eq x.0 h)

-- Of the observations, the latest first, the last ones all had this hash, since this time.
abbrev pub IsStreak : List (String × ℕ) → Option Fingerprint → Type 0
IsStreak past none = past ≡ []
IsStreak past (some f) =
    (streak : List (String × ℕ)) × (before : List (String × ℕ)) × (past ≡ streak ++ before)
    × All (λ x. x.0 ≡ f.hash) streak
    × (first_time streak ≡ some f.timestamp)
    × (starts_otherwise f.hash before ≡ true)

single-IsStreak :
    (h : String) (t : ℕ) (past : List (String × ℕ))
    → starts_otherwise h past ≡ true
    → IsStreak ((h, t) ∷ past) (some (record { hash = h; timestamp = t }))
single-IsStreak h t past other = ((h, t) ∷ [], past, refl, (refl, tt), refl, other)

first_time-cons :
    (x : String × ℕ) (t : ℕ) (xs : List (String × ℕ))
    → first_time xs ≡ some t
    → first_time (x ∷ xs) ≡ some t
first_time-cons x t [] h = absurd (cc h)
first_time-cons x t (y ∷ ys) h = h

longer-IsStreak :
    (h : String) (t : ℕ) (past : List (String × ℕ)) (f : Fingerprint)
    → h ≡ f.hash
    → IsStreak past (some f)
    → IsStreak ((h, t) ∷ past) (some f)
longer-IsStreak h t past f same (streak, before, parts, all, since, other) = (
  (h, t) ∷ streak,
  before,
  ap (λ xs. (h, t) ∷ xs) parts,
  (same, all),
  first_time-cons (h, t) f.timestamp streak since,
  other,
)

-- A streak of another hash has ended.
ended-IsStreak :
    (h : String) (past : List (String × ℕ)) (f : Fingerprint)
    → str_eq f.hash h ≡ false
    → IsStreak past (some f)
    → starts_otherwise h past ≡ true
ended-IsStreak h past f other ([], before, parts, all, since, others) = absurd (cc since)
ended-IsStreak h past f other (x ∷ streak, before, parts, all, since, others) =
    rw (parts, starts_otherwise, all.0, other) refl

module _ (hash : String → String) (stuck_threshold_s : ℕ) where
  -- The fingerprint of the session after an output of it.
  abbrev next_fingerprint : String → ℕ → Option Fingerprint → Option Fingerprint
  next_fingerprint h now none = some (record { hash = h; timestamp = now })
  next_fingerprint h now (some f) =
      if not (str_eq f.hash h) then some (record { hash = h; timestamp = now }) else some f

  next_fingerprint-IsStreak :
      (h : String) (now : ℕ) (past : List (String × ℕ)) (o : Option Fingerprint)
      → IsStreak past o
      → IsStreak ((h, now) ∷ past) (next_fingerprint h now o)
  next_fingerprint-IsStreak h now past none k = single-IsStreak h now past (rw k refl)
  next_fingerprint-IsStreak h now past (some f) k = elim (Bool-cases (str_eq f.hash h)) [
    | inl y ↦
        rw (next_fingerprint, y) (longer-IsStreak h now past f (sym ((str_eq_iff f.hash h).0 y)) k)
    | inr n ↦ rw (next_fingerprint, n) (single-IsStreak h now past (ended-IsStreak h past f n k))
  ]

  fresh-own :
      (session h : String) (now : ℕ) (m : Dict (Option Fingerprint))
      → value none (assign session (some (record { hash = h; timestamp = now })) m) session
        ≡ some (record { hash = h; timestamp = now })
  fresh-own session h now m =
      value-assign none session session (some (record { hash = h; timestamp = now })) m
      ∙ rw (str_eq_refl session) refl

  fresh-other :
      (session s : String) (f : Option Fingerprint) (m : Dict (Option Fingerprint))
      → str_eq session s ≡ false
      → value none (assign session f m) s ≡ value none m s
  fresh-other session s f m other = value-assign none session s f m ∙ rw other refl

  observe-own :
      (session h : String) (now : ℕ) (w : Watchdog)
      → value none (observe hash stuck_threshold_s session h now w).1.fingerprints session
        ≡ next_fingerprint h now (value none w.fingerprints session)
  observe-own session h now w = elim (Option-cases (value none w.fingerprints session)) [
    | inl unseen ↦ simp (observe, unseen) (fresh-own session h now w.fingerprints)
    | inr (f, seen_as) ↦ elim (Bool-cases (str_eq f.hash h)) [
      | inl y ↦ elim (Bool-cases (leb (stuck_threshold_s * nanoseconds) (now - f.timestamp))) [
        | inl long ↦ simp (observe, seen_as, y, long) refl
        | inr short ↦ simp (observe, seen_as, y, short) refl
      ]
      | inr n ↦ simp (observe, seen_as, n) (fresh-own session h now w.fingerprints)
    ]
  ]

  observe-other :
      (session s h : String) (now : ℕ) (w : Watchdog)
      → str_eq session s ≡ false
      → value none (observe hash stuck_threshold_s session h now w).1.fingerprints s
        ≡ value none w.fingerprints s
  observe-other session s h now w other = elim (Option-cases (value none w.fingerprints session)) [
    | inl unseen ↦ simp (observe, unseen) (fresh-other session s _ w.fingerprints other)
    | inr (f, seen_as) ↦ elim (Bool-cases (str_eq f.hash h)) [
      | inl y ↦ elim (Bool-cases (leb (stuck_threshold_s * nanoseconds) (now - f.timestamp))) [
        | inl long ↦ simp (observe, seen_as, y, long) refl
        | inr short ↦ simp (observe, seen_as, y, short) refl
      ]
      | inr n ↦ simp (observe, seen_as, n) (fresh-other session s _ w.fingerprints other)
    ]
  ]

  observe-IsStreak :
      (s session output : String) (now : ℕ) (past : List (String × ℕ)) (w : Watchdog)
      → IsStreak past (value none w.fingerprints s)
      → IsStreak
          (add (if str_eq session s then some (hash output, now) else none) past)
          (value none (observe hash stuck_threshold_s session (hash output) now w).1.fingerprints s)
  observe-IsStreak s session output now past w k = elim (Bool-cases (str_eq session s)) [
    | inl y ↦
        let same : session ≡ s = (str_eq_iff session s).0 y in
        let own : value none
              (observe hash stuck_threshold_s session (hash output) now w).1.fingerprints s
            ≡ next_fingerprint (hash output) now (value none w.fingerprints s) =
          subst
            (λ j.
              value none (observe hash stuck_threshold_s session (hash output) now w).1.fingerprints
                j
              ≡ next_fingerprint (hash output) now (value none w.fingerprints j))
            same (observe-own session (hash output) now w) in
        rw (y, own)
          (next_fingerprint-IsStreak (hash output) now past (value none w.fingerprints s) k)
    | inr n ↦ rw (n, observe-other session s (hash output) now w n) k
  ]

  report-IsStreak :
      (s session : String) (now : ℕ) (past : List (String × ℕ)) (w : Watchdog)
      (output : Option String) (status : Option AgentStatus)
      → IsStreak past (value none w.fingerprints s)
      → IsStreak
          (add
            (observation hash stuck_threshold_s s
              (record { session = session; status = status; output = output; now = now }))
            past)
          (value none
            (check hash stuck_threshold_s
              (record { session = session; status = status; output = output; now = now })
              w).1.fingerprints
            s)
  unfolding check
  report-IsStreak s session now past w output none k = k
  report-IsStreak s session now past w output (some status_done) k = k
  report-IsStreak s session now past w output (some status_stuck) k = k
  report-IsStreak s session now past w output (some status_permission_prompt) k = k
  report-IsStreak s session now past w output (some status_plan_mode) k = k
  report-IsStreak s session now past w output (some status_terminated) k = k
  report-IsStreak s session now past w none (some status_working) k = k
  report-IsStreak s session now past w (some output) (some status_working) k =
      observe-IsStreak s session output now past w k

  -- The outputs of the session that the checks have read, the latest first.
  abbrev pub seen : String → List Report → List (String × ℕ) → List (String × ℕ)
  seen s [] past = past
  seen s (r ∷ rs) past = seen s rs (add (observation hash stuck_threshold_s s r) past)

  check_all-keeps :
      (s : String) (rs : List Report) (past : List (String × ℕ)) (w : Watchdog)
      → IsStreak past (value none w.fingerprints s)
      → IsStreak
          (seen s rs past)
          (value none (check_all hash stuck_threshold_s rs w).fingerprints s)
  check_all-keeps s [] past w k = k
  check_all-keeps s (r ∷ rs) past w k =
      check_all-keeps s rs (add (observation hash stuck_threshold_s s r) past)
        (check hash stuck_threshold_s r w).1
        (report-IsStreak s r.session r.now past w r.output r.status k)

  -- After any checks of any sessions, the fingerprint of a session holds the hash of its last
  -- readable output and the time since which every output of it had this hash; a session has none
  -- if no output of it was read.
  pub check_all-IsStreak :
      (s : String) (rs : List Report)
      → IsStreak
          (seen s rs [])
          (value none (check_all hash stuck_threshold_s rs new_watchdog).fingerprints s)
  check_all-IsStreak s rs = check_all-keeps s rs [] new_watchdog refl
