-- ===== src/Autoresearch/Runner/Kept.antt =====
-- Which experiments are kept.
use vortex_dispatch.Autoresearch.{
  Float, Proposal, Score, Verdict, improves, verdict_ok, verdict_rejected, verdict_suspicious,
}
use vortex_dispatch.Autoresearch.Filter.{check}
use vortex_dispatch.Autoresearch.Filter.Under.{IsInScope, check-IsInScope}
use vortex_dispatch.Autoresearch.Gate.{experiment_branch, route}
use vortex_dispatch.Autoresearch.Runner.{
  AgentResult, Effect, Outcome, Outside, Runner, agent_not_started, agent_stopped, agent_succeeded,
  branch_of, check_scope, improve_and_route, inspect_diff, is_ok, measure_and_judge, run, succeeded,
}
use vortex_dispatch.Prelude.{
  All, Bool, Bool-cases, List, Option, Option-cases, String, arith, false, inl, inr, none, not,
  refl, some, str_eq, subst, sym, true, ℕ, ◌&&◌, ◌↔◌, ◌∙◌, ◌≡◌,
}

pub ok-verdict : (v : Verdict) → is_ok v ≡ true → v ≡ verdict_ok
ok-verdict verdict_ok h = refl
ok-verdict verdict_suspicious h = absurd (cc h)
ok-verdict verdict_rejected h = absurd (cc h)

pub succeeded-agent : (a : AgentResult) → succeeded a ≡ true → a ≡ agent_succeeded
succeeded-agent agent_succeeded h = refl
succeeded-agent agent_stopped h = absurd (cc h)
succeeded-agent agent_not_started h = absurd (cc h)

module _ (float : Float) (file_match : List ℕ → List ℕ → Bool) (exp_name : String → String)
    (r : Runner) (o : Outside float.Carrier) (p : Proposal) (baseline : float.Carrier) where
  abbrev pub gate_ok : Bool
  gate_ok =
      (route r.router r.action true
        (experiment_branch exp_name (branch_of float file_match exp_name r o p baseline) p.id)).ok

  -- The scores, the judge and the gate are for it.
  pub record IsPassed (score : Score float.Carrier) : Type 0 where
    pub scored : o.measure ≡ some score
    pub judge_ok : o.judge_ok ≡ true
    pub verdict_ok : o.verdict ≡ verdict_ok
    pub better : improves float score baseline ≡ true
    pub routed : gate_ok ≡ true

  abbrev pub IsChanged : Type 0
  IsChanged = (d : String) × (o.diff ≡ some d) × (str_eq d "" ≡ false)

  -- Every path that the experiment touched is in scope, where the paths can be read.
  abbrev pub IsScoped : Type 0
  IsScoped =
      (paths : List (List ℕ)) → o.paths ≡ some paths → All (IsInScope file_match r.filter) paths

  pub record IsKept : Type 0 where
    pub created : o.creates ≡ true
    pub agent_ok : o.agent ≡ agent_succeeded
    pub changed : IsChanged
    pub scoped : IsScoped
    pub score : Score float.Carrier
    pub passed : IsPassed score

  improve_and_route-kept :
      (score : Score float.Carrier) (out : Outcome float.Carrier)
      (trace : List (Effect float.Carrier))
      → out.kept ≡ false
      → ((improve_and_route float file_match exp_name r o p baseline score out trace).outcome.kept
          ≡ (improves float score baseline && gate_ok))
  unfolding improve_and_route
  improve_and_route-kept score out trace h = elim (Bool-cases (improves float score baseline)) [
    | inl better ↦ elim (Bool-cases gate_ok) [
      | inl routed ↦ rw (improve_and_route, better, routed) refl
      | inr declined ↦ rw (improve_and_route, better, declined) h
    ]
    | inr worse ↦ rw (improve_and_route, worse) h
  ]

  abbrev measure_passes : Option (Score float.Carrier) → Bool
  measure_passes none = false
  measure_passes (some score) =
      (o.judge_ok && is_ok o.verdict) && (improves float score baseline && gate_ok)

  measure_and_judge-kept :
      (out : Outcome float.Carrier) (trace : List (Effect float.Carrier))
      → out.kept ≡ false
      → (measure_and_judge float file_match exp_name r o p baseline out trace).outcome.kept
        ≡ measure_passes o.measure
  unfolding measure_and_judge
  measure_and_judge-kept out trace h = elim (Option-cases o.measure) [
    | inl unmeasured ↦ simp (measure_and_judge, unmeasured) h
    | inr (score, there) ↦ elim (Bool-cases (o.judge_ok && is_ok o.verdict)) [
      | inl allowed ↦ simp (measure_and_judge, there, allowed) (improve_and_route-kept score _ _ h)
      | inr declined ↦ simp (measure_and_judge, there, declined) h
    ]
  ]

  abbrev pub scope_passes : Option (List (List ℕ)) → Bool
  scope_passes none = true
  scope_passes (some paths) = elim (check file_match r.filter paths) [
    | none ↦ true
    | some path ↦ false
  ]

  check_scope-kept :
      (out : Outcome float.Carrier) (trace : List (Effect float.Carrier))
      → out.kept ≡ false
      → (check_scope float file_match exp_name r o p baseline out trace).outcome.kept
        ≡ (scope_passes o.paths && measure_passes o.measure)
  unfolding check_scope
  check_scope-kept out trace h = elim (Option-cases o.paths) [
    | inl unread ↦ simp (check_scope, unread) (measure_and_judge-kept out trace h)
    | inr (paths, there) ↦ elim (Option-cases (check file_match r.filter paths)) [
      | inl fine ↦
          simp (check_scope, there, fine, scope_passes) (measure_and_judge-kept out trace h)
      | inr (path, bad) ↦ simp (check_scope, there, bad, scope_passes) h
    ]
  ]

  abbrev diff_passes : Option String → Bool
  diff_passes none = false
  diff_passes (some d) = not (str_eq d "")

  inspect_diff-kept :
      (out : Outcome float.Carrier) (trace : List (Effect float.Carrier))
      → out.kept ≡ false
      → (inspect_diff float file_match exp_name r o p baseline out trace).outcome.kept
        ≡ (diff_passes o.diff && (scope_passes o.paths && measure_passes o.measure))
  unfolding inspect_diff
  inspect_diff-kept out trace h = elim (Option-cases o.diff) [
    | inl unread ↦ simp (inspect_diff, unread) h
    | inr (d, there) ↦ elim (Bool-cases (str_eq d "")) [
      | inl same ↦ simp (inspect_diff, there, same) h
      | inr changed ↦ simp (inspect_diff, there, changed) (check_scope-kept _ trace h)
    ]
  ]

  run-kept : (run float file_match exp_name r o p baseline).outcome.kept ≡ (
      o.creates
      && (succeeded o.agent
          && (diff_passes o.diff && (scope_passes o.paths && measure_passes o.measure))))
  unfolding run
  run-kept = elim (Bool-cases o.creates) [
    | inl made ↦ elim (Bool-cases (succeeded o.agent)) [
      | inl worked ↦ simp (run, made, worked) (inspect_diff-kept _ _ refl)
      | inr stopped ↦ simp (run, made, stopped) refl
    ]
    | inr unmade ↦ simp (run, unmade) refl
  ]

  measure_passes-IsPassed :
      (m : Option (Score float.Carrier))
      → o.measure ≡ m
      → (measure_passes m ≡ true) ↔ ((score : Score float.Carrier) × IsPassed score)
  measure_passes-IsPassed none same = (λ h. absurd (cc h), λ k. absurd (cc (same, k.1.scored)))
  measure_passes-IsPassed (some score) same = (
    λ h. (
      score,
      record {
        scored = same;
        judge_ok = ground (arith, h);
        verdict_ok = ok-verdict o.verdict (ground (arith, h));
        better = ground (arith, h);
        routed = ground (arith, h);
      },
    ),
    λ k.
        let q : IsPassed score = subst IsPassed (cc (same, k.1.scored)) k.1 in
        rw (q.judge_ok, q.verdict_ok, q.better, q.routed) refl,
  )

  diff_passes-IsChanged : (diff_passes o.diff ≡ true) ↔ IsChanged
  diff_passes-IsChanged = elim (Option-cases o.diff) [
    | inl unread ↦
        (λ h. absurd (ground (arith, h, unread)), λ (d, there, text). absurd (cc (unread, there)))
    | inr (d, there) ↦ (
      λ h. (d, there, ground (arith, h, there)),
      λ (d', there', text). ground (arith, there', text),
    )
  ]

  pub scope_passes-IsScoped : (scope_passes o.paths ≡ true) ↔ IsScoped
  scope_passes-IsScoped = elim (Option-cases o.paths) [
    | inl unread ↦ (λ h paths there. absurd (cc (unread, there)), λ k. ground (arith, unread))
    | inr (paths, there) ↦ elim (Option-cases (check file_match r.filter paths)) [
      | inl fine ↦ (
        λ h others read.
            let same : paths ≡ others = cc (there, read) in
            subst (All (IsInScope file_match r.filter)) same
              ((check-IsInScope file_match r.filter paths).0 fine),
        λ k. ground (arith, there, fine),
      )
      | inr (path, bad) ↦ (
        λ h. absurd (ground (arith, h, there, bad)),
        λ k. absurd (cc ((check-IsInScope file_match r.filter paths).1 (k paths there), bad)),
      )
    ]
  ]

  all-five :
      (a b c d e : Bool)
      → ((a && (b && (c && (d && e)))) ≡ true)
        ↔ ((a ≡ true) × (b ≡ true) × (c ≡ true) × (d ≡ true) × (e ≡ true))
  all-five a b c d e = ground arith

  -- An experiment is kept exactly if its worktree was made, the agent succeeded, the diff could be
  -- read and is not empty, the paths that it touched are in scope if they could be read, the metric
  -- gave a score, the judge passed it without an error, the score improves on the baseline, and the
  -- gate took it.
  pub run-IsKept : ((run float file_match exp_name r o p baseline).outcome.kept ≡ true) ↔ IsKept
  run-IsKept = (
    λ h.
        let (created, agent, diff, scope, passed) =
          (all-five o.creates (succeeded o.agent) (diff_passes o.diff) (scope_passes o.paths)
              (measure_passes o.measure)).0
            (sym run-kept ∙ h) in
        let (score, good) = (measure_passes-IsPassed o.measure refl).0 passed in
        record {
          created = created;
          agent_ok = succeeded-agent o.agent agent;
          changed = diff_passes-IsChanged.0 diff;
          scoped = scope_passes-IsScoped.0 scope;
          score = score;
          passed = good;
        },
    λ k.
        run-kept
        ∙ (all-five o.creates (succeeded o.agent) (diff_passes o.diff) (scope_passes o.paths)
              (measure_passes o.measure)).1
            (
              k.created,
              rw k.agent_ok refl,
              diff_passes-IsChanged.1 k.changed,
              scope_passes-IsScoped.1 k.scoped,
              (measure_passes-IsPassed o.measure refl).1 (k.score, k.passed),
            ),
  )
