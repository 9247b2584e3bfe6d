-- ===== src/Autoresearch/Runner.antt =====
-- One experiment (internal/autoresearch/runner.go, Run). What the worktree, the agent, the metric,
-- the judge and the gate return is given; the trace lists what the runner asks of them, and the
-- events it emits. The times and the duration of the outcome are left out.
pub mod Kept
pub mod Effects
pub mod Account
pub mod Decided
use vortex_dispatch.Autoresearch.{
  ExperimentClass, Float, Proposal, Score, Verdict, improves, signed_delta, verdict_ok,
  verdict_rejected, verdict_suspicious,
}
use vortex_dispatch.Autoresearch.Filter.{PathFilter, check}
use vortex_dispatch.Autoresearch.Gate.{GateAction, GateCall, GateRouter, experiment_branch, route}
use vortex_dispatch.Prelude.{
  Bool, List, Option, String, [], false, if◌then◌else◌, none, not, some, str_eq, true, ℕ, ◌&&◌,
  ◌++◌, ◌∷◌,
}
use vortex_dispatch.State.Event.{
  EventType, experiment_discarded, experiment_failed, experiment_kept, experiment_measured,
  experiment_running, experiment_tripwired,
}

pub data Note : Type 0 where
  no_note : Note
  judged : String → Note
  out_of_scope : List ℕ → Note

-- `score` and `delta` are none until the metric has run.
pub record Outcome (F : Type 0) : Type 0 where
  pub proposal : Proposal
  pub diff : String
  pub diff_hash : String
  pub score : Option (Score F)
  pub baseline : F
  pub delta : Option F
  pub verdict : Option Verdict
  pub verdict_note : Note
  pub kept : Bool
  pub gate_action : Option GateAction
  pub branch_or_pr : String
  pub infra_caused : Bool
  pub fail_reason : String

pub data Effect (F : Type 0) : Type 0 where
  created_worktree removed_worktree : String → Effect F
  ran_agent : String → Effect F
  routed_by : List GateCall → Effect F
  emitted : EventType → Outcome F → String → Effect F
  updated : String → ExperimentClass → Bool → Effect F

-- The outcome, whether the error is nil, and the trace.
pub record Finish (F : Type 0) : Type 0 where
  pub outcome : Outcome F
  pub ok : Bool
  pub trace : List (Effect F)

-- What RunAgent returns: nil, the error of an agent that the budget or the context stopped, or that
-- of a session that could not be started (driver.go). The runner tells only nil from an error.
pub data AgentResult : Type 0 where
  agent_succeeded agent_stopped agent_not_started : AgentResult

abbrev pub succeeded : AgentResult → Bool
succeeded agent_succeeded = true
succeeded agent_stopped = false
succeeded agent_not_started = false

-- What the collaborators return. `paths` is none where they cannot be read.
pub record Outside (F : Type 0) : Type 0 where
  pub creates : Bool
  pub agent : AgentResult
  pub diff : Option String
  pub paths : Option (List (List ℕ))
  pub measure : Option (Score F)
  pub verdict : Verdict
  pub note : String
  pub judge_ok : Bool
  pub hash_diff : String → String

pub record Runner : Type 0 where
  pub filter : PathFilter
  pub router : GateRouter
  pub action : GateAction

abbrev pub is_ok : Verdict → Bool
is_ok verdict_ok = true
is_ok verdict_suspicious = false
is_ok verdict_rejected = false

module _ (float : Float) (file_match : List ℕ → List ℕ → Bool) (exp_name : String → String)
    (r : Runner) (o : Outside float.Carrier) (p : Proposal) (baseline : float.Carrier) where
  abbrev pub branch_of : String
  branch_of = exp_name p.id

  abbrev pub started : Outcome float.Carrier
  started = record {
    proposal = p;
    diff = "";
    diff_hash = "";
    score = none;
    baseline = baseline;
    delta = none;
    verdict = none;
    verdict_note = no_note;
    kept = false;
    gate_action = none;
    branch_or_pr = branch_of;
    infra_caused = false;
    fail_reason = "";
  }

  -- The event, the loss for the sampler, and the removal of the worktree.
  abbrev pub lose :
      EventType
      → String
      → Outcome float.Carrier
      → List (Effect float.Carrier)
      → Finish float.Carrier
  lose ty reason out trace = record {
    outcome = out;
    ok = true;
    trace =
        trace
        ++ emitted ty out reason ∷ updated p.repo p.class false ∷ removed_worktree branch_of ∷ [];
  }

  -- Steps 7 and 8: the improvement and the gate.
  unfoldable pub improve_and_route :
      Score float.Carrier
      → Outcome float.Carrier
      → List (Effect float.Carrier)
      → Finish float.Carrier
  improve_and_route score out trace =
      let gate = route r.router r.action true (experiment_branch exp_name branch_of p.id) in
      let broken = record out { infra_caused = true; fail_reason = "gate_route" } in
      let won = record out {
        kept = true;
        gate_action = some r.action;
        branch_or_pr = gate.target;
      } in
      if not (improves float score baseline)
      then lose experiment_discarded "no_improvement" out trace
      else (if gate.ok
          then record {
            outcome = won;
            ok = true;
            trace =
                trace
                ++ routed_by gate.calls
                  ∷ emitted experiment_kept won gate.target
                  ∷ updated p.repo p.class true
                  ∷ [];
          }
          else record {
            outcome = broken;
            ok = false;
            trace =
                trace ++ routed_by gate.calls ∷ emitted experiment_failed broken "gate_route" ∷ [];
          })

  abbrev pub measured : Score float.Carrier → Outcome float.Carrier → Outcome float.Carrier
  measured score out = record out {
    score = some score;
    delta = some (signed_delta float score baseline);
  }

  -- Steps 5 and 6: the metric and the tripwire.
  unfoldable pub measure_and_judge :
      Outcome float.Carrier → List (Effect float.Carrier) → Finish float.Carrier
  measure_and_judge out trace = elim o.measure [
    | none ↦
        lose experiment_discarded "metric_failed"
          (record out { fail_reason = "metric_failed"; verdict = some verdict_rejected }) trace
    | some score ↦
        let m = measured score out in
        let j = record m { verdict = some o.verdict; verdict_note = judged o.note } in
        let before =
          trace ++ emitted experiment_measured m "" ∷ emitted experiment_tripwired j o.note ∷ [] in
        let passed = improve_and_route score j before in
        if o.judge_ok && is_ok o.verdict
        then passed
        else lose experiment_discarded "tripwire" j before
  ]

  -- Step 4: the scope, where the paths can be read.
  unfoldable pub check_scope :
      Outcome float.Carrier → List (Effect float.Carrier) → Finish float.Carrier
  check_scope out trace = elim o.paths [
    | none ↦ measure_and_judge out trace
    | some paths ↦ elim (check file_match r.filter paths) [
      | none ↦ measure_and_judge out trace
      | some offending ↦
          lose experiment_tripwired "scope"
            (record out { verdict = some verdict_rejected; verdict_note = out_of_scope offending })
            trace
    ]
  ]

  -- Step 3: the diff.
  unfoldable pub inspect_diff :
      Outcome float.Carrier → List (Effect float.Carrier) → Finish float.Carrier
  inspect_diff out trace = elim o.diff [
    | none ↦
        let failed = record out {
          infra_caused = true;
          fail_reason = "diff_read";
          verdict = some verdict_rejected;
        } in
        record {
          outcome = failed;
          ok = false;
          trace = trace ++ emitted experiment_failed failed "" ∷ removed_worktree branch_of ∷ [];
        }
    | some diff ↦
        let changed =
          check_scope (record out { diff = diff; diff_hash = o.hash_diff diff }) trace in
        if str_eq diff ""
        then lose experiment_discarded "no_diff"
            (record out { fail_reason = "no_diff"; verdict = some verdict_rejected }) trace
        else changed
  ]

  unfoldable pub run : Finish float.Carrier
  run =
      let failed = record started {
        infra_caused = true;
        fail_reason = "worktree_create";
        verdict = some verdict_rejected;
      } in
      let made =
        created_worktree branch_of
        ∷ emitted experiment_running started ""
        ∷ ran_agent branch_of
        ∷ [] in
      if not o.creates
      then record { outcome = failed; ok = false; trace = emitted experiment_failed failed "" ∷ [] }
      else (if not (succeeded o.agent)
          then lose experiment_discarded "timeout"
              (record started {
                fail_reason = "timeout_or_agent_error";
                verdict = some verdict_rejected;
              })
              made
          else inspect_diff started made)
