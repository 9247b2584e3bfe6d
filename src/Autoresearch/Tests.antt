-- ===== src/Autoresearch/Tests.antt =====
-- Runs of one experiment, and the theorems on them.
use vortex_dispatch.Autoresearch.{Float, Proposal, class_perf, verdict_ok}
use vortex_dispatch.Autoresearch.Filter.{
  PathFilter, byte_eq, check, match_any, match_doublestar, match_fuel,
}
use vortex_dispatch.Autoresearch.Filter.Under.{IsInScope, check-IsInScope, match_doublestar-below}
use vortex_dispatch.Autoresearch.Gate.{
  GateOps, gate_auto, new_gate_router, route, route_auto, route_pr, route_winning,
}
use vortex_dispatch.Autoresearch.Gate.Merged.{merges, route-merges}
use vortex_dispatch.Autoresearch.Runner.{
  Finish, Outside, Runner, agent_not_started, agent_succeeded, check_scope, improve_and_route,
  inspect_diff, measure_and_judge, run,
}
use vortex_dispatch.Autoresearch.Runner.Effects.{updates}
use vortex_dispatch.Autoresearch.Runner.Kept.{IsKept, run-IsKept}
use vortex_dispatch.Prelude.{
  All, Bool, List, Option, String, [], false, ltb, none, refl, some, true, ℕ, ◌-◌, ◌↔◌, ◌∷◌, ◌≡◌,
  ◌⊎◌,
}

abbrev points : Float
points = record { Carrier = ℕ; lt = ltb; minus = λ a b. a - b }

abbrev equal_match : List ℕ → List ℕ → Bool
equal_match pat path = byte_eq pat path

-- Files below "a" are allowed, and "a/b" is denied.
abbrev scope : PathFilter
scope = record { allow = (97 ∷ 47 ∷ 42 ∷ 42 ∷ []) ∷ []; deny = (97 ∷ 47 ∷ 98 ∷ []) ∷ [] }

abbrev git : GateOps
git = record {
  branch_exists = λ b. false;
  create_branch = λ b. true;
  push_branch = λ b. true;
  create_pr = λ base src. some "pull/7";
  merge_pr = λ url. true;
  fast_forward_winning = λ src b. true;
}

abbrev runner : Runner
runner = record { filter = scope; router = new_gate_router "main" git; action = gate_auto }

abbrev proposal : Proposal
proposal = record { id = "x"; repo = "r"; class = class_perf; prompt = "" }

abbrev touching : Option (List (List ℕ)) → Outside ℕ
touching paths = record {
  creates = true;
  agent = agent_succeeded;
  diff = some "d";
  paths = paths;
  measure = some (record { final = 5; lower_is_better = false });
  verdict = verdict_ok;
  note = "";
  judge_ok = true;
  hash_diff = λ d. d;
}

abbrev run_on : Option (List (List ℕ)) → Finish ℕ
run_on paths = run points equal_match (λ id. id) runner (touching paths) proposal 4

program : Unit {0}
unfolding run inspect_diff check_scope measure_and_judge improve_and_route route route_auto route_pr
    route_winning check match_any match_doublestar match_fuel
program = tt

allowed_kept : (run_on (some ((97 ∷ 47 ∷ 99 ∷ []) ∷ []))).outcome.kept ≡ true
unfolding program
allowed_kept = refl

denied_dropped : (run_on (some ((97 ∷ 47 ∷ 98 ∷ []) ∷ []))).outcome.kept ≡ false
unfolding program
denied_dropped = refl

-- Where the paths cannot be read, no scope is checked.
unread_kept : (run_on none).outcome.kept ≡ true
unfolding program
unread_kept = refl

-- The pattern **/b matches ab, since the tails of a path start at any byte.
tail_within_segment : match_doublestar equal_match (42 ∷ 42 ∷ 47 ∷ 98 ∷ []) (97 ∷ 98 ∷ []) ≡ true
unfolding program
tail_within_segment = refl

run-IsKept_example :
    ((run_on none).outcome.kept ≡ true)
    ↔ IsKept points equal_match (λ id. id) runner (touching none) proposal 4
run-IsKept_example = run-IsKept points equal_match (λ id. id) runner (touching none) proposal 4

-- A session that cannot be started is a loss for the sampler, like an agent that times out.
unstarted_is_loss :
    updates
      (run points equal_match
        (λ id. id)
        runner
        (record (touching none) { agent = agent_not_started })
        proposal
        4).trace
    ≡ false ∷ []
unfolding program
unstarted_is_loss = refl

route-merges_example :
    (merges (route runner.router gate_auto true "b").calls ≡ [])
    ⊎ ((url : String) × (merges (route runner.router gate_auto true "b").calls ≡ url ∷ [])
        × (gate_auto ≡ gate_auto)
        × (true ≡ true)
        × (git.push_branch "b" ≡ true)
        × (git.create_pr "main" "b" ≡ some url))
route-merges_example = route-merges runner.router "b" gate_auto true

check-IsInScope_example :
    (check equal_match scope ((97 ∷ 47 ∷ 99 ∷ []) ∷ []) ≡ none)
    ↔ All (IsInScope equal_match scope) ((97 ∷ 47 ∷ 99 ∷ []) ∷ [])
check-IsInScope_example = check-IsInScope equal_match scope ((97 ∷ 47 ∷ 99 ∷ []) ∷ [])

match_doublestar-below_example :
    match_doublestar equal_match (97 ∷ 47 ∷ 42 ∷ 42 ∷ []) (97 ∷ 47 ∷ 99 ∷ []) ≡ true
match_doublestar-below_example = match_doublestar-below equal_match [] 97 (97 ∷ 47 ∷ 99 ∷ []) refl
