-- ===== src/Autoresearch/Gate.antt =====
-- How a kept experiment is routed (internal/autoresearch/gate.go). GateOps is the interface to git
-- and GitHub: here what each of its operations returns. The trace lists the calls.
pub mod Merged
use vortex_dispatch.Prelude.{
  Bool, List, Option, String, [], false, if◌then◌else◌, none, some, str_eq, true, ◌++◌, ◌∷◌,
}

pub record GateOps : Type 0 where
  pub branch_exists : String → Bool
  pub create_branch : String → Bool
  pub push_branch : String → Bool
  pub create_pr : String → String → Option String
  pub merge_pr : String → Bool
  pub fast_forward_winning : String → String → Bool

pub data GateAction : Type 0 where
  gate_auto gate_winning gate_pr : GateAction
  unknown_action : String → GateAction

pub data GateCall : Type 0 where
  created_branch : String → GateCall
  pushed : String → GateCall
  opened_pr : String → String → GateCall
  merged_pr : String → GateCall
  fast_forwarded : String → String → GateCall

-- The text that Route returns, whether there is no error, and the calls.
pub record Routed : Type 0 where
  pub target : String
  pub ok : Bool
  pub calls : List GateCall

pub record GateRouter : Type 0 where
  pub base_branch : String
  pub winning_branch : String
  pub ops : GateOps

abbrev pub new_gate_router : String → GateOps → GateRouter
new_gate_router base ops = record {
  base_branch = base;
  winning_branch = "autoresearch/winning";
  ops = ops;
}

-- The branch of an outcome, by its BranchOrPR and the id of its proposal.
abbrev pub experiment_branch : (String → String) → String → String → String
experiment_branch exp_name branch_or_pr id =
    if str_eq branch_or_pr "" then exp_name id else branch_or_pr

module _ (r : GateRouter) where
  abbrev forward : List GateCall → String → Routed
  forward calls src =
      if r.ops.fast_forward_winning src r.winning_branch
      then record {
        target = r.winning_branch;
        ok = true;
        calls = calls ++ fast_forwarded src r.winning_branch ∷ [];
      }
      else record {
        target = "";
        ok = false;
        calls = calls ++ fast_forwarded src r.winning_branch ∷ [];
      }

  unfoldable pub route_winning : String → Routed
  route_winning src =
      if r.ops.branch_exists r.winning_branch
      then forward [] src
      else (if r.ops.create_branch r.winning_branch
          then forward (created_branch r.winning_branch ∷ []) src
          else record { target = ""; ok = false; calls = created_branch r.winning_branch ∷ [] })

  unfoldable pub route_pr : String → Routed
  route_pr src =
      if r.ops.push_branch src
      then (elim (r.ops.create_pr r.base_branch src) [
        | none ↦ record {
          target = "";
          ok = false;
          calls = pushed src ∷ opened_pr r.base_branch src ∷ [];
        }
        | some url ↦ record {
          target = url;
          ok = true;
          calls = pushed src ∷ opened_pr r.base_branch src ∷ [];
        }
      ])
      else record { target = ""; ok = false; calls = pushed src ∷ [] }

  unfoldable pub route_auto : String → Routed
  route_auto src =
      let pr = route_pr src in
      if pr.ok
      then record {
        target = pr.target;
        ok = r.ops.merge_pr pr.target;
        calls = pr.calls ++ merged_pr pr.target ∷ [];
      }
      else record { target = ""; ok = false; calls = pr.calls }

  unfoldable pub route : GateAction → Bool → String → Routed
  route action kept src =
      let routed : Routed = elim action [
        | gate_auto ↦ route_auto src
        | gate_winning ↦ route_winning src
        | gate_pr ↦ route_pr src
        | unknown_action name ↦ record { target = ""; ok = false; calls = [] }
      ] in
      if kept then routed else record { target = ""; ok = false; calls = [] }
