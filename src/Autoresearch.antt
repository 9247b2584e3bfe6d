-- ===== src/Autoresearch.antt =====
-- The experiments that the program runs on a repository (internal/autoresearch): the records of
-- types.go. The scores are float64 in the code, and a type with its comparison and its difference
-- here.
mod Tests
pub mod Filter
pub mod Gate
pub mod Runner
use vortex_dispatch.Prelude.{Bool, String, [], false, has, if◌then◌else◌, not, ◌∷◌}

pub data ExperimentClass : Type 0 where
  class_refactor class_perf class_test class_simplify class_feature class_other : ExperimentClass

pub data Verdict : Type 0 where
  verdict_ok verdict_suspicious verdict_rejected : Verdict

-- What the runner reads of a proposal: the hashes for the record are left out.
pub record Proposal : Type 0 where
  pub id : String
  pub repo : String
  pub class : ExperimentClass
  pub prompt : String

pub record Float : Type 1 where
  pub Carrier : Type 0
  pub lt : Carrier → Carrier → Bool
  pub minus : Carrier → Carrier → Carrier

-- The raw value, the nudge of a tie and the output are left out.
pub record Score (F : Type 0) : Type 0 where
  pub final : F
  pub lower_is_better : Bool

module _ (float : Float) where
  abbrev pub improves : Score float.Carrier → float.Carrier → Bool
  improves s baseline =
      if s.lower_is_better then float.lt s.final baseline else float.lt baseline s.final

  abbrev pub signed_delta : Score float.Carrier → float.Carrier → float.Carrier
  signed_delta s baseline =
      if s.lower_is_better then float.minus baseline s.final else float.minus s.final baseline

abbrev pub is_agent_caused_failure : String → Bool → Bool
is_agent_caused_failure reason infra_caused =
    if infra_caused
    then false
    else not (has reason ("infra" ∷ "worktree_create" ∷ "tmux_start" ∷ "provider_outage" ∷ []))
