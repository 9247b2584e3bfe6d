-- ===== src/Autoresearch/Runner/Account.antt =====
-- What a run does on its way, by what its collaborators returned: what the sampler learns, and when
-- the worktree is removed.
use vortex_dispatch.Autoresearch.{Float, Proposal}
use vortex_dispatch.Autoresearch.Runner.{Finish, Outside, Runner, agent_succeeded}
use vortex_dispatch.Autoresearch.Runner.Decided.{IsContender, IsDecided}
use vortex_dispatch.Autoresearch.Runner.Effects.{HasEffect}
use vortex_dispatch.Prelude.{Bool, List, String, [], false, none, true, ℕ, ◌∷◌, ◌≡◌, ◌≢◌, ◌⊎◌}

module _ (float : Float) (file_match : List ℕ → List ℕ → Bool) (exp_name : String → String)
    (r : Runner) (o : Outside float.Carrier) (p : Proposal) (baseline : float.Carrier) where
  -- The run by what its collaborators returned, where the cases exclude each other.
  abbrev pub IsAccounted : Finish float.Carrier → Type 0
  IsAccounted f =
      ((o.creates ≡ false) × HasEffect f [] false 0 0)
      ⊎ ((o.creates ≡ true) × (o.agent ≢ agent_succeeded) × HasEffect f (false ∷ []) true 1 0)
      ⊎ ((o.creates ≡ true)
          × (o.agent ≡ agent_succeeded)
          × (o.diff ≡ none)
          × HasEffect f [] false 1 0)
      ⊎ ((o.creates ≡ true)
          × (o.agent ≡ agent_succeeded)
          × (o.diff ≢ none)
          × IsDecided float file_match exp_name r o p baseline
              (IsContender float file_match exp_name r o p baseline) f)
