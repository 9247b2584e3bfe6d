-- ===== src/Autoresearch/Runner/Effects.antt =====
-- The trace of a run, by what it does to the sampler, the worktree and the gate.
use vortex_dispatch.Autoresearch.Runner.{
  Effect, Finish, Outcome, created_worktree, emitted, ran_agent, removed_worktree, routed_by,
  updated,
}
use vortex_dispatch.Prelude.{Bool, List, [], ap, ap₂, arith, refl, ℕ, ◌++◌, ◌+◌, ◌∙◌, ◌∷◌, ◌≡◌}

module _ {F : Type 0} where
  abbrev pub updates : List (Effect F) → List Bool
  updates [] = []
  updates (updated repo class kept ∷ es) = kept ∷ updates es
  updates (_ ∷ es) = updates es

  abbrev pub removals : List (Effect F) → ℕ
  removals [] = 0
  removals (removed_worktree branch ∷ es) = 1 + removals es
  removals (_ ∷ es) = removals es

  -- The gate was asked: how many times.
  abbrev pub routings : List (Effect F) → ℕ
  routings [] = 0
  routings (routed_by calls ∷ es) = 1 + routings es
  routings (_ ∷ es) = routings es

  updates-append : (es fs : List (Effect F)) → updates (es ++ fs) ≡ updates es ++ updates fs
  updates-append [] fs = refl
  updates-append (created_worktree branch ∷ es) fs = updates-append es fs
  updates-append (removed_worktree branch ∷ es) fs = updates-append es fs
  updates-append (ran_agent branch ∷ es) fs = updates-append es fs
  updates-append (routed_by calls ∷ es) fs = updates-append es fs
  updates-append (emitted ty out reason ∷ es) fs = updates-append es fs
  updates-append (updated repo class kept ∷ es) fs = ap (λ bs. kept ∷ bs) (updates-append es fs)

  removals-append : (es fs : List (Effect F)) → removals (es ++ fs) ≡ removals es + removals fs
  removals-append [] fs = omega arith
  removals-append (created_worktree branch ∷ es) fs = removals-append es fs
  removals-append (removed_worktree branch ∷ es) fs = omega (arith, removals-append es fs)
  removals-append (ran_agent branch ∷ es) fs = removals-append es fs
  removals-append (routed_by calls ∷ es) fs = removals-append es fs
  removals-append (emitted ty out reason ∷ es) fs = removals-append es fs
  removals-append (updated repo class kept ∷ es) fs = removals-append es fs

  routings-append : (es fs : List (Effect F)) → routings (es ++ fs) ≡ routings es + routings fs
  routings-append [] fs = omega arith
  routings-append (created_worktree branch ∷ es) fs = routings-append es fs
  routings-append (removed_worktree branch ∷ es) fs = routings-append es fs
  routings-append (ran_agent branch ∷ es) fs = routings-append es fs
  routings-append (routed_by calls ∷ es) fs = omega (arith, routings-append es fs)
  routings-append (emitted ty out reason ∷ es) fs = routings-append es fs
  routings-append (updated repo class kept ∷ es) fs = routings-append es fs

  -- The sampler is told this, the error is nil or not, and the worktree is removed and the gate is
  -- asked so many times.
  pub record HasEffect (f : Finish F) (told : List Bool) (is_fine : Bool) (removed asked : ℕ)
      : Type 0 where
    pub learned : updates f.trace ≡ told
    pub error_free : f.ok ≡ is_fine
    pub cleaned : removals f.trace ≡ removed
    pub routed : routings f.trace ≡ asked

  -- Nothing of these has happened yet.
  pub record IsQuiet (trace : List (Effect F)) : Type 0 where
    pub not_updated : updates trace ≡ []
    pub not_removed : removals trace ≡ 0
    pub not_routed : routings trace ≡ 0

  pub append-HasEffect :
      (out : Outcome F) (is_fine : Bool) (trace fs : List (Effect F))
      → IsQuiet trace
      → HasEffect
          (record { outcome = out; ok = is_fine; trace = trace ++ fs })
          (updates fs)
          is_fine
          (removals fs)
          (routings fs)
  append-HasEffect out is_fine trace fs q = record {
    learned = updates-append trace fs ∙ ap (λ bs. bs ++ updates fs) q.not_updated;
    error_free = refl;
    cleaned = omega (arith, removals-append trace fs, q.not_removed);
    routed = omega (arith, routings-append trace fs, q.not_routed);
  }

  pub append-IsQuiet :
      (trace fs : List (Effect F)) → IsQuiet trace → IsQuiet fs → IsQuiet (trace ++ fs)
  append-IsQuiet trace fs q t = record {
    not_updated = updates-append trace fs ∙ ap₂ (λ bs cs. bs ++ cs) q.not_updated t.not_updated;
    not_removed = omega (arith, removals-append trace fs, q.not_removed, t.not_removed);
    not_routed = omega (arith, routings-append trace fs, q.not_routed, t.not_routed);
  }
