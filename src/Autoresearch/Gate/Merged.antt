-- ===== src/Autoresearch/Gate/Merged.antt =====
-- What the gate merges.
use vortex_dispatch.Autoresearch.Gate.{
  GateAction, GateCall, GateRouter, created_branch, fast_forwarded, gate_auto, gate_pr,
  gate_winning, merged_pr, opened_pr, pushed, route, route_auto, route_pr, route_winning,
  unknown_action,
}
use vortex_dispatch.Prelude.{
  Bool, Bool-cases, List, Option-cases, String, [], ap, arith, false, if◌then◌else◌, inl, inr, refl,
  some, true, ◌++◌, ◌∙◌, ◌∷◌, ◌≡◌, ◌⊎◌,
}

abbrev pub merges : List GateCall → List String
merges [] = []
merges (merged_pr url ∷ cs) = url ∷ merges cs
merges (_ ∷ cs) = merges cs

module _ (r : GateRouter) (src : String) where
  route_pr-merges : merges (route_pr r src).calls ≡ []
  unfolding route_pr
  route_pr-merges = elim (Bool-cases (r.ops.push_branch src)) [
    | inl pushed_it ↦ elim (Option-cases (r.ops.create_pr r.base_branch src)) [
      | inl no_pr ↦ simp (route_pr, pushed_it, no_pr) refl
      | inr (url, there) ↦ simp (route_pr, pushed_it, there) refl
    ]
    | inr unpushed ↦ simp (route_pr, unpushed) refl
  ]

  route_pr-ok :
      (route_pr r src).ok ≡ true
      → (r.ops.push_branch src ≡ true)
        × (r.ops.create_pr r.base_branch src ≡ some (route_pr r src).target)
  unfolding route_pr
  route_pr-ok h = elim (Bool-cases (r.ops.push_branch src)) [
    | inl pushed_it ↦ elim (Option-cases (r.ops.create_pr r.base_branch src)) [
      | inl no_pr ↦ absurd (ground (arith, h, pushed_it, no_pr))
      | inr (url, there) ↦ (pushed_it, simp (route_pr, pushed_it, there) refl)
    ]
    | inr unpushed ↦ absurd (ground (arith, h, unpushed))
  ]

  route_winning-merges : merges (route_winning r src).calls ≡ []
  unfolding route_winning
  route_winning-merges = elim (Bool-cases (r.ops.branch_exists r.winning_branch)) [
    | inl there ↦ elim (Bool-cases (r.ops.fast_forward_winning src r.winning_branch)) [
      | inl forwarded ↦ simp (route_winning, there, forwarded) refl
      | inr behind ↦ simp (route_winning, there, behind) refl
    ]
    | inr absent ↦ elim (Bool-cases (r.ops.create_branch r.winning_branch)) [
      | inl made ↦ elim (Bool-cases (r.ops.fast_forward_winning src r.winning_branch)) [
        | inl forwarded ↦ simp (route_winning, absent, made, forwarded) refl
        | inr behind ↦ simp (route_winning, absent, made, behind) refl
      ]
      | inr unmade ↦ simp (route_winning, absent, unmade) refl
    ]
  ]

  merges-append : (cs ds : List GateCall) → merges (cs ++ ds) ≡ merges cs ++ merges ds
  merges-append [] ds = refl
  merges-append (created_branch b ∷ cs) ds = merges-append cs ds
  merges-append (pushed b ∷ cs) ds = merges-append cs ds
  merges-append (opened_pr b s ∷ cs) ds = merges-append cs ds
  merges-append (fast_forwarded b s ∷ cs) ds = merges-append cs ds
  merges-append (merged_pr u ∷ cs) ds = ap (λ us. u ∷ us) (merges-append cs ds)

  route_auto-merges :
      merges (route_auto r src).calls
      ≡ (if (route_pr r src).ok then (route_pr r src).target ∷ [] else [])
  unfolding route_auto
  route_auto-merges = elim (Bool-cases (route_pr r src).ok) [
    | inl opened ↦
        simp (route_auto, opened)
          (merges-append (route_pr r src).calls _
            ∙ ap (λ us. us ++ (route_pr r src).target ∷ []) route_pr-merges)
    | inr unopened ↦ simp (route_auto, unopened) route_pr-merges
  ]

  -- Route merges nothing, or one pull request: then the action is auto, the outcome was kept, its
  -- branch was pushed, and the request was opened from it to the base branch.
  pub route-merges :
      (action : GateAction) (kept : Bool)
      → (merges (route r action kept src).calls ≡ [])
        ⊎ ((url : String) × (merges (route r action kept src).calls ≡ url ∷ [])
            × (action ≡ gate_auto)
            × (kept ≡ true)
            × (r.ops.push_branch src ≡ true)
            × (r.ops.create_pr r.base_branch src ≡ some url))
  unfolding route
  route-merges action false = inl refl
  route-merges gate_winning true = inl route_winning-merges
  route-merges gate_pr true = inl route_pr-merges
  route-merges (unknown_action name) true = inl refl
  route-merges gate_auto true = elim (Bool-cases (route_pr r src).ok) [
    | inl opened ↦
        let (out, made) = route_pr-ok opened in
        inr (
          (route_pr r src).target,
          route_auto-merges ∙ ap (λ b. if b then (route_pr r src).target ∷ [] else []) opened,
          refl,
          refl,
          out,
          made,
        )
    | inr unopened ↦
        inl (route_auto-merges ∙ ap (λ b. if b then (route_pr r src).target ∷ [] else []) unopened)
  ]
