-- ===== src/Autoresearch/Runner/Decided.antt =====
-- What each stage of a run does on its way, by what the collaborators returned.
use vortex_dispatch.Autoresearch.{Float, Proposal, Score, improves, verdict_ok}
use vortex_dispatch.Autoresearch.Filter.{check}
use vortex_dispatch.Autoresearch.Filter.Under.{IsInScope, check-IsInScope}
use vortex_dispatch.Autoresearch.Runner.{
  Effect, Finish, Outcome, Outside, Runner, check_scope, emitted, improve_and_route, inspect_diff,
  is_ok, lose, measure_and_judge,
}
use vortex_dispatch.Autoresearch.Runner.Effects.{
  HasEffect, IsQuiet, append-HasEffect, append-IsQuiet,
}
use vortex_dispatch.Autoresearch.Runner.Kept.{IsChanged, IsScoped, gate_ok, ok-verdict}
use vortex_dispatch.Prelude.{
  All, Bool, Bool-cases, List, Option-cases, String, [], ap, arith, false, inl, inr, none, refl,
  some, str_eq, subst, true, ℕ, ◌&&◌, ◌∷◌, ◌≡◌, ◌⊎◌,
}
use vortex_dispatch.State.Event.{EventType}

module _ (float : Float) (file_match : List ℕ → List ℕ → Bool) (exp_name : String → String)
    (r : Runner) (o : Outside float.Carrier) (p : Proposal) (baseline : float.Carrier) where
  -- The score is there, the judge passed it, and it improves on the baseline.
  abbrev pub IsBetter : Type 0
  IsBetter =
      (score : Score float.Carrier) × (o.measure ≡ some score)
      × (o.judge_ok ≡ true)
      × (o.verdict ≡ verdict_ok)
      × (improves float score baseline ≡ true)

  abbrev pub gate_takes : Bool
  gate_takes = gate_ok float file_match exp_name r o p baseline

  -- Where the contender reaches the gate, the gate's answer decides; else the experiment is lost.
  abbrev pub IsDecided : Type 0 → Finish float.Carrier → Type 0
  IsDecided Reached f =
      (Reached × (gate_takes ≡ true) × HasEffect f (true ∷ []) true 0 1)
      ⊎ (Reached × (gate_takes ≡ false) × HasEffect f [] false 0 1)
      ⊎ ((¬ Reached) × HasEffect f (false ∷ []) true 1 0)

  IsDecided-map :
      {A B : Type 0} (f : Finish float.Carrier) → (A → B) → (B → A) → IsDecided A f → IsDecided B f
  IsDecided-map f to from (inl (a, g, h)) = inl (to a, g, h)
  IsDecided-map f to from (inr (inl (a, g, h))) = inr (inl (to a, g, h))
  IsDecided-map f to from (inr (inr (n, h))) = inr (inr (λ b. n (from b), h))

  lose-IsDecided :
      {A : Type 0} (ty : EventType) (reason : String) (out : Outcome float.Carrier)
      (trace : List (Effect float.Carrier))
      → ¬ A
      → IsQuiet trace
      → IsDecided A (lose float file_match exp_name r o p baseline ty reason out trace)
  lose-IsDecided ty reason out trace n q = inr (inr (n, append-HasEffect out true trace _ q))

  improve_and_route-IsDecided :
      (score : Score float.Carrier) (out : Outcome float.Carrier)
      (trace : List (Effect float.Carrier))
      → IsQuiet trace
      → IsDecided
          (improves float score baseline ≡ true)
          (improve_and_route float file_match exp_name r o p baseline score out trace)
  unfolding improve_and_route
  improve_and_route-IsDecided score out trace q =
      elim (Bool-cases (improves float score baseline)) [
        | inl better ↦ elim (Bool-cases gate_takes) [
          | inl good ↦ inl (
            better,
            good,
            simp (improve_and_route, better, good) (append-HasEffect _ true trace _ q),
          )
          | inr bad ↦ inr (
              inl (
                better,
                bad,
                simp (improve_and_route, better, bad) (append-HasEffect _ false trace _ q),
              ))
        ]
        | inr worse ↦ inr (
            inr (
              λ h. cc (h, worse),
              simp (improve_and_route, worse) (append-HasEffect _ true trace _ q),
            ))
      ]

  measure_and_judge-IsDecided :
      (out : Outcome float.Carrier) (trace : List (Effect float.Carrier))
      → IsQuiet trace
      → IsDecided IsBetter (measure_and_judge float file_match exp_name r o p baseline out trace)
  unfolding measure_and_judge
  measure_and_judge-IsDecided out trace q = elim (Option-cases o.measure) [
    | inl unmeasured ↦
        simp (measure_and_judge, unmeasured)
          (lose-IsDecided _ _ _ trace (λ (score, there, passed, fine, better). cc there) q)
    | inr (score, there) ↦ elim (Bool-cases (o.judge_ok && is_ok o.verdict)) [
      | inl allowed ↦
          simp (measure_and_judge, there, allowed)
            (IsDecided-map _
              (λ better. (
                score,
                refl,
                ground (arith, allowed),
                ok-verdict o.verdict (ground (arith, allowed)),
                better,
              ))
              (λ (s, found, passed, fine, better).
                let same : s ≡ score = cc found in
                subst (λ s. improves float s baseline ≡ true) same better)
              (improve_and_route-IsDecided score _ _ (append-IsQuiet trace _ q quiet_events)))
      | inr declined ↦
          simp (measure_and_judge, there, declined)
            (lose-IsDecided _ _ _ _
              (λ (s, found, passed, fine, better). ground (arith, declined, passed, ap is_ok fine))
              (append-IsQuiet trace _ q quiet_events))
    ]
  ]
    where
      quiet_events :
          {ty tz : EventType} {a b : Outcome float.Carrier} {c d : String}
          → IsQuiet (emitted ty a c ∷ emitted tz b d ∷ [])
      quiet_events = record { not_updated = refl; not_removed = refl; not_routed = refl }

  abbrev InScope : Type 0
  InScope = IsScoped float file_match exp_name r o p baseline

  -- What the experiment needs to reach the gate.
  abbrev pub IsContender : Type 0
  IsContender = IsChanged float file_match exp_name r o p baseline × InScope × IsBetter

  check_scope-IsDecided :
      (out : Outcome float.Carrier) (trace : List (Effect float.Carrier))
      → IsQuiet trace
      → IsDecided
          (InScope × IsBetter)
          (check_scope float file_match exp_name r o p baseline out trace)
  unfolding check_scope
  check_scope-IsDecided out trace q = elim (Option-cases o.paths) [
    | inl unread ↦
        simp (check_scope, unread)
          (IsDecided-map _ (λ b. (λ paths there. absurd (cc (unread, there)), b)) (λ s. s.1)
            (measure_and_judge-IsDecided out trace q))
    | inr (paths, there) ↦ elim (Option-cases (check file_match r.filter paths)) [
      | inl fine ↦
          simp (check_scope, there, fine)
            (IsDecided-map _
              (λ b. (
                λ others read.
                    subst (All (IsInScope file_match r.filter)) (cc (there, read))
                      ((check-IsInScope file_match r.filter paths).0 fine),
                b,
              ))
              (λ s. s.1) (measure_and_judge-IsDecided out trace q))
      | inr (path, bad) ↦
          simp (check_scope, there, bad)
            (lose-IsDecided _ _ _ trace
              (λ s. cc ((check-IsInScope file_match r.filter paths).1 (s.0 paths refl), bad)) q)
    ]
  ]

  pub inspect_diff-IsDecided :
      (d : String) (out : Outcome float.Carrier) (trace : List (Effect float.Carrier))
      → o.diff ≡ some d
      → IsQuiet trace
      → IsDecided IsContender (inspect_diff float file_match exp_name r o p baseline out trace)
  unfolding inspect_diff
  inspect_diff-IsDecided d out trace there q = elim (Bool-cases (str_eq d "")) [
    | inl same ↦
        simp (inspect_diff, there, same)
          (lose-IsDecided _ _ _ trace
            (λ ((e, found, text), scoped, better).
              let is_d : d ≡ e = cc found in cc (ap (λ s. str_eq s "") is_d, text, same))
            q)
    | inr changed ↦
        simp (inspect_diff, there, changed)
          (IsDecided-map _ (λ (sc, be). ((d, refl, changed), sc, be)) (λ (ch, sc, be). (sc, be))
            (check_scope-IsDecided _ trace q))
  ]

  pub inspect_diff-unread :
      (out : Outcome float.Carrier) (trace : List (Effect float.Carrier))
      → o.diff ≡ none
      → IsQuiet trace
      → HasEffect (inspect_diff float file_match exp_name r o p baseline out trace) [] false 1 0
  unfolding inspect_diff
  inspect_diff-unread out trace unread q =
      simp (inspect_diff, unread) (append-HasEffect _ false trace _ q)
