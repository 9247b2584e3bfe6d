-- ===== src/Engine/Dispatch/Result.antt =====
-- The theorems on the choice of a wave.
use vortex_dispatch.Engine.Dispatch.{
  PlannedStory, auto_tag_wave_hint, cap, check_ids, choose_wave, chosen, collect_ready,
  select_dispatchable,
}
use vortex_dispatch.Engine.Dispatch.Chosen.{
  IsStartable, IsWave, collect_ready-IsStartable, select_dispatchable-All,
  select_dispatchable-IsApart, select_dispatchable-alone,
}
use vortex_dispatch.Engine.Dispatch.Wave.{IsApart-take}
use vortex_dispatch.Graph.{Dag, ready_nodes}
use vortex_dispatch.Prelude.{
  All, All-take, Bool, Bool-cases, List, String, [], arith, inl, inr, length, length-take-le, ltb,
  map, str_eq, subst, sym, true, ℕ, ◌&&◌, ◌∷◌, ◌≡◌,
}
use vortex_dispatch.State.Store.{Store}

module _ (path_match : String → String → Bool) (base : String → String) (is_safe_id : String → Bool)
    (patterns : List String) where
  abbrev pub tag : PlannedStory → PlannedStory
  tag = auto_tag_wave_hint path_match base is_safe_id patterns

  tag-id : (s : PlannedStory) → (tag s).id ≡ s.id
  unfolding auto_tag_wave_hint
  tag-id s = elim (Bool-cases (str_eq s.wave_hint "")) [ inl y ↦ rw y | inr n ↦ rw n ]

  tag-All :
      (projection : Store) (ids : List String) (ss : List PlannedStory)
      → All (IsStartable projection ids) ss
      → All (IsStartable projection ids) (map tag ss)
  tag-All projection ids [] h = tt
  tag-All projection ids (s ∷ ss) h = (rw (tag-id s) h.0, tag-All projection ids ss h.1)

  pub check_ids-chosen :
      (limit : ℕ) (ready ss wave : List PlannedStory)
      → check_ids path_match base is_safe_id patterns limit ready ss ≡ chosen wave
      → (wave ≡ cap limit (select_dispatchable ready)) × All (λ s. is_safe_id s.id ≡ true) ss
  unfolding check_ids
  check_ids-chosen limit ready [] wave h = (cc h, tt)
  check_ids-chosen limit ready (s ∷ ss) wave h = elim (Bool-cases (is_safe_id s.id)) [
    | inl y ↦
        let others = check_ids-chosen limit ready ss wave (ground (arith, h, y)) in
        (others.0, (y, others.1))
    | inr n ↦ absurd (ground (arith, h, n))
  ]

  cap-IsWave :
      (limit : ℕ) (projection : Store) (ids : List String) (ss : List PlannedStory)
      → IsWave 0 projection ids is_safe_id ss
      → IsWave limit projection ids is_safe_id (cap limit ss)
  cap-IsWave limit projection ids ss w = elim (Bool-cases (ltb 0 limit && ltb limit (length ss))) [
    | inl y ↦ rw y (record {
      apart = IsApart-take limit ss w.apart;
      alone = elim w.alone [
        | inl a ↦ inl (All-take _ limit ss a)
        | inr b ↦ inr (ground (arith, y, b))
      ];
      startable = All-take _ limit ss w.startable;
      safe = All-take _ limit ss w.safe;
      within_limit = λ p. length-take-le limit ss;
    })
    | inr n ↦ rw n (record {
      apart = w.apart;
      alone = w.alone;
      startable = w.startable;
      safe = w.safe;
      within_limit = λ p. ground (arith, n, p);
    })
  ]

  -- Whatever the projection, the graph and the plan are: if DispatchWave chooses a wave, then no
  -- two of its stories own a common file, a sequential story is alone, every story is ready in the
  -- graph and not started according to the projection, its id is safe, and there are no more
  -- stories than the limit on agents.
  pub choose_wave-IsWave :
      (limit : ℕ) (projection : Store) (dag : Dag) (finished : List String)
      (stories wave : List PlannedStory)
      → choose_wave path_match base is_safe_id patterns limit projection dag finished stories
        ≡ chosen wave
      → IsWave limit projection (ready_nodes dag finished) is_safe_id wave
  unfolding choose_wave
  choose_wave-IsWave limit projection dag finished stories wave h =
      let ids = ready_nodes dag finished in
      let ready = map tag (collect_ready projection stories ids) in
      let checked = check_ids-chosen limit ready ready wave h in
      let startable = tag-All projection ids _ (collect_ready-IsStartable projection stories ids) in
      subst (IsWave limit projection ids is_safe_id) (sym checked.0) (
        cap-IsWave limit projection ids (select_dispatchable ready) (record {
          apart = select_dispatchable-IsApart ready;
          alone = select_dispatchable-alone ready;
          startable = select_dispatchable-All _ ready startable;
          safe = select_dispatchable-All _ ready checked.1;
          within_limit = λ p. absurd (omega arith);
        }))
