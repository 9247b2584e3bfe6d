-- ===== src/Engine/Route/Recommend.antt =====
-- What RecommendTier recommends, and why.
use vortex_dispatch.Engine.Route.{
  TierOutcome, demote, is_failing, is_trusted, promote, recommend_tier, role_for_route_tier,
  route_by_complexity, route_tier_for_role,
}
use vortex_dispatch.Engine.Tier.{RoutingConfig}
use vortex_dispatch.Prelude.{
  Bool, Bool-cases, arith, false, inl, inr, leb, ltb, none, refl, some, subst, suc, sym, true, zero,
  ℕ, ◌&&◌, ◌+◌, ◌<◌, ◌≡◌, ◌≤◌, ◌⊎◌,
}

module _ (rates : ℕ → ℕ → TierOutcome) (cfg : RoutingConfig) (complexity : ℕ) where
  abbrev pub trusted : ℕ → Bool
  trusted = is_trusted rates cfg complexity

  abbrev pub default_tier : ℕ
  default_tier = route_tier_for_role (route_by_complexity complexity cfg)

  abbrev pub NoneTrusted : ℕ → Type 0
  NoneTrusted bound = (u : ℕ) → u < bound → trusted u ≡ false

  -- The cheapest tier below the default that history trusts.
  abbrev pub IsDemoted : ℕ → Type 0
  IsDemoted t = (t < default_tier) × (trusted t ≡ true) × NoneTrusted t

  -- One tier above a default that fails.
  abbrev pub IsPromoted : ℕ → Type 0
  IsPromoted t =
      (t ≡ default_tier + 1)
      × (is_failing rates cfg complexity default_tier ≡ true)
      × NoneTrusted default_tier

  -- The default, where history says nothing against it.
  abbrev pub IsKept : ℕ → Type 0
  IsKept t =
      (t ≡ default_tier)
      × ((2 ≤ default_tier) ⊎ (is_failing rates cfg complexity default_tier ≡ false))
      × NoneTrusted default_tier

  demote-cases :
      (left tier : ℕ)
      → ((u : ℕ) → u < tier → trusted u ≡ false)
      → ((demote rates cfg complexity left tier ≡ none) × NoneTrusted (tier + left))
        ⊎ ((t : ℕ) × (demote rates cfg complexity left tier ≡ some t)
            × (t < tier + left)
            × (trusted t ≡ true)
            × NoneTrusted t)
  unfolding demote
  demote-cases zero tier h = inl (refl, λ u l. h u (omega (arith, l)))
  demote-cases (suc left) tier h = elim (Bool-cases (trusted tier)) [
    | inl y ↦ inr (tier, rw y, omega arith, y, h)
    | inr n ↦
        let rest = demote-cases left (suc tier) (λ u l. elim (lt_suc_cases u tier l) [
          | inl less ↦ h u less
          | inr same ↦ subst (λ x. trusted x ≡ false) (sym same) n
        ]) in
        elim rest [
          | inl (none_there, all) ↦ inl (rw n none_there, λ u l. all u (omega (arith, l)))
          | inr (t, seen, below, yes_t, all) ↦ inr (t, rw n seen, omega (arith, below), yes_t, all)
        ]
  ]
    where
      lt_suc_cases : (u tier : ℕ) → u < suc tier → (u < tier) ⊎ (u ≡ tier)
      lt_suc_cases u tier l = ground (arith, l)

  default-role : role_for_route_tier default_tier ≡ some (route_by_complexity complexity cfg)
  unfolding route_by_complexity
  default-role = elim (Bool-cases (leb complexity cfg.junior_max_complexity)) [
    | inl y ↦ rw y
    | inr n ↦ elim (Bool-cases (leb complexity cfg.intermediate_max_complexity)) [
      | inl y ↦ rw (n, y)
      | inr m ↦ rw (n, m)
    ]
  ]

  default-le : default_tier ≤ 2
  unfolding route_by_complexity
  default-le = elim (Bool-cases (leb complexity cfg.junior_max_complexity)) [
    | inl y ↦ rw y (omega arith)
    | inr n ↦ elim (Bool-cases (leb complexity cfg.intermediate_max_complexity)) [
      | inl y ↦ rw (n, y) (omega arith)
      | inr m ↦ rw (n, m) (omega arith)
    ]
  ]

  pub recommend_tier_disabled :
      cfg.adaptive ≡ false
      → recommend_tier rates cfg complexity ≡ some (route_by_complexity complexity cfg)
  unfolding recommend_tier
  recommend_tier_disabled h = rw h

  -- With adaptive routing on, RecommendTier always recommends the role of a tier up to senior, and
  -- for one of three reasons: it is the cheapest tier below the default whose history is trusted;
  -- no cheaper tier is trusted, the default fails and it is the next one; or no cheaper tier is
  -- trusted, the default does not fail or is senior, and it is the default.
  pub recommend_tier_justified :
      cfg.adaptive ≡ true
      → (t : ℕ) × (t ≤ 2)
        × (recommend_tier rates cfg complexity ≡ role_for_route_tier t)
        × (IsDemoted t ⊎ (IsPromoted t ⊎ IsKept t))
  unfolding recommend_tier
  recommend_tier_justified h =
      elim (demote-cases default_tier 0 (λ u l. absurd (omega (arith, l)))) [
        | inr (t, seen, below, yes_t, all) ↦ (
          t,
          omega (arith, below, default-le),
          rw (seen, h),
          inl (omega (arith, below), yes_t, all),
        )
        | inl (none_there, all) ↦
            let none_trusted : NoneTrusted default_tier = λ u l. all u (omega (arith, l)) in
            elim (Bool-cases (ltb default_tier 2 && is_failing rates cfg complexity default_tier)) [
              | inl y ↦ (
                default_tier + 1,
                ground (arith, y),
                rw (none_there, y, not_capped (ground (arith, y)), h),
                inr (inl (refl, ground (arith, y), none_trusted)),
              )
              | inr n ↦ (
                default_tier,
                default-le,
                rw (none_there, n, default-role, h),
                inr (inr (refl, kept n, none_trusted)),
              )
            ]
      ]
    where
      not_capped : default_tier < 2 → promote rates cfg complexity default_tier ≡ default_tier + 1
      not_capped l = ground (arith, l)

      kept :
          (ltb default_tier 2 && is_failing rates cfg complexity default_tier) ≡ false
          → (2 ≤ default_tier) ⊎ (is_failing rates cfg complexity default_tier ≡ false)
      kept n = elim (Bool-cases (ltb default_tier 2)) [
        | inl y ↦ inr (ground (arith, n, y))
        | inr m ↦ inl (ground (arith, m))
      ]
