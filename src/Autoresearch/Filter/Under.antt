-- ===== src/Autoresearch/Filter/Under.antt =====
-- What the filter lets through.
use vortex_dispatch.Autoresearch.Filter.{
  PathFilter, byte_eq, check, has_prefix, match_any, match_around, match_doublestar, match_fuel,
  slash, split_star, star, trim_last_slash,
}
use vortex_dispatch.Prelude.{
  All, Bool, List, [], ap, arith, false, length, none, refl, some, suc, true, ℕ, ◌++◌, ◌==◌, ◌||◌,
  ◌↔◌, ◌∙◌, ◌∷◌, ◌≡◌,
}

module _ (file_match : List ℕ → List ℕ → Bool) where
  abbrev pub IsInScope : PathFilter → List ℕ → Type 0
  IsInScope p path =
      (match_any file_match p.allow path ≡ true) × (match_any file_match p.deny path ≡ false)

  -- The filter passes exactly the changes whose every path is allowed and not denied.
  pub check-IsInScope :
      (p : PathFilter) (paths : List (List ℕ))
      → (check file_match p paths ≡ none) ↔ All (IsInScope p) paths
  unfolding check
  check-IsInScope p [] = (λ h. tt, λ h. refl)
  check-IsInScope p (path ∷ paths) = ground (arith, check-IsInScope p paths)

  -- A directory, given without its last slash, and the pattern for all below it.
  abbrev pub below : List ℕ → List ℕ
  below dir = dir ++ slash ∷ star ∷ star ∷ []

  abbrev pub has_star : List ℕ → Bool
  has_star [] = false
  has_star (x ∷ xs) = (x == star) || has_star xs

  split_star-below :
      (dir : List ℕ) → has_star dir ≡ false → split_star (below dir) ≡ some (dir ++ slash ∷ [], [])
  split_star-below [] h = refl
  split_star-below (x ∷ []) h = ground arith
  split_star-below (x ∷ y ∷ ys) h = ground (arith, h, split_star-below (y ∷ ys) (ground (arith, h)))

  trim_last_slash-below : (dir : List ℕ) → trim_last_slash (dir ++ slash ∷ []) ≡ dir
  trim_last_slash-below [] = refl
  trim_last_slash-below (x ∷ []) = refl
  trim_last_slash-below (x ∷ y ∷ ys) = ap (λ xs. x ∷ xs) (trim_last_slash-below (y ∷ ys))

  match_around-below :
      (f : List ℕ → Bool) (c : ℕ) (dir path : List ℕ)
      → match_around file_match f (c ∷ dir ++ slash ∷ []) [] path
        ≡ (has_prefix (c ∷ dir ++ slash ∷ []) path || byte_eq path (c ∷ dir))
  match_around-below f c dir path =
      rw (match_around, trim_last_slash-below (c ∷ dir)) (ground arith)

  match_fuel-star :
      (fuel : ℕ) (x : ℕ) (xs before path : List ℕ)
      → split_star (x ∷ xs) ≡ some (before, [])
      → match_fuel file_match (suc fuel) (x ∷ xs) path
        ≡ match_around file_match (λ tail. match_fuel file_match fuel [] tail) before [] path
  unfolding match_fuel
  match_fuel-star fuel x xs before path h = rw (match_fuel, h) refl

  -- Where a directory has no star in its name, the pattern for all below it matches exactly the
  -- paths that start with the directory and a slash, and the directory itself.
  pub match_doublestar-below :
      (dir : List ℕ) (c : ℕ) (path : List ℕ)
      → has_star (c ∷ dir) ≡ false
      → match_doublestar file_match (below (c ∷ dir)) path
        ≡ (has_prefix (c ∷ dir ++ slash ∷ []) path || byte_eq path (c ∷ dir))
  unfolding match_doublestar
  match_doublestar-below dir c path h =
      match_fuel-star (length (below dir)) c (below dir) (c ∷ dir ++ slash ∷ []) path
        (split_star-below (c ∷ dir) h)
      ∙ match_around-below (λ tail. match_fuel file_match (length (below dir)) [] tail) c dir path
