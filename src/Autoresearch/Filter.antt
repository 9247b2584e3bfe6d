-- ===== src/Autoresearch/Filter.antt =====
-- Which files an experiment may touch (internal/autoresearch/runner.go, PathFilter). A pattern and
-- a path are lists of their bytes. filepath.Match comes from Go's library, and is a parameter.
pub mod Under
use vortex_dispatch.Prelude.{
  Bool, List, Option, [], false, if◌then◌else◌, length, none, not, some, suc, true, zero, ℕ, ◌&&◌,
  ◌++◌, ◌==◌, ◌∷◌,
}

pub record PathFilter : Type 0 where
  pub allow : List (List ℕ)
  pub deny : List (List ℕ)

abbrev pub slash : ℕ
slash = 47

abbrev pub star : ℕ
star = 42

abbrev pub has_prefix : List ℕ → List ℕ → Bool
has_prefix [] s = true
has_prefix (p ∷ ps) [] = false
has_prefix (p ∷ ps) (x ∷ xs) = (x == p) && has_prefix ps xs

abbrev pub drop : ℕ → List ℕ → List ℕ
drop zero xs = xs
drop (suc n) [] = []
drop (suc n) (x ∷ xs) = drop n xs

abbrev pub trim_prefix : List ℕ → List ℕ → List ℕ
trim_prefix p s = if has_prefix p s then drop (length p) s else s

-- trimSuffix of a slash.
abbrev pub trim_last_slash : List ℕ → List ℕ
trim_last_slash [] = []
trim_last_slash (x ∷ []) = if x == slash then [] else x ∷ []
trim_last_slash (x ∷ y ∷ ys) = x ∷ trim_last_slash (y ∷ ys)

-- The text before and after the first "**".
abbrev pub split_star : List ℕ → Option (List ℕ × List ℕ)
split_star [] = none
split_star (x ∷ []) = none
split_star (x ∷ y ∷ ys) =
    let later = split_star (y ∷ ys) in
    if (x == star) && (y == star)
    then some ([], ys)
    else (elim later [ none ↦ none | some (before, after) ↦ some (x ∷ before, after) ])

-- The loop over the tails of the path, down to the empty one.
abbrev pub any_tail : (List ℕ → Bool) → List ℕ → Bool
any_tail f [] = f []
any_tail f (x ∷ xs) = if f (x ∷ xs) then true else any_tail f xs

abbrev is_empty : List ℕ → Bool
is_empty [] = true
is_empty (x ∷ xs) = false

abbrev pub byte_eq : List ℕ → List ℕ → Bool
byte_eq [] [] = true
byte_eq [] (y ∷ ys) = false
byte_eq (x ∷ xs) [] = false
byte_eq (x ∷ xs) (y ∷ ys) = (x == y) && byte_eq xs ys

module _ (file_match : List ℕ → List ℕ → Bool) where
  -- The part after the first "**", by what its pattern matches.
  abbrev pub match_around : (List ℕ → Bool) → List ℕ → List ℕ → List ℕ → Bool
  match_around match_suffix before suffix path =
      let prefix = trim_last_slash before in
      let below = prefix ++ slash ∷ [] in
      let rest = if is_empty prefix then path else trim_prefix below path in
      if not (is_empty prefix) && (not (has_prefix below path) && not (byte_eq path prefix))
      then false
      else (if is_empty suffix then true else any_tail match_suffix rest)

  -- On fuel: each call drops two bytes of the pattern or more.
  unfoldable pub match_fuel : ℕ → List ℕ → List ℕ → Bool
  match_fuel fuel [] path = is_empty path
  match_fuel zero (p ∷ ps) path = false
  match_fuel (suc fuel) (p ∷ ps) path = elim (split_star (p ∷ ps)) [
    | none ↦ file_match (p ∷ ps) path
    | some (before, after) ↦
        let suffix = trim_prefix (slash ∷ []) after in
        match_around (λ tail. match_fuel fuel suffix tail) before suffix path
  ]

  unfoldable pub match_doublestar : List ℕ → List ℕ → Bool
  match_doublestar pat path = match_fuel (length pat) pat path

  unfoldable pub match_any : List (List ℕ) → List ℕ → Bool
  match_any [] path = false
  match_any (pat ∷ pats) path =
      let later = match_any pats path in
      if file_match pat path then true else (if match_doublestar pat path then true else later)

  -- The first path that is not allowed, or is denied.
  unfoldable pub check : PathFilter → List (List ℕ) → Option (List ℕ)
  check p [] = none
  check p (path ∷ paths) =
      let later = check p paths in
      if not (match_any p.allow path)
      then some path
      else (if match_any p.deny path then some path else later)
