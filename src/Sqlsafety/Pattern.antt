-- ===== src/Sqlsafety/Pattern.antt =====
-- The pattern of a call, and the first word (denyPattern and ClassifyQuery of
-- internal/sqlsafety/sql_safety.go).
use Prim.Native.String.{◌++◌}
use vortex_dispatch.Prelude.{Bool, List, String, [], if◌then◌else◌, ℕ, ◌==◌, ◌||◌, ◌∷◌}

-- The function's name in lower case and quoted, as a whole identifier, before a parenthesis.
abbrev pub deny_pattern : (String → String) → (String → String) → String → String
deny_pattern to_lower quote_meta fn =
    "(?i)(^|[^a-zA-Z0-9_])" ++ quote_meta (to_lower fn) ++ "[\\s]*\\("

-- Space, tab, newline, return and the opening parenthesis.
abbrev pub is_delimiter : ℕ → Bool
is_delimiter c = (c == 32) || (c == 9) || (c == 10) || (c == 13) || (c == 40)

unfoldable pub before_delimiter : List ℕ → List ℕ
before_delimiter [] = []
before_delimiter (x ∷ xs) =
    let later = before_delimiter xs in if is_delimiter x then [] else x ∷ later

-- A text that starts with a delimiter is not cut.
unfoldable pub first_word : List ℕ → List ℕ
first_word [] = []
first_word (x ∷ xs) = if is_delimiter x then x ∷ xs else before_delimiter (x ∷ xs)
