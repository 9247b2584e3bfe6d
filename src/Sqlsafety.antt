-- ===== src/Sqlsafety.antt =====
-- The check of SQL queries (internal/sqlsafety/sql_safety.go). A query is the list of its bytes.
-- The functions of strings and the regular expressions come from Go's library, and are parameters.
mod Tests
pub mod Pattern
pub mod Word
pub mod Strip
pub mod Validate
pub mod Tokens
use vortex_dispatch.Sqlsafety.Pattern.{deny_pattern, first_word}
use vortex_dispatch.Prelude.{
  Bool, List, Option, String, [], false, has, if◌then◌else◌, length, none, some, str_eq, suc, true,
  zero, ℕ, ◌&&◌, ◌++◌, ◌==◌, ◌||◌, ◌∷◌,
}

abbrev pub newline : ℕ
newline = 10

abbrev pub double_quote : ℕ
double_quote = 34

abbrev pub quote : ℕ
quote = 39

abbrev pub star : ℕ
star = 42

abbrev pub dash : ℕ
dash = 45

abbrev pub slash : ℕ
slash = 47

abbrev pub semicolon : ℕ
semicolon = 59

-- Does the next byte stand here?
abbrev pub starts_with : ℕ → List ℕ → Bool
starts_with c [] = false
starts_with c (x ∷ xs) = x == c

abbrev pub tail_of : List ℕ → List ℕ
tail_of [] = []
tail_of (x ∷ xs) = xs

-- The rest from the end of the line on.
unfoldable pub skip_line : List ℕ → List ℕ
skip_line [] = []
skip_line (x ∷ xs) = let later = skip_line xs in if x == newline then x ∷ xs else later

-- The rest after the end of the comment, which may be missing.
unfoldable pub skip_block : List ℕ → List ℕ
skip_block [] = []
skip_block (x ∷ []) = []
skip_block (x ∷ y ∷ ys) =
    let later = skip_block (y ∷ ys) in if (x == star) && (y == slash) then ys else later

-- The rest after the closing quote, where two quotes are none.
unfoldable pub skip_literal : List ℕ → List ℕ
skip_literal [] = []
skip_literal (x ∷ []) = []
skip_literal (x ∷ y ∷ ys) =
    let after_escape = skip_literal ys in
    let later = skip_literal (y ∷ ys) in
    if x == quote then (if y == quote then after_escape else y ∷ ys) else later

abbrev pub written : ℕ → List ℕ × List ℕ → List ℕ × List ℕ
written x (out, rest) = (x ∷ out, rest)

-- What the loop over a quoted identifier writes, and the rest after it.
unfoldable pub read_identifier : List ℕ → List ℕ × List ℕ
read_identifier [] = ([], [])
read_identifier (x ∷ []) = if x == double_quote then ([], []) else (x ∷ [], [])
read_identifier (x ∷ y ∷ ys) =
    let after_escape = read_identifier ys in
    let later = read_identifier (y ∷ ys) in
    if x == double_quote
    then (if y == double_quote then after_escape else ([], y ∷ ys))
    else written x later

-- A round of the loop at the byte `x`: what it writes, and the rest.
unfoldable pub scan : ℕ → List ℕ → List ℕ × List ℕ
scan x xs =
    if (x == dash) && starts_with dash xs
    then ([], skip_line xs)
    else (if (x == slash) && starts_with star xs
        then ([], skip_block (tail_of xs))
        else (if x == quote
            then ([], skip_literal xs)
            else (if x == double_quote then read_identifier xs else (x ∷ [], xs))))

-- The loop, on fuel.
unfoldable pub strip_loop : ℕ → List ℕ → List ℕ
strip_loop fuel [] = []
strip_loop zero (x ∷ xs) = []
strip_loop (suc fuel) (x ∷ xs) = (scan x xs).0 ++ strip_loop fuel (scan x xs).1

-- stripSQLCommentsAndStrings: each round takes a byte or more.
unfoldable pub strip_sql_comments_and_strings : List ℕ → List ℕ
strip_sql_comments_and_strings s = strip_loop (length s) s

pub data QueryKind : Type 0 where
  query_unknown : QueryKind
  query_read_only : QueryKind
  query_mutating : QueryKind

-- The errors of ValidateSQL, or that there is none.
pub data Verdict : Type 0 where
  valid : Verdict
  empty_query : Verdict
  multi_statement : Verdict
  denied_function : String → Verdict
  only_comments : Verdict
  not_read_only : Verdict

abbrev pub has_byte : ℕ → List ℕ → Bool
has_byte c [] = false
has_byte c (x ∷ xs) = x == c || has_byte c xs

abbrev pub read_only_leading_keywords : List String
read_only_leading_keywords = "SELECT" ∷ "SHOW" ∷ "VALUES" ∷ "TABLE" ∷ []

abbrev pub default_function_denylist : List String
default_function_denylist =
    "pg_terminate_backend" ∷ "pg_cancel_backend" ∷ "lo_import" ∷ "lo_export" ∷ "pg_read_file"
    ∷ "pg_ls_dir" ∷ "pg_reload_conf" ∷ "pg_stat_file" ∷ []

-- What the code takes from Go's library: TrimSpace on a query and on a name, TrimRight of
-- semicolons, ToUpper on a word, ToLower and QuoteMeta on a name, and MatchString of a pattern.
pub record TextOps : Type 0 where
  pub trim_space : List ℕ → List ℕ
  pub trim_name : String → String
  pub trim_semicolons : List ℕ → List ℕ
  pub to_upper : List ℕ → String
  pub to_lower : String → String
  pub quote_meta : String → String
  pub match_string : String → List ℕ → Bool

abbrev pub is_blank : List ℕ → Bool
is_blank [] = true
is_blank (x ∷ xs) = false

module _ (ops : TextOps) where
  unfoldable pub is_multi_statement : List ℕ → Bool
  is_multi_statement query =
      has_byte semicolon
        (ops.trim_semicolons (ops.trim_space (strip_sql_comments_and_strings query)))

  -- denyPattern(fn).MatchString(text).
  abbrev pub calls : String → List ℕ → Bool
  calls fn text = ops.match_string (deny_pattern ops.to_lower ops.quote_meta fn) text

  -- The loop over the names that the operator adds, which skips blank ones.
  abbrev pub first_extra : List ℕ → List String → Option String
  first_extra stripped [] = none
  first_extra stripped (fn ∷ fns) =
      let name = ops.trim_name fn in
      let later = first_extra stripped fns in
      if str_eq name "" then later else (if calls name stripped then some name else later)

  abbrev pub first_denied : List ℕ → List String → List String → Option String
  first_denied stripped [] extra = first_extra stripped extra
  first_denied stripped (fn ∷ fns) extra =
      let later = first_denied stripped fns extra in if calls fn stripped then some fn else later

  unfoldable pub contains_denied_function : List ℕ → List String → Option String
  contains_denied_function query extra =
      first_denied (strip_sql_comments_and_strings query) default_function_denylist extra

  unfoldable pub classify_query : List ℕ → QueryKind
  classify_query query =
      let body = ops.trim_space (strip_sql_comments_and_strings query) in
      if is_blank body
      then query_unknown
      else (if has (ops.to_upper (first_word body)) read_only_leading_keywords
          then query_read_only
          else query_mutating)

  abbrev pub by_kind : QueryKind → Verdict
  by_kind query_read_only = valid
  by_kind query_unknown = only_comments
  by_kind query_mutating = not_read_only

  unfoldable pub validate_sql : List ℕ → Bool → List String → Verdict
  validate_sql query write_flag extra_deny =
      if is_blank (ops.trim_space query)
      then empty_query
      else (if is_multi_statement query
          then multi_statement
          else (if write_flag then valid else (elim (contains_denied_function query extra_deny) [
            | some fn ↦ denied_function fn
            | none ↦ by_kind (classify_query query)
          ])))

  abbrev pub validate_sql_for_read_only : List ℕ → Bool → Verdict
  validate_sql_for_read_only query write_flag = validate_sql query write_flag []
