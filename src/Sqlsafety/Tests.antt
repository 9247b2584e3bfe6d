-- ===== src/Sqlsafety/Tests.antt =====
-- Queries, and the theorems on them.
use vortex_dispatch.Prelude.{
  List, String, [], false, if◌then◌else◌, refl, str_eq, ℕ, ◌&&◌, ◌==◌, ◌↔◌, ◌∷◌, ◌≡◌,
}
use vortex_dispatch.Sqlsafety.{
  TextOps, classify_query, contains_denied_function, denied_function, has_byte, is_multi_statement,
  read_identifier, scan, skip_block, skip_line, skip_literal, starts_with, strip_loop,
  strip_sql_comments_and_strings, valid, validate_sql,
}
use vortex_dispatch.Sqlsafety.Pattern.{before_delimiter, first_word}
use vortex_dispatch.Sqlsafety.Tokens.{
  AreTokens, Token, block_comment, identifier, line_comment, literal, plain, print_tokens,
  strip-print_tokens,
}
use vortex_dispatch.Sqlsafety.Validate.{IsReadOnly, validate_sql-IsReadOnly}

abbrev space : ℕ
space = 32

abbrev trim : List ℕ → List ℕ
trim [] = []
trim (x ∷ xs) = if x == space then trim xs else x ∷ xs

-- Small stand-ins: the word S in upper case is SELECT, and the pattern of the one function that is
-- looked for is found by its first byte.
abbrev lo_import_call : String
lo_import_call = "(?i)(^|[^a-zA-Z0-9_])lo_import[\\s]*\\("

abbrev ops : TextOps
ops = record {
  trim_space = trim;
  trim_name = λ name. name;
  trim_semicolons = λ text. text;
  to_upper = λ text. if starts_with 83 text then "SELECT" else "";
  to_lower = λ name. name;
  quote_meta = λ name. name;
  match_string = λ pattern text. str_eq pattern lo_import_call && has_byte 108 text;
}

-- S1 'l;' and S1 "l".
abbrev tokens : List Token
tokens = plain 83 ∷ plain 49 ∷ plain 32 ∷ literal (108 ∷ 59 ∷ []) ∷ []

abbrev hidden : List Token
hidden = plain 83 ∷ block_comment (42 ∷ []) ∷ line_comment (39 ∷ []) ∷ identifier (108 ∷ []) ∷ []

program : Unit {0}
unfolding strip_sql_comments_and_strings strip_loop scan skip_line skip_block skip_literal
    read_identifier is_multi_statement contains_denied_function classify_query validate_sql
    first_word before_delimiter
program = tt

mention_passes : validate_sql ops (print_tokens tokens) false [] ≡ valid
unfolding program
mention_passes = refl

quoted_call_denied : validate_sql ops (print_tokens hidden) false [] ≡ denied_function "lo_import"
unfolding program
quoted_call_denied = refl

-- S E'\''; D; --': Postgres ends the string after its escaped quote, so two statements follow
-- each other; the stripped text has no semicolon.
escape_string :
    is_multi_statement ops (83 ∷ 32 ∷ 69 ∷ 39 ∷ 92 ∷ 39 ∷ 39 ∷ 59 ∷ 68 ∷ 59 ∷ 45 ∷ 45 ∷ 39 ∷ [])
    ≡ false
unfolding program
escape_string = refl

strip-print_tokens_example :
    strip_sql_comments_and_strings (print_tokens hidden) ≡ 83 ∷ 10 ∷ 108 ∷ []
strip-print_tokens_example =
    strip-print_tokens hidden ((refl, refl, refl, refl), (refl, (refl, (refl, tt))))

tokens-AreTokens : AreTokens tokens
tokens-AreTokens =
    ((refl, refl, refl, refl), ((refl, refl, refl, refl), ((refl, refl, refl, refl), (refl, tt))))

validate_sql-IsReadOnly_example :
    (validate_sql ops (print_tokens tokens) false [] ≡ valid) ↔ IsReadOnly ops tokens []
validate_sql-IsReadOnly_example = validate_sql-IsReadOnly ops tokens [] tokens-AreTokens
