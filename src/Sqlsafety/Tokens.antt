-- ===== src/Sqlsafety/Tokens.antt =====
-- What stripSQLCommentsAndStrings keeps of a query that is printed from its tokens.
use vortex_dispatch.Prelude.{
  Bool, Bool-cases, List, [], ap, arith, false, if◌then◌else◌, inl, inr, not, refl, select, ℕ, ◌&&◌,
  ◌++◌, ◌==◌, ◌||◌, ◌∙◌, ◌∷◌, ◌≡◌,
}
use vortex_dispatch.Sqlsafety.{
  dash, double_quote, has_byte, newline, quote, read_identifier, scan, skip_block, skip_line,
  skip_literal, slash, star, starts_with, strip_loop, strip_sql_comments_and_strings, written,
}
use vortex_dispatch.Sqlsafety.Strip.{strip-scan}

pub data Token : Type 0 where
  plain : ℕ → Token
  line_comment : List ℕ → Token
  block_comment : List ℕ → Token
  literal : List ℕ → Token
  identifier : List ℕ → Token

-- A quote within quotes is doubled.
abbrev pub escape : ℕ → List ℕ → List ℕ
escape q [] = []
escape q (x ∷ xs) = let others = escape q xs in if x == q then q ∷ q ∷ others else x ∷ others

abbrev pub print_token : Token → List ℕ → List ℕ
print_token (plain c) rest = c ∷ rest
print_token (line_comment body) rest = dash ∷ dash ∷ body ++ newline ∷ rest
print_token (block_comment body) rest = slash ∷ star ∷ body ++ star ∷ slash ∷ rest
print_token (literal body) rest = quote ∷ escape quote body ++ quote ∷ rest
print_token (identifier body) rest = double_quote ∷ escape double_quote body ++ double_quote ∷ rest

abbrev pub print_tokens : List Token → List ℕ
print_tokens [] = []
print_tokens (t ∷ ts) = print_token t (print_tokens ts)

-- A literal and a block comment vanish, and of an identifier the quotes.
abbrev pub kept : Token → List ℕ
kept (plain c) = c ∷ []
kept (line_comment body) = newline ∷ []
kept (block_comment body) = []
kept (literal body) = []
kept (identifier body) = select (λ x. not (x == double_quote)) body

abbrev pub all_kept : List Token → List ℕ
all_kept [] = []
all_kept (t ∷ ts) = kept t ++ all_kept ts

abbrev pub ends_block : List ℕ → Bool
ends_block [] = false
ends_block (x ∷ xs) = ((x == star) && starts_with slash xs) || ends_block xs

-- A token stands for itself before this text.
abbrev pub IsToken : Token → List ℕ → Type 0
IsToken (plain c) rest =
    ((c == quote) ≡ false)
    × ((c == double_quote) ≡ false)
    × (((c == dash) && starts_with dash rest) ≡ false)
    × (((c == slash) && starts_with star rest) ≡ false)
IsToken (line_comment body) rest = has_byte newline body ≡ false
IsToken (block_comment body) rest = ends_block body ≡ false
IsToken (literal body) rest = starts_with quote rest ≡ false
IsToken (identifier body) rest = starts_with double_quote rest ≡ false

abbrev pub AreTokens : List Token → Type 0
AreTokens [] = Unit
AreTokens (t ∷ ts) = IsToken t (print_tokens ts) × AreTokens ts

skip_line-body :
    (body rest : List ℕ)
    → has_byte newline body ≡ false
    → skip_line (body ++ newline ∷ rest) ≡ newline ∷ rest
unfolding skip_line
skip_line-body [] rest h = refl
skip_line-body (x ∷ xs) rest h = ground (arith, h, skip_line-body xs rest)

skip_block-other :
    (x : ℕ) (xs : List ℕ)
    → ((x == star) && starts_with slash xs) ≡ false
    → skip_block (x ∷ xs) ≡ skip_block xs
unfolding skip_block
skip_block-other x [] h = refl
skip_block-other x (y ∷ ys) h = rw h refl

skip_block-body :
    (body rest : List ℕ) → ends_block body ≡ false → skip_block (body ++ star ∷ slash ∷ rest) ≡ rest
skip_block-body [] rest h = unfold skip_block in refl
skip_block-body (x ∷ []) rest h =
    skip_block-other x (star ∷ slash ∷ rest) (ground arith) ∙ skip_block-body [] rest refl
skip_block-body (x ∷ y ∷ ys) rest h =
    skip_block-other x (y ∷ ys ++ star ∷ slash ∷ rest) (ground (arith, h))
    ∙ skip_block-body (y ∷ ys) rest (ground (arith, h))

skip_literal-other :
    (x : ℕ) (xs : List ℕ) → (x == quote) ≡ false → skip_literal (x ∷ xs) ≡ skip_literal xs
unfolding skip_literal
skip_literal-other x [] h = refl
skip_literal-other x (y ∷ ys) h = rw h refl

skip_literal-end :
    (rest : List ℕ) → starts_with quote rest ≡ false → skip_literal (quote ∷ rest) ≡ rest
unfolding skip_literal
skip_literal-end [] h = refl
skip_literal-end (y ∷ ys) h = rw h refl

skip_literal-escape : (xs : List ℕ) → skip_literal (quote ∷ quote ∷ xs) ≡ skip_literal xs
unfolding skip_literal
skip_literal-escape xs = refl

skip_literal-body :
    (body rest : List ℕ)
    → starts_with quote rest ≡ false
    → skip_literal (escape quote body ++ quote ∷ rest) ≡ rest
skip_literal-body [] rest h = skip_literal-end rest h
skip_literal-body (x ∷ xs) rest h = elim (Bool-cases (x == quote)) [
  | inl y ↦
      rw (escape, y)
        (skip_literal-escape (escape quote xs ++ quote ∷ rest) ∙ skip_literal-body xs rest h)
  | inr other ↦
      rw (escape, other)
        (skip_literal-other x (escape quote xs ++ quote ∷ rest) other ∙ skip_literal-body xs rest h)
]

read_identifier-other :
    (x : ℕ) (xs : List ℕ)
    → (x == double_quote) ≡ false
    → read_identifier (x ∷ xs) ≡ written x (read_identifier xs)
unfolding read_identifier
read_identifier-other x [] h = rw h refl
read_identifier-other x (y ∷ ys) h = rw h refl

read_identifier-end :
    (rest : List ℕ)
    → starts_with double_quote rest ≡ false
    → read_identifier (double_quote ∷ rest) ≡ ([], rest)
unfolding read_identifier
read_identifier-end [] h = refl
read_identifier-end (y ∷ ys) h = rw h refl

read_identifier-escape :
    (xs : List ℕ) → read_identifier (double_quote ∷ double_quote ∷ xs) ≡ read_identifier xs
unfolding read_identifier
read_identifier-escape xs = refl

read_identifier-body :
    (body rest : List ℕ)
    → starts_with double_quote rest ≡ false
    → read_identifier (escape double_quote body ++ double_quote ∷ rest)
      ≡ (select (λ x. not (x == double_quote)) body, rest)
read_identifier-body [] rest h = read_identifier-end rest h
read_identifier-body (x ∷ xs) rest h = elim (Bool-cases (x == double_quote)) [
  | inl y ↦
      rw (escape, y, select)
        (read_identifier-escape (escape double_quote xs ++ double_quote ∷ rest)
          ∙ read_identifier-body xs rest h)
  | inr other ↦
      rw (escape, other, select)
        (read_identifier-other x (escape double_quote xs ++ double_quote ∷ rest) other
          ∙ ap (written x) (read_identifier-body xs rest h))
]

scan-plain : (c : ℕ) (rest : List ℕ) → IsToken (plain c) rest → scan c rest ≡ (c ∷ [], rest)
unfolding scan
scan-plain c rest (single, double, dashes, opens) = rw (dashes, opens, single, double) refl

scan-line_comment :
    (body rest : List ℕ)
    → has_byte newline body ≡ false
    → scan dash (dash ∷ body ++ newline ∷ rest) ≡ ([], newline ∷ rest)
unfolding scan skip_line
scan-line_comment body rest h = ap (λ xs. ([], xs)) (skip_line-body body rest h)

scan-block_comment :
    (body rest : List ℕ)
    → ends_block body ≡ false
    → scan slash (star ∷ body ++ star ∷ slash ∷ rest) ≡ ([], rest)
unfolding scan
scan-block_comment body rest h = ap (λ xs. ([], xs)) (skip_block-body body rest h)

scan-literal :
    (body rest : List ℕ)
    → starts_with quote rest ≡ false
    → scan quote (escape quote body ++ quote ∷ rest) ≡ ([], rest)
unfolding scan
scan-literal body rest h = ap (λ xs. ([], xs)) (skip_literal-body body rest h)

scan-identifier :
    (body rest : List ℕ)
    → starts_with double_quote rest ≡ false
    → scan double_quote (escape double_quote body ++ double_quote ∷ rest)
      ≡ (select (λ x. not (x == double_quote)) body, rest)
unfolding scan
scan-identifier body rest h = read_identifier-body body rest h

strip-as :
    (x : ℕ) (xs out rest : List ℕ)
    → scan x xs ≡ (out, rest)
    → strip_sql_comments_and_strings (x ∷ xs) ≡ out ++ strip_sql_comments_and_strings rest
strip-as x xs out rest h =
    strip-scan x xs ∙ ap (λ (p : List ℕ × List ℕ). p.0 ++ strip_sql_comments_and_strings p.1) h

strip-token :
    (t : Token) (rest : List ℕ)
    → IsToken t rest
    → strip_sql_comments_and_strings (print_token t rest)
      ≡ kept t ++ strip_sql_comments_and_strings rest
strip-token (plain c) rest h = strip-as c rest _ _ (scan-plain c rest h)
strip-token (line_comment body) rest h =
    strip-as dash _ _ _ (scan-line_comment body rest h)
    ∙ strip-as newline rest _ _ (scan-plain newline rest (refl, refl, refl, refl))
strip-token (block_comment body) rest h = strip-as slash _ _ _ (scan-block_comment body rest h)
strip-token (literal body) rest h = strip-as quote _ _ _ (scan-literal body rest h)
strip-token (identifier body) rest h = strip-as double_quote _ _ _ (scan-identifier body rest h)

-- A query that is printed from its tokens keeps the plain bytes, the ends of the line comments and
-- the text of the quoted identifiers, and nothing else.
pub strip-print_tokens :
    (ts : List Token)
    → AreTokens ts
    → strip_sql_comments_and_strings (print_tokens ts) ≡ all_kept ts
strip-print_tokens [] h = unfold strip_sql_comments_and_strings strip_loop in refl
strip-print_tokens (t ∷ ts) h =
    strip-token t (print_tokens ts) h.0 ∙ ap (λ out. kept t ++ out) (strip-print_tokens ts h.1)
