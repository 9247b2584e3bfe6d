-- ===== src/Sqlsafety/Strip.antt =====
-- The loop of stripSQLCommentsAndStrings: its fuel, and what it does to each kind of token.
use vortex_dispatch.Prelude.{List, [], ap, arith, length, refl, suc, zero, ℕ, ◌++◌, ◌∷◌, ◌≡◌, ◌≤◌}
use vortex_dispatch.Sqlsafety.{
  read_identifier, scan, skip_block, skip_line, skip_literal, strip_loop,
  strip_sql_comments_and_strings, tail_of,
}

skip_line-le : (xs : List ℕ) → length (skip_line xs) ≤ length xs
unfolding skip_line
skip_line-le [] = omega arith
skip_line-le (x ∷ xs) = ground (arith, skip_line-le xs)

skip_block-le : (xs : List ℕ) → length (skip_block xs) ≤ length xs
unfolding skip_block
skip_block-le [] = omega arith
skip_block-le (x ∷ []) = omega arith
skip_block-le (x ∷ y ∷ ys) = ground (arith, skip_block-le (y ∷ ys))

skip_literal-le : (xs : List ℕ) → length (skip_literal xs) ≤ length xs
unfolding skip_literal
skip_literal-le [] = omega arith
skip_literal-le (x ∷ []) = omega arith
skip_literal-le (x ∷ y ∷ ys) = ground (arith, skip_literal-le ys, skip_literal-le (y ∷ ys))

read_identifier-le : (xs : List ℕ) → length (read_identifier xs).1 ≤ length xs
unfolding read_identifier
read_identifier-le [] = omega arith
read_identifier-le (x ∷ []) = ground arith
read_identifier-le (x ∷ y ∷ ys) = ground (arith, read_identifier-le ys, read_identifier-le (y ∷ ys))

tail_of-le : (xs : List ℕ) → length (tail_of xs) ≤ length xs
tail_of-le [] = omega arith
tail_of-le (x ∷ xs) = omega arith

scan-le : (x : ℕ) (xs : List ℕ) → length (scan x xs).1 ≤ length xs
unfolding scan
scan-le x xs = ground (
  arith,
  skip_line-le xs,
  skip_block-le (tail_of xs),
  tail_of-le xs,
  skip_literal-le xs,
  read_identifier-le xs,
)

strip_loop-enough :
    (n m : ℕ) (s : List ℕ) → length s ≤ n → length s ≤ m → strip_loop n s ≡ strip_loop m s
unfolding strip_loop
strip_loop-enough n m [] hn hm = refl
strip_loop-enough zero m (x ∷ xs) hn hm = absurd (omega (arith, hn))
strip_loop-enough (suc n) zero (x ∷ xs) hn hm = absurd (omega (arith, hm))
strip_loop-enough (suc n) (suc m) (x ∷ xs) hn hm =
    ap (λ out. (scan x xs).0 ++ out)
      (strip_loop-enough n m (scan x xs).1 (omega (arith, scan-le x xs, hn))
        (omega (arith, scan-le x xs, hm)))

-- The fuel is enough: on a query that is not empty the stripped text is what the first round
-- writes, and then the stripped text of what it leaves.
pub strip-scan :
    (x : ℕ) (xs : List ℕ)
    → strip_sql_comments_and_strings (x ∷ xs)
      ≡ (scan x xs).0 ++ strip_sql_comments_and_strings (scan x xs).1
unfolding strip_sql_comments_and_strings strip_loop
strip-scan x xs =
    ap (λ out. (scan x xs).0 ++ out)
      (strip_loop-enough (length xs) _ (scan x xs).1 (scan-le x xs) (omega arith))
