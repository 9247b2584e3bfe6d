-- ===== src/Prelude/Members.antt =====
-- Texts in a list: the test that a Go set `map[string]bool` answers, occurrences, and the sort of
-- Go's sort.Strings.
use Prim.Native.Nat.{ℕ, suc, ◌+◌, ◌≤◌, ◌<◌}
use Prim.Native.String.{String}
use mathlib.Core.Path.{◌≡◌, refl, ◌∙◌}
use mathlib.Core.Logic.{inl, inr}
use mathlib.Core.Bool.{Bool, true, false, ◌||◌}
use mathlib.Core.List.{List, [], ◌∷◌, ◌++◌}
use native.Mathlib.Omega.{arith}
use vortex_dispatch.Prelude.Tests.{if◌then◌else◌, Bool-cases}
use vortex_dispatch.Prelude.Lists.{length, select}
use vortex_dispatch.Prelude.Text.{str_eq, str_eq_iff, str_eq_refl, str_le, str_le_total}

-- Is `x` in the list?
abbrev pub has : String → List String → Bool
has x [] = false
has x (y ∷ ys) = str_eq x y || has x ys

-- How often `x` is in the list.
abbrev pub count : String → List String → ℕ
count x [] = 0
count x (y ∷ ys) = (if str_eq x y then 1 else 0) + count x ys

-- No text stands twice in the list.
abbrev pub IsDistinct : List String → Type 0
IsDistinct [] = Unit
IsDistinct (x ∷ xs) = (has x xs ≡ false) × IsDistinct xs

-- Every text of the first list is in the second.
abbrev pub IsSubset : List String → List String → Type 0
IsSubset xs ys = (x : String) → has x xs ≡ true → has x ys ≡ true

pub has-append : (x : String) (xs ys : List String) → has x (xs ++ ys) ≡ (has x xs || has x ys)
has-append x [] ys = refl
has-append x (y ∷ xs) ys = ground (arith, has-append x xs ys)

pub has-count : (x : String) (xs : List String) → has x xs ≡ false → count x xs ≡ 0
has-count x [] h = refl
has-count x (y ∷ ys) h = ground (arith, has-count x ys)

pub count-pos-has : (x : String) (xs : List String) → 0 < count x xs → has x xs ≡ true
count-pos-has x [] h = absurd (omega arith)
count-pos-has x (y ∷ ys) h = ground (arith, count-pos-has x ys)

pub has-count-pos : (x : String) (xs : List String) → has x xs ≡ true → 0 < count x xs
has-count-pos x [] h = cc
has-count-pos x (y ∷ ys) h = ground (arith, has-count-pos x ys)

pub has_head : (x : String) (xs : List String) → has x (x ∷ xs) ≡ true
has_head x xs = rw (str_eq_refl x)

pub IsDistinct-append :
    (x : String) (xs : List String) → IsDistinct xs → has x xs ≡ false → IsDistinct (xs ++ x ∷ [])
IsDistinct-append x [] d h = (refl, tt)
IsDistinct-append x (y ∷ ys) d h = (
  ground (arith, d.0, has-append y ys (x ∷ []), str_eq_iff x y, str_eq_iff y x),
  IsDistinct-append x ys d.1 (ground arith),
)

pub IsDistinct-join :
    (xs ys : List String)
    → IsDistinct xs
    → IsDistinct ys
    → ((n : String) → has n ys ≡ true → has n xs ≡ false)
    → IsDistinct (xs ++ ys)
IsDistinct-join [] ys d e apart = e
IsDistinct-join (x ∷ xs) ys d e apart = (
  ground (arith, d.0, has-append x xs ys, str_eq_refl x, apart x),
  IsDistinct-join xs ys d.1 e (λ n h. ground (arith, apart n h)),
)

-- Without the first occurrence of `x`.
drop_one : String → List String → List String
drop_one x [] = []
drop_one x (y ∷ ys) = if str_eq x y then ys else y ∷ drop_one x ys

length-drop_one :
    (x : String) (ys : List String) → has x ys ≡ true → length ys ≡ suc (length (drop_one x ys))
unfolding drop_one
length-drop_one x [] h = cc
length-drop_one x (y ∷ ys) h = ground (arith, length-drop_one x ys)

has-drop_one :
    (x z : String) (ys : List String)
    → has z ys ≡ true
    → str_eq z x ≡ false
    → has z (drop_one x ys) ≡ true
unfolding drop_one
has-drop_one x z [] h n = cc
has-drop_one x z (y ∷ ys) h n =
    ground (arith, has-drop_one x z ys, str_eq_iff x y, str_eq_iff z y, str_eq_iff z x)

-- A list without repetition is no longer than a list that holds its texts.
pub length-le_of_subset :
    (xs ys : List String) → IsDistinct xs → IsSubset xs ys → length xs ≤ length ys
length-le_of_subset [] ys d s = omega arith
length-le_of_subset (x ∷ xs) ys d s =
    let found = s x (has_head x xs) in
    let rest : IsSubset xs (drop_one x ys) =
      λ z h. has-drop_one x z ys (s z (ground arith)) (apart z h) in
    omega (arith, length-drop_one x ys found, length-le_of_subset xs (drop_one x ys) d.1 rest)
  where
    apart : (z : String) → has z xs ≡ true → str_eq z x ≡ false
    apart z h = ground (arith, d.0, str_eq_iff z x)

-- Of two lists of one length the distinct one, if it is part of the other, is all of it.
pub subset_of_length :
    (xs ys : List String) → IsDistinct xs → IsSubset xs ys → length ys ≤ length xs → IsSubset ys xs
subset_of_length xs ys d s l y h = elim (Bool-cases (has y xs)) [
  | inl e ↦ e
  | inr e ↦ absurd (omega (arith, length-le_of_subset (y ∷ xs) ys (e, d) (both e)))
]
  where
    both : has y xs ≡ false → IsSubset (y ∷ xs) ys
    both e z k = ground (arith, s z, h, str_eq_iff z y)

-- sort.Strings: the sorted arrangement is unique, so that the method does not matter.
pub insert : String → List String → List String
insert x [] = x ∷ []
insert x (y ∷ ys) = if str_le x y then x ∷ y ∷ ys else y ∷ insert x ys

unfoldable pub sort : List String → List String
unfolding insert
sort [] = []
sort (x ∷ xs) = insert x (sort xs)

count-insert : (z x : String) (ys : List String) → count z (insert x ys) ≡ count z (x ∷ ys)
unfolding insert
count-insert z x [] = refl
count-insert z x (y ∷ ys) = ground (arith, count-insert z x ys)

pub count-sort : (z : String) (xs : List String) → count z (sort xs) ≡ count z xs
unfolding sort
count-sort z [] = refl
count-sort z (x ∷ xs) = omega (arith, count-insert z x (sort xs), count-sort z xs)

has-insert : (z x : String) (ys : List String) → has z (insert x ys) ≡ has z (x ∷ ys)
unfolding insert
has-insert z x [] = refl
has-insert z x (y ∷ ys) = ground (arith, has-insert z x ys)

pub has-sort : (z : String) (xs : List String) → has z (sort xs) ≡ has z xs
unfolding sort
has-sort z [] = refl
has-sort z (x ∷ xs) = ground (arith, has-insert z x (sort xs), has-sort z xs)

IsDistinct-insert :
    (x : String) (ys : List String) → has x ys ≡ false → IsDistinct ys → IsDistinct (insert x ys)
unfolding insert
IsDistinct-insert x [] h d = (refl, tt)
IsDistinct-insert x (y ∷ ys) h d =
    ground
      (arith, IsDistinct-insert x ys, has-insert y x ys, d.0, d.1, str_eq_iff x y, str_eq_iff y x)

pub IsDistinct-sort : (xs : List String) → IsDistinct xs → IsDistinct (sort xs)
unfolding sort
IsDistinct-sort [] d = tt
IsDistinct-sort (x ∷ xs) d =
    IsDistinct-insert x (sort xs) (has-sort x xs ∙ d.0) (IsDistinct-sort xs d.1)

-- Each text stands before the next in byte order.
abbrev pub IsSorted : List String → Type 0
IsSorted [] = Unit
IsSorted (x ∷ []) = Unit
IsSorted (x ∷ y ∷ ys) = (str_le x y ≡ true) × IsSorted (y ∷ ys)

IsSorted-insert : (x : String) (ys : List String) → IsSorted ys → IsSorted (insert x ys)
unfolding insert
IsSorted-insert x [] h = tt
IsSorted-insert x (y ∷ []) h = ground (arith, str_le_total x y)
IsSorted-insert x (y ∷ z ∷ ys) h =
    ground (arith, h.0, h.1, str_le_total x y, IsSorted-insert x (z ∷ ys) h.1)

pub IsSorted-sort : (xs : List String) → IsSorted (sort xs)
unfolding sort
IsSorted-sort [] = tt
IsSorted-sort (x ∷ xs) = IsSorted-insert x (sort xs) (IsSorted-sort xs)

pub has-select :
    (p : String → Bool) (z : String) (xs : List String)
    → has z (select p xs) ≡ true
    → (has z xs ≡ true) × (p z ≡ true)
has-select p z [] h = cc
has-select p z (x ∷ xs) h = ground (arith, has-select p z xs, str_eq_iff z x)

pub select-has :
    (p : String → Bool) (z : String) (xs : List String)
    → has z xs ≡ true
    → p z ≡ true
    → has z (select p xs) ≡ true
select-has p z [] h k = cc
select-has p z (x ∷ xs) h k = ground (arith, select-has p z xs, str_eq_iff z x)

pub IsDistinct-select :
    (p : String → Bool) (xs : List String) → IsDistinct xs → IsDistinct (select p xs)
IsDistinct-select p [] d = tt
IsDistinct-select p (x ∷ xs) d = ground (arith, d.0, IsDistinct-select p xs d.1, has-select p x xs)
