-- ===== src/Sqlsafety/Word.antt =====
-- The first word that ClassifyQuery cuts off, described without the cutting.
use vortex_dispatch.Prelude.{
  All, Bool, Bool-cases, List, [], ap, false, inl, inr, refl, subst, sym, true, ℕ, ◌++◌, ◌∙◌, ◌∷◌,
  ◌≡◌, ◌≢◌, ◌⊎◌,
}
use vortex_dispatch.Sqlsafety.Pattern.{before_delimiter, first_word, is_delimiter}

abbrev pub ends_word : List ℕ → Bool
ends_word [] = true
ends_word (x ∷ xs) = is_delimiter x

abbrev pub begins_apart : List ℕ → Bool
begins_apart [] = false
begins_apart (x ∷ xs) = is_delimiter x

abbrev pub IsUnbroken : List ℕ → Type 0
IsUnbroken w = All (λ c. is_delimiter c ≡ false) w

-- The word stands before the first delimiter of the text; a text that begins with a delimiter is
-- taken whole.
abbrev pub IsFirstWord : List ℕ → List ℕ → Type 0
IsFirstWord w text =
    ((rest : List ℕ) × (text ≡ w ++ rest) × (w ≢ []) × IsUnbroken w × (ends_word rest ≡ true))
    ⊎ ((begins_apart text ≡ true) × (w ≡ text))

before_delimiter-IsUnbroken :
    (text : List ℕ)
    → (rest : List ℕ) × (text ≡ before_delimiter text ++ rest)
      × IsUnbroken (before_delimiter text)
      × (ends_word rest ≡ true)
unfolding before_delimiter
before_delimiter-IsUnbroken [] = ([], refl, tt, refl)
before_delimiter-IsUnbroken (x ∷ xs) = elim (Bool-cases (is_delimiter x)) [
  | inl y ↦ rw y (x ∷ xs, refl, tt, y)
  | inr n ↦
      let (rest, same, unbroken, ends) = before_delimiter-IsUnbroken xs in
      rw n (rest, ap (λ t. x ∷ t) same, (n, unbroken), ends)
]

before_delimiter-append :
    (w rest : List ℕ) → IsUnbroken w → ends_word rest ≡ true → before_delimiter (w ++ rest) ≡ w
unfolding before_delimiter
before_delimiter-append [] [] u e = refl
before_delimiter-append [] (x ∷ xs) u e = rw e refl
before_delimiter-append (x ∷ w) rest u e =
    rw u.0 (ap (λ t. x ∷ t) (before_delimiter-append w rest u.1 e))

pub first_word-IsFirstWord : (x : ℕ) (xs : List ℕ) → IsFirstWord (first_word (x ∷ xs)) (x ∷ xs)
unfolding first_word before_delimiter
first_word-IsFirstWord x xs = elim (Bool-cases (is_delimiter x)) [
  | inl y ↦ inr (y, rw (first_word, y) refl)
  | inr n ↦
      let (rest, same, unbroken, ends) = before_delimiter-IsUnbroken xs in
      let e : first_word (x ∷ xs) ≡ x ∷ before_delimiter xs = rw (first_word, n) refl in
      subst (λ w. IsFirstWord w (x ∷ xs)) (sym e)
        (inl (rest, ap (λ t. x ∷ t) same, λ h. cc h, (n, unbroken), ends))
]

pub IsFirstWord-unique :
    (w : List ℕ) (x : ℕ) (xs : List ℕ) → IsFirstWord w (x ∷ xs) → w ≡ first_word (x ∷ xs)
unfolding first_word
IsFirstWord-unique w x xs (inr (y, e)) = e ∙ rw (first_word, y) refl
IsFirstWord-unique [] x xs (inl (rest, same, filled, u, e)) = absurd (filled refl)
IsFirstWord-unique (c ∷ w) x xs (inl (rest, same, filled, u, e)) =
    let whole : first_word (c ∷ w ++ rest) ≡ before_delimiter (c ∷ w ++ rest) =
      rw (first_word, u.0) refl in
    sym (ap first_word same ∙ whole ∙ before_delimiter-append (c ∷ w) rest u e)
