-- ===== src/Sqlsafety/Validate.antt =====
-- Which queries ValidateSQL lets through.
use vortex_dispatch.Prelude.{
  All, Bool-cases, List, Option-cases, String, [], arith, false, has, inl, inr, none, refl, str_eq,
  str_eq_iff, subst, sym, true, ℕ, ◌↔◌, ◌∙◌, ◌∷◌, ◌≡◌, ◌⊎◌,
}
use vortex_dispatch.Sqlsafety.{
  TextOps, by_kind, calls, classify_query, contains_denied_function, default_function_denylist,
  first_denied, first_extra, has_byte, is_blank, is_multi_statement, read_only_leading_keywords,
  semicolon, strip_sql_comments_and_strings, valid, validate_sql,
}
use vortex_dispatch.Sqlsafety.Pattern.{first_word}
use vortex_dispatch.Sqlsafety.Tokens.{AreTokens, Token, all_kept, print_tokens, strip-print_tokens}
use vortex_dispatch.Sqlsafety.Word.{IsFirstWord, IsFirstWord-unique, first_word-IsFirstWord}

-- No name of the operator's list is called in the text. A name is looked for without the space
-- around it, and a blank one is skipped.
abbrev pub IsExtraUncalled : TextOps → List ℕ → List String → Type 0
IsExtraUncalled ops text [] = Unit
IsExtraUncalled ops text (fn ∷ fns) =
    ((str_eq (ops.trim_name fn) "" ≡ true) ⊎ (calls ops (ops.trim_name fn) text ≡ false))
    × IsExtraUncalled ops text fns

module _ (ops : TextOps) (query : List ℕ) (extra : List String) where
  abbrev stripped : List ℕ
  stripped = strip_sql_comments_and_strings query

  abbrev AreUncalled : List String → Type 0
  AreUncalled fns = All (λ fn. calls ops fn stripped ≡ false) fns

  -- The guards, on the text that the code strips.
  record IsPassed : Type 0 where
    not_blank : is_blank (ops.trim_space query) ≡ false
    one_statement : is_multi_statement ops query ≡ false
    harmless : AreUncalled default_function_denylist
    harmless_extra : IsExtraUncalled ops stripped extra
    has_statement : is_blank (ops.trim_space stripped) ≡ false
    leading :
        has (ops.to_upper (first_word (ops.trim_space stripped))) read_only_leading_keywords ≡ true

  first_extra-none :
      (fns : List String) → (first_extra ops stripped fns ≡ none) ↔ IsExtraUncalled ops stripped fns
  first_extra-none [] = (λ h. tt, λ h. refl)
  first_extra-none (fn ∷ fns) = ground (arith, first_extra-none fns)

  first_denied-none :
      (fns : List String)
      → (first_denied ops stripped fns extra ≡ none)
        ↔ (AreUncalled fns × IsExtraUncalled ops stripped extra)
  first_denied-none [] =
      (λ h. (tt, (first_extra-none extra).0 h), λ h. (first_extra-none extra).1 h.1)
  first_denied-none (fn ∷ fns) = ground (arith, first_denied-none fns)

  by_kind-valid :
      (by_kind ops (classify_query ops query) ≡ valid)
      → (is_blank (ops.trim_space stripped) ≡ false)
        × (has (ops.to_upper (first_word (ops.trim_space stripped))) read_only_leading_keywords
            ≡ true)
  unfolding classify_query
  by_kind-valid h = elim (Bool-cases (is_blank (ops.trim_space stripped))) [
    | inl blank ↦ absurd (ground (arith, h, blank))
    | inr text ↦
        elim (Bool-cases
          (has (ops.to_upper (first_word (ops.trim_space stripped))) read_only_leading_keywords)) [
            | inl leads ↦ (text, leads)
            | inr other ↦ absurd (ground (arith, h, text, other))
          ]
  ]

  contains_denied_function-none :
      (contains_denied_function ops query extra ≡ none)
      ↔ (AreUncalled default_function_denylist × IsExtraUncalled ops stripped extra)
  unfolding contains_denied_function
  contains_denied_function-none = first_denied-none default_function_denylist

  validate_sql-uncalled :
      is_blank (ops.trim_space query) ≡ false
      → is_multi_statement ops query ≡ false
      → contains_denied_function ops query extra ≡ none
      → validate_sql ops query false extra ≡ by_kind ops (classify_query ops query)
  unfolding validate_sql
  validate_sql-uncalled text one uncalled = rw (text, one, uncalled) refl

  valid-by_kind :
      is_blank (ops.trim_space stripped) ≡ false
      → has (ops.to_upper (first_word (ops.trim_space stripped))) read_only_leading_keywords ≡ true
      → by_kind ops (classify_query ops query) ≡ valid
  unfolding classify_query
  valid-by_kind text leads = rw (text, leads) refl

  validate_sql-IsPassed : (validate_sql ops query false extra ≡ valid) ↔ IsPassed
  unfolding validate_sql
  validate_sql-IsPassed = (
    λ h. elim (Bool-cases (is_blank (ops.trim_space query))) [
      | inl blank ↦ absurd (ground (arith, h, blank))
      | inr text ↦ elim (Bool-cases (is_multi_statement ops query)) [
        | inl several ↦ absurd (ground (arith, h, text, several))
        | inr one ↦ elim (Option-cases (contains_denied_function ops query extra)) [
          | inl uncalled ↦
              let kind = by_kind-valid (sym (validate_sql-uncalled text one uncalled) ∙ h) in
              let calls = contains_denied_function-none.0 uncalled in
              record {
                not_blank = text;
                one_statement = one;
                harmless = calls.0;
                harmless_extra = calls.1;
                has_statement = kind.0;
                leading = kind.1;
              }
          | inr (fn, there) ↦ absurd (ground (arith, h, text, one, there))
        ]
      ]
    ],
    λ k.
        let uncalled = contains_denied_function-none.1 (k.harmless, k.harmless_extra) in
        validate_sql-uncalled k.not_blank k.one_statement uncalled
        ∙ valid-by_kind k.has_statement k.leading,
  )

-- The functions that must not be called, by their names in Postgres.
abbrev pub dangerous_functions : List String
dangerous_functions =
    "pg_terminate_backend" ∷ "pg_cancel_backend" ∷ "lo_import" ∷ "lo_export" ∷ "pg_read_file"
    ∷ "pg_ls_dir" ∷ "pg_reload_conf" ∷ "pg_stat_file" ∷ []

abbrev pub IsReadingKeyword : String → Type 0
IsReadingKeyword w = (w ≡ "SELECT") ⊎ (w ≡ "SHOW") ⊎ (w ≡ "VALUES") ⊎ (w ≡ "TABLE")

module _ (ops : TextOps) (tokens : List Token) (extra : List String) where
  abbrev visible : List ℕ
  visible = all_kept tokens

  -- What is asked of the tokens of a query, in terms of their visible text.
  pub record IsReadOnly : Type 0 where
    pub not_blank : is_blank (ops.trim_space (print_tokens tokens)) ≡ false
    pub no_semicolon : has_byte semicolon (ops.trim_semicolons (ops.trim_space visible)) ≡ false
    pub harmless : All (λ fn. calls ops fn visible ≡ false) dangerous_functions
    pub harmless_extra : IsExtraUncalled ops visible extra
    pub has_text : is_blank (ops.trim_space visible) ≡ false
    pub leading :
        (w : List ℕ) × IsFirstWord w (ops.trim_space visible) × IsReadingKeyword (ops.to_upper w)

  keyword-IsReadingKeyword :
      (w : String) → (has w read_only_leading_keywords ≡ true) ↔ IsReadingKeyword w
  keyword-IsReadingKeyword w = ground (
    arith,
    str_eq_iff w "SELECT",
    str_eq_iff w "SHOW",
    str_eq_iff w "VALUES",
    str_eq_iff w "TABLE",
  )

  abbrev IsLed : List ℕ → Type 0
  IsLed text = (w : List ℕ) × IsFirstWord w text × IsReadingKeyword (ops.to_upper w)

  keyword-IsLed :
      (text : List ℕ)
      → is_blank text ≡ false
      → (has (ops.to_upper (first_word text)) read_only_leading_keywords ≡ true) ↔ IsLed text
  keyword-IsLed [] h = absurd (cc h)
  keyword-IsLed (x ∷ xs) h = (
    λ k. (
      first_word (x ∷ xs),
      first_word-IsFirstWord x xs,
      (keyword-IsReadingKeyword (ops.to_upper (first_word (x ∷ xs)))).0 k,
    ),
    λ (w, first, k).
        (keyword-IsReadingKeyword (ops.to_upper (first_word (x ∷ xs)))).1
          (subst (λ w. IsReadingKeyword (ops.to_upper w)) (IsFirstWord-unique w x xs first) k),
  )

  -- Without the write flag ValidateSQL lets the text of a list of tokens through exactly if it is
  -- not blank, the tokens' visible text, which is that outside of comments and literals, has no
  -- semicolon once its space and its last semicolons are trimmed, no function of the denylist or of
  -- the operator's list is called in the visible text, which is not blank either, and its first
  -- word is SELECT, SHOW, VALUES or TABLE in upper case.
  pub validate_sql-IsReadOnly :
      AreTokens tokens → (validate_sql ops (print_tokens tokens) false extra ≡ valid) ↔ IsReadOnly
  unfolding is_multi_statement
  validate_sql-IsReadOnly h =
      let query = print_tokens tokens in
      let e = strip-print_tokens tokens h in
      (
        λ v.
            let k = (validate_sql-IsPassed ops query extra).0 v in
            record {
              not_blank = k.not_blank;
              no_semicolon =
                  subst (λ t. has_byte semicolon (ops.trim_semicolons (ops.trim_space t)) ≡ false) e
                    k.one_statement;
              harmless =
                  subst (λ t. All (λ fn. calls ops fn t ≡ false) dangerous_functions) e k.harmless;
              harmless_extra = subst (λ t. IsExtraUncalled ops t extra) e k.harmless_extra;
              has_text = subst (λ t. is_blank (ops.trim_space t) ≡ false) e k.has_statement;
              leading =
                  subst (λ t. IsLed (ops.trim_space t)) e
                    ((keyword-IsLed (ops.trim_space (stripped ops query extra)) k.has_statement).0
                      k.leading);
            },
        λ k. (validate_sql-IsPassed ops query extra).1 (record {
          not_blank = k.not_blank;
          one_statement =
              subst (λ t. has_byte semicolon (ops.trim_semicolons (ops.trim_space t)) ≡ false)
                (sym e) k.no_semicolon;
          harmless =
              subst (λ t. All (λ fn. calls ops fn t ≡ false) dangerous_functions) (sym e)
                k.harmless;
          harmless_extra = subst (λ t. IsExtraUncalled ops t extra) (sym e) k.harmless_extra;
          has_statement = subst (λ t. is_blank (ops.trim_space t) ≡ false) (sym e) k.has_text;
          leading =
              (keyword-IsLed (ops.trim_space (stripped ops query extra))
                  (subst (λ t. is_blank (ops.trim_space t) ≡ false) (sym e) k.has_text)).1
                (subst (λ t. IsLed (ops.trim_space t)) (sym e) k.leading);
        }),
      )
