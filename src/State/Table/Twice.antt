-- ===== src/State/Table/Twice.antt =====
-- Doing a statement twice is doing it once.
use vortex_dispatch.Prelude.{
  Bool, Bool-cases, List, [], ap₂, arith, false, if◌then◌else◌, inl, inr, map, refl, sym, true,
  ◌++◌, ◌∙◌, ◌∷◌, ◌≡◌,
}
use vortex_dispatch.State.Table.{
  any_same, insert_or_ignore, insert_or_replace, update_where, upsert, without,
}

module _ {ℓ} {R : Type ℓ} where
  update_one_idem :
      (p : R → Bool) (f : R → R) (r : R)
      → f (f r) ≡ f r
      → let r' = if p r then f r else r in (if p r' then f r' else r') ≡ r'
  update_one_idem p f r h = elim (Bool-cases (p r)) [
    | inr e ↦ rw (e, e)
    | inl e ↦ rw e (elim (Bool-cases (p (f r))) [ inl k ↦ rw k h | inr k ↦ rw k ])
  ]

  pub update_where_idem :
      (p : R → Bool) (f : R → R) (rs : List R)
      → ((r : R) → f (f r) ≡ f r)
      → update_where p f (update_where p f rs) ≡ update_where p f rs
  unfolding update_where
  update_where_idem p f [] h = refl
  update_where_idem p f (r ∷ rs) h =
      ap₂ ◌∷◌ (update_one_idem p f r (h r)) (update_where_idem p f rs h)

  again_one :
      {B : Type ℓ} (view : R → B) (p : R → Bool) (f f' : R → R) (r : R)
      → view (f' (f r)) ≡ view (f r)
      → let once = if p r then f r else r in view (if p once then f' once else once) ≡ view once
  again_one view p f f' r h = elim (Bool-cases (p r)) [
    | inr e ↦ rw (e, e)
    | inl e ↦ rw e (elim (Bool-cases (p (f r))) [ inl k ↦ rw k h | inr k ↦ rw k ])
  ]

  -- A second update that a view of the rows does not see.
  pub update_where-again :
      {B : Type ℓ} (view : R → B) (p : R → Bool) (f f' : R → R) (rs : List R)
      → ((r : R) → view (f' (f r)) ≡ view (f r))
      → map view (update_where p f' (update_where p f rs)) ≡ map view (update_where p f rs)
  unfolding update_where
  update_where-again view p f f' [] h = refl
  update_where-again view p f f' (r ∷ rs) h =
      ap₂ ◌∷◌ (again_one view p f f' r (h r)) (update_where-again view p f f' rs h)

  any_same-last :
      (same : R → R → Bool) (r : R) (rs : List R)
      → same r r ≡ true
      → any_same same r (rs ++ r ∷ []) ≡ true
  any_same-last same r [] h = rw h
  any_same-last same r (q ∷ rs) h = ground (arith, any_same-last same r rs h)

  pub insert_or_ignore_idem :
      (same : R → R → Bool) (r r' : R) (rs : List R)
      → same r' r ≡ true
      → ((q : R) → same r' q ≡ same r q)
      → insert_or_ignore same r' (insert_or_ignore same r rs) ≡ insert_or_ignore same r rs
  unfolding insert_or_ignore
  insert_or_ignore_idem same r r' rs h k = elim (Bool-cases (any_same same r rs)) [
    | inl a ↦ rw (a, any_same-eq rs, a)
    | inr a ↦ rw (a, any_same-eq (rs ++ r ∷ []), any_same-last same r rs (sym (k r) ∙ h))
  ]
    where
      any_same-eq : (qs : List R) → any_same same r' qs ≡ any_same same r qs
      any_same-eq [] = refl
      any_same-eq (q ∷ qs) = ground (arith, k q, any_same-eq qs)

  without-append :
      (same : R → R → Bool) (r : R) (rs : List R)
      → same r r ≡ true
      → without same r (without same r rs ++ r ∷ []) ≡ without same r rs
  without-append same r [] h = rw h
  without-append same r (q ∷ rs) h = elim (Bool-cases (same r q)) [
    | inl e ↦ rw e (without-append same r rs h)
    | inr e ↦ rw (e, e, without-append same r rs h)
  ]

  pub insert_or_replace_idem :
      (same : R → R → Bool) (r : R) (rs : List R)
      → same r r ≡ true
      → insert_or_replace same r (insert_or_replace same r rs) ≡ insert_or_replace same r rs
  unfolding insert_or_replace
  insert_or_replace_idem same r rs h = rw (without-append same r rs h)

  any_same-update :
      (same : R → R → Bool) (r : R) (p : R → Bool) (f : R → R) (rs : List R)
      → ((q : R) → same r (f q) ≡ same r q)
      → any_same same r (update_where p f rs) ≡ any_same same r rs
  unfolding update_where
  any_same-update same r p f [] h = refl
  any_same-update same r p f (q ∷ rs) h = ground (arith, h q, any_same-update same r p f rs h)

  update-none :
      (same : R → R → Bool) (r : R) (f : R → R) (rs : List R)
      → any_same same r rs ≡ false
      → f r ≡ r
      → update_where (same r) f (rs ++ r ∷ []) ≡ rs ++ r ∷ []
  unfolding update_where
  update-none same r f [] a e = elim (Bool-cases (same r r)) [ inl k ↦ rw (k, e) | inr k ↦ rw k ]
  update-none same r f (q ∷ rs) a e =
      let k : same r q ≡ false = ground arith in rw (k, update-none same r f rs (ground arith) e)

  pub upsert_idem :
      (same : R → R → Bool) (r : R) (f : R → R) (rs : List R)
      → same r r ≡ true
      → f r ≡ r
      → ((q : R) → f (f q) ≡ f q)
      → ((q : R) → same r (f q) ≡ same r q)
      → upsert same r f (upsert same r f rs) ≡ upsert same r f rs
  unfolding upsert
  upsert_idem same r f rs h e i k = elim (Bool-cases (any_same same r rs)) [
    | inl a ↦ rw (a, any_same-update same r (same r) f rs k, a, update_where_idem (same r) f rs i)
    | inr a ↦ rw (a, any_same-last same r rs h, update-none same r f rs a e)
  ]
