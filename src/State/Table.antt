-- ===== src/State/Table.antt =====
-- The SQL statements of the projection on tables as lists of rows, in the order of insertion.
pub mod Twice
pub mod Find
use vortex_dispatch.Prelude.{
  Bool, List, Option, [], false, if◌then◌else◌, none, some, ◌++◌, ◌||◌, ◌∷◌,
}

module _ {ℓ} {R : Type ℓ} where
  -- UPDATE … SET … WHERE …
  unfoldable pub update_where : (R → Bool) → (R → R) → List R → List R
  update_where p f [] = []
  update_where p f (r ∷ rs) = (if p r then f r else r) ∷ update_where p f rs

  -- Is a row with this primary key there? `same` compares the keys of two rows.
  abbrev pub any_same : (R → R → Bool) → R → List R → Bool
  any_same same r [] = false
  any_same same r (q ∷ rs) = same r q || any_same same r rs

  -- INSERT: `none` is the violated primary key.
  unfoldable pub insert_row : (R → R → Bool) → R → List R → Option (List R)
  insert_row same r rs = if any_same same r rs then none else some (rs ++ r ∷ [])

  -- INSERT OR IGNORE
  unfoldable pub insert_or_ignore : (R → R → Bool) → R → List R → List R
  insert_or_ignore same r rs = if any_same same r rs then rs else rs ++ r ∷ []

  abbrev pub without : (R → R → Bool) → R → List R → List R
  without same r [] = []
  without same r (q ∷ rs) = if same r q then without same r rs else q ∷ without same r rs

  -- INSERT OR REPLACE: the row of that key is deleted, and the new one is the last.
  unfoldable pub insert_or_replace : (R → R → Bool) → R → List R → List R
  insert_or_replace same r rs = without same r rs ++ r ∷ []

  -- INSERT … ON CONFLICT DO UPDATE
  unfoldable pub upsert : (R → R → Bool) → R → (R → R) → List R → List R
  upsert same r f rs = if any_same same r rs then update_where (same r) f rs else rs ++ r ∷ []

  -- SELECT … WHERE …, of which the first row is read.
  abbrev pub find_where : (R → Bool) → List R → Option R
  find_where p [] = none
  find_where p (r ∷ rs) = if p r then some r else find_where p rs
