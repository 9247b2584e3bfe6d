-- ===== src/State/Table/Find.antt =====
-- What a query finds after a statement.
use mathlib.Core.Option
use vortex_dispatch.Prelude.{Bool, List, [], arith, false, if◌then◌else◌, refl, ◌++◌, ◌∷◌, ◌≡◌}
use vortex_dispatch.State.Table.{find_where, update_where}

module _ {ℓ} {R : Type ℓ} where
  pub find_where-update :
      (q p : R → Bool) (f : R → R) (rs : List R)
      → ((r : R) → q (f r) ≡ q r)
      → find_where q (update_where p f rs)
        ≡ Option.map (λ r. if p r then f r else r) (find_where q rs)
  unfolding update_where
  find_where-update q p f [] h = refl
  find_where-update q p f (r ∷ rs) h = ground (arith, h r, find_where-update q p f rs h)

  pub find_where-append :
      (q : R → Bool) (rs : List R) (r : R)
      → q r ≡ false
      → find_where q (rs ++ r ∷ []) ≡ find_where q rs
  find_where-append q [] r h = rw h
  find_where-append q (x ∷ rs) r h = ground (arith, find_where-append q rs r h)
