-- ===== src/Prelude/Maps.antt =====
-- Go maps with text keys as association lists. A read of a missing key gives the zero value.
use Prim.Native.String.{String}
use mathlib.Core.Path.{◌≡◌, refl}
use mathlib.Core.Bool.{true, false}
use mathlib.Core.List.{List, [], ◌∷◌}
use native.Mathlib.Omega.{arith}
use vortex_dispatch.Prelude.Tests.{if◌then◌else◌}
use vortex_dispatch.Prelude.Members.{has, IsDistinct}
use vortex_dispatch.Prelude.Text.{str_eq, str_eq_iff}

abbrev pub Dict {ℓ} : Type ℓ → Type ℓ
Dict V = List (String × V)

module _ {ℓ} {V : Type ℓ} where
  -- `m[k]` with the zero value `d`.
  abbrev pub value : V → Dict V → String → V
  value d [] k = d
  value d ((j, v) ∷ m) k = if str_eq j k then v else value d m k

  -- `m[k] = v`
  unfoldable pub assign : String → V → Dict V → Dict V
  assign k v [] = (k, v) ∷ []
  assign k v ((j, w) ∷ m) = if str_eq j k then (k, v) ∷ m else (j, w) ∷ assign k v m

  abbrev pub keys : Dict V → List String
  keys [] = []
  keys ((j, v) ∷ m) = j ∷ keys m

  pub value-assign :
      (d : V) (k j : String) (v : V) (m : Dict V)
      → value d (assign k v m) j ≡ (if str_eq k j then v else value d m j)
  unfolding assign
  value-assign d k j v [] = refl
  value-assign d k j v ((i, w) ∷ m) =
      ground (arith, str_eq_iff k j, str_eq_iff i k, str_eq_iff i j, value-assign d k j v m)

  pub has-keys-assign :
      (k j : String) (v : V) (m : Dict V)
      → has j (keys (assign k v m)) ≡ (if str_eq j k then true else has j (keys m))
  unfolding assign
  has-keys-assign k j v [] = ground arith
  has-keys-assign k j v ((i, w) ∷ m) =
      ground (arith, str_eq_iff i k, str_eq_iff j i, str_eq_iff j k, has-keys-assign k j v m)

  pub IsDistinct-keys-assign :
      (k : String) (v : V) (m : Dict V) → IsDistinct (keys m) → IsDistinct (keys (assign k v m))
  unfolding assign
  IsDistinct-keys-assign k v [] h = (refl, tt)
  IsDistinct-keys-assign k v ((i, w) ∷ m) h =
      ground
        (arith, h.0, h.1, str_eq_iff i k, has-keys-assign k i v m, IsDistinct-keys-assign k v m)

  -- The value of a missing key is the zero value.
  pub value-missing : (d : V) (k : String) (m : Dict V) → has k (keys m) ≡ false → value d m k ≡ d
  value-missing d k [] h = refl
  value-missing d k ((i, w) ∷ m) h =
      ground (arith, str_eq_iff i k, str_eq_iff k i, value-missing d k m)
