-- ===== src/Prelude/Text.antt =====
-- Texts compared as wholes: equality, order, and the sort of Go's sort.Strings.
use Prim.Native.Nat.{Ordering}
use Prim.Native.String.{String, compare}
use Prim.Native.String.compare as compare_clauses
use mathlib.Core.Path.{◌≡◌, refl}
use mathlib.Core.Logic.{◌↔◌}
use mathlib.Core.Bool.{Bool, true, false}
use native.Mathlib.Omega.{arith}
use text.Mathlib.Text.{◌==◌}
use text.Mathlib.TextEquality.{eq_iff}

abbrev pub str_eq : String → String → Bool
str_eq s t = s == t

pub str_eq_iff : (s t : String) → (str_eq s t ≡ true) ↔ (s ≡ t)
str_eq_iff s t = eq_iff s t

pub str_eq_refl : (s : String) → str_eq s s ≡ true
str_eq_refl s = (eq_iff s s).1 refl

-- The order of sort.Strings: by bytes.
abbrev pub str_le : String → String → Bool
str_le s t = elim (compare s t) [ Ordering.gt ↦ false | _ ↦ true ]

-- One of two texts stands first.
pub str_le_total : (s t : String) → str_le s t ≡ false → str_le t s ≡ true
str_le_total String.[] String.[] h = refl
str_le_total String.[] (String.◌∷◌ d t) h =
    let k : ◌≡◌ {A = Bool} true false = rw (compare_clauses.nil-cons d t, str_le) at h in cc
str_le_total (String.◌∷◌ c s) String.[] h = rw (compare_clauses.nil-cons c s, str_le)
str_le_total (String.◌∷◌ c s) (String.◌∷◌ d t) h =
    rw (compare_clauses.cons-cons d c t s, str_le)
      (ground (arith, compare_clauses.cons-cons c d s t, str_le_total s t))
