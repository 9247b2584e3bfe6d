-- ===== src/Devdb/Ports.antt =====
-- The allocator of host ports (internal/devdb/docker/ports.go). strings.SplitN, strings.TrimSpace
-- and strconv.Atoi come from Go's library, and are parameters.
pub mod Lowest
use vortex_dispatch.Prelude.{
  Bool, List, Option, String, [], false, if◌then◌else◌, ltb, none, some, suc, zero, ℕ, ◌+◌, ◌-◌,
  ◌==◌, ◌||◌, ◌∷◌,
}

-- An int that Atoi returns.
pub data ℤ : Type 0 where
  pos : ℕ → ℤ
  negsuc : ℕ → ℤ

-- `taken` holds the keys of the map.
pub record Allocator : Type 0 where
  pub taken : List ℕ
  pub start : ℕ
  pub end : ℕ

pub data NewResult : Type 0 where
  invalid_range : NewResult
  invalid_start : NewResult
  invalid_end : NewResult
  allocator : Allocator → NewResult

pub data Acquired : Type 0 where
  exhausted : Acquired
  granted : ℕ → Allocator → Acquired

abbrev pub is_taken : List ℕ → ℕ → Bool
is_taken [] port = false
is_taken (t ∷ ts) port = t == port || is_taken ts port

-- The loop of Acquire over the `n` ports from `port` on.
unfoldable pub lowest_free : ℕ → ℕ → List ℕ → Option ℕ
lowest_free zero port taken = none
lowest_free (suc n) port taken =
    let above = lowest_free n (port + 1) taken in if is_taken taken port then above else some port

unfoldable pub acquire : Allocator → Acquired
acquire a = elim (lowest_free (a.end + 1 - a.start) a.start a.taken) [
  | none ↦ exhausted
  | some port ↦ granted port (record a { taken = port ∷ a.taken })
]

abbrev pub delete_port : ℕ → List ℕ → List ℕ
delete_port port [] = []
delete_port port (t ∷ ts) =
    let others = delete_port port ts in if t == port then others else t ∷ others

unfoldable pub release : ℕ → Allocator → Allocator
release port a = record a { taken = delete_port port a.taken }

module _ (split2 : String → Option (String × String)) (trim_space : String → String)
    (atoi : String → Option ℤ) where
  -- A start that is not positive, and an end below the start, are refused.
  abbrev new_end : ℕ → Option ℤ → NewResult
  new_end start none = invalid_end
  new_end start (some (negsuc n)) = invalid_end
  new_end start (some (pos n)) =
      if ltb n start then invalid_end else allocator (record { taken = []; start = start; end = n })

  abbrev new_start : Option ℤ → Option ℤ → NewResult
  new_start none last = invalid_start
  new_start (some (negsuc n)) last = invalid_start
  new_start (some (pos zero)) last = invalid_start
  new_start (some (pos (suc n))) last = new_end (suc n) last

  unfoldable pub new_allocator : String → NewResult
  new_allocator range_spec = elim (split2 range_spec) [
    | none ↦ invalid_range
    | some (first, last) ↦ new_start (atoi (trim_space first)) (atoi (trim_space last))
  ]
