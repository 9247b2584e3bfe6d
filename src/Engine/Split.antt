-- ===== src/Engine/Split.antt =====
-- Splitting a story into children (internal/engine/escalation.go): ValidateSplitWithEdges. The
-- regular expression of safe suffixes is a parameter.
pub mod Search
pub mod Complete
pub mod Accepts
pub mod Result
pub mod Children
pub mod Owners
pub mod Valid
pub mod Reaches
use vortex_dispatch.Prelude.{
  Bool, Dict, List, Option, String, [], assign, false, has, if◌then◌else◌, leb, length, ltb, none,
  not, some, str_eq, suc, true, value, zero, ℕ, ◌++◌, ◌||◌, ◌∷◌,
}

pub record SplitChild : Type 0 where
  pub id : String
  pub suffix : String
  pub title : String
  pub description : String
  pub acceptance_criteria : String
  pub complexity : ℕ
  pub owned_files : List String

pub data SplitError : Type 0 where
  max_depth_reached : SplitError
  unsafe_suffix : String → SplitError
  duplicate_suffix : String → SplitError
  edge_length : ℕ → SplitError
  unknown_suffix : List String → SplitError
  overlapping_file : String → SplitError
  too_complex : ℕ → SplitError

pub data Checked (A : Type 0) : Type 0 where
  ok : A → Checked A
  refused : SplitError → Checked A
  out_of_fuel : Checked A

infixl 1 ◌>>=◌
abbrev pub ◌>>=◌ : {A : Type 0} {B : Type 0} → Checked A → (A → Checked B) → Checked B
ok a >>= next_check = next_check a
refused e >>= next_check = refused e
out_of_fuel >>= next_check = out_of_fuel

abbrev pub max_split_depth : ℕ
max_split_depth = 2

-- What the loop over the successors of a node ends with: the node that is looked for, or the seen
-- nodes and the stack, its top first.
pub data Scan : Type 0 where
  hit : Scan
  more : List String → List String → Scan

unfoldable pub scan : String → List String → List String → List String → Scan
scan to [] seen stack = more seen stack
scan to (m ∷ ms) seen stack =
    let known = scan to ms seen stack in
    let fresh = scan to ms (m ∷ seen) (m ∷ stack) in
    if str_eq m to then hit else (if has m seen then known else fresh)

-- The loop of `reaches`, `none` where it is cut off.
unfoldable pub search : Dict (List String) → String → ℕ → List String → List String → Option Bool
search adj to fuel seen [] = some false
search adj to zero seen (n ∷ stack) = none
search adj to (suc fuel) seen (n ∷ stack) = elim (scan to (value [] adj n) seen stack) [
  | hit ↦ some true
  | more seen' stack' ↦ search adj to fuel seen' stack'
]

unfoldable pub reaches : Dict (List String) → ℕ → String → String → Option Bool
reaches adj fuel from to = search adj to fuel (from ∷ []) (from ∷ [])

unfoldable pub ordered_by_edges : Dict (List String) → ℕ → String → String → Option Bool
ordered_by_edges adj fuel x y = if str_eq x y then some true else (elim (reaches adj fuel x y) [
  | none ↦ none
  | some b ↦ if b then some true else reaches adj fuel y x
])

module _ (is_safe_suffix : String → Bool) where
  -- The loop that fills suffixSet.
  unfoldable pub check_suffixes : List SplitChild → List String → Checked (List String)
  check_suffixes [] suffixes = ok suffixes
  check_suffixes (c ∷ cs) suffixes =
      let others = check_suffixes cs (c.suffix ∷ suffixes) in
      if not (is_safe_suffix c.suffix)
      then refused (unsafe_suffix c.suffix)
      else (if has c.suffix suffixes then refused (duplicate_suffix c.suffix) else others)

-- The loop over the edges, which builds the graph of the children.
unfoldable pub check_edges :
    List String → List (List String) → Dict (List String) → Checked (Dict (List String))
check_edges suffixes [] adj = ok adj
check_edges suffixes ((a ∷ b ∷ []) ∷ edges) adj =
    let others = check_edges suffixes edges (assign a (value [] adj a ++ b ∷ []) adj) in
    if not (has a suffixes) || not (has b suffixes)
    then refused (unknown_suffix (a ∷ b ∷ []))
    else others
check_edges suffixes (e ∷ edges) adj = refused (edge_length (length e))

module _ (adj : Dict (List String)) (fuel : ℕ) where
  -- The owners that a file has so far.
  unfoldable pub check_owners : String → String → List String → Checked (Unit {0})
  check_owners suffix file [] = ok tt
  check_owners suffix file (prev ∷ prevs) =
      let others = check_owners suffix file prevs in
      elim (ordered_by_edges adj fuel suffix prev) [
        | none ↦ out_of_fuel
        | some b ↦ if b then others else refused (overlapping_file file)
      ]

  unfoldable pub check_files :
      String → List String → Dict (List String) → Checked (Dict (List String))
  check_files suffix [] owners = ok owners
  check_files suffix (f ∷ files) owners =
      let others = check_files suffix files (assign f (value [] owners f ++ suffix ∷ []) owners) in
      check_owners suffix f (value [] owners f) >>= λ _. others

  unfoldable pub check_children : ℕ → List SplitChild → Dict (List String) → Checked (Unit {0})
  check_children max_complexity [] owners = ok tt
  check_children max_complexity (c ∷ cs) owners =
      check_files c.suffix c.owned_files owners >>= λ owners'.
      let others = check_children max_complexity cs owners' in
      if ltb max_complexity c.complexity then refused (too_complex c.complexity) else others

unfoldable pub validate_split_with_edges :
    (String → Bool) → ℕ → List SplitChild → ℕ → List (List String) → Checked (Unit {0})
validate_split_with_edges is_safe_suffix parent_depth children max_complexity edges =
    let validated = check_suffixes is_safe_suffix children [] >>= λ suffixes.
    check_edges suffixes edges [] >>= λ adj.
    check_children adj (length suffixes) max_complexity children [] in
    if leb max_split_depth parent_depth then refused max_depth_reached else validated

-- ValidateSplit
abbrev pub validate_split : (String → Bool) → ℕ → List SplitChild → ℕ → Checked (Unit {0})
validate_split is_safe_suffix parent_depth children max_complexity =
    validate_split_with_edges is_safe_suffix parent_depth children max_complexity []
