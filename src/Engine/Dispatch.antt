-- ===== src/Engine/Dispatch.antt =====
-- Which stories the dispatcher starts in a wave (internal/engine/dispatcher.go), up to the point
-- where it assigns agents to them. filepath.Match, filepath.Base and the regular expression of
-- safe ids come from Go's library, and are parameters.
pub mod Wave
pub mod Greedy
pub mod Left
pub mod Result
pub mod Chosen
use vortex_dispatch.Graph.{Dag, ready_nodes}
use vortex_dispatch.Prelude.{
  Bool, List, Option, String, [], false, has, if◌then◌else◌, length, ltb, map, none, not, select,
  some, str_eq, take, true, ℕ, ◌&&◌, ◌++◌, ◌∷◌,
}
use vortex_dispatch.State.Store.{Store, StoryStatus, draft, estimated, get_story}

pub record PlannedStory : Type 0 where
  pub id : String
  pub title : String
  pub description : String
  pub acceptance_criteria : String
  pub complexity : ℕ
  pub depends_on : List String
  pub owned_files : List String
  pub wave_hint : String

-- The entry of storyMap: the last story with this id.
abbrev pub planned_as : String → List PlannedStory → Option PlannedStory
planned_as id [] = none
planned_as id (s ∷ ss) = elim (planned_as id ss) [
  | none ↦ if str_eq s.id id then some s else none
  | some t ↦ some t
]

abbrev pub may_start : StoryStatus → Bool
may_start draft = true
may_start estimated = true
may_start _ = false

-- A story that the projection does not know may start.
abbrev pub story_dispatchable : Store → String → Bool
story_dispatchable projection id = elim (get_story projection id) [
  | none ↦ true
  | some r ↦ may_start r.status
]

-- The ready ids that may start and are planned.
unfoldable pub collect_ready : Store → List PlannedStory → List String → List PlannedStory
collect_ready projection stories [] = []
collect_ready projection stories (id ∷ ids) =
    let others = collect_ready projection stories ids in
    if story_dispatchable projection id
    then (elim (planned_as id stories) [ none ↦ others | some s ↦ s ∷ others ])
    else others

abbrev pub has_file_conflict : List String → List String → Bool
has_file_conflict [] claimed = false
has_file_conflict (f ∷ files) claimed =
    if has f claimed then true else has_file_conflict files claimed

-- `claimed` holds the keys of claimedFiles.
unfoldable pub filter_overlapping : List String → List PlannedStory → List PlannedStory
filter_overlapping claimed [] = []
filter_overlapping claimed (s ∷ ss) =
    let skipped = filter_overlapping claimed ss in
    let kept = s ∷ filter_overlapping (claimed ++ s.owned_files) ss in
    if has_file_conflict s.owned_files claimed then skipped else kept

abbrev pub is_sequential : PlannedStory → Bool
is_sequential s = str_eq s.wave_hint "sequential"

-- One sequential story alone, or parallel stories without common files.
unfoldable pub select_dispatchable : List PlannedStory → List PlannedStory
select_dispatchable ready = elim (select is_sequential ready) [
  | [] ↦ filter_overlapping [] (select (λ s. not (is_sequential s)) ready)
  | s ∷ _ ↦ s ∷ []
]

-- max_concurrent_agents, where 0 is no limit.
abbrev pub cap : ℕ → List PlannedStory → List PlannedStory
cap limit ss = if ltb 0 limit && ltb limit (length ss) then take limit ss else ss

pub data Choice : Type 0 where
  unsafe_id : String → Choice
  chosen : List PlannedStory → Choice

module _ (path_match : String → String → Bool) (base : String → String) (is_safe_id : String → Bool)
    (patterns : List String) where
  abbrev matches_sequential_pattern_in : List String → String → Bool
  matches_sequential_pattern_in [] file = false
  matches_sequential_pattern_in (p ∷ ps) file =
      if path_match p file
      then true
      else (if path_match p (base file) then true else matches_sequential_pattern_in ps file)

  abbrev pub matches_sequential_pattern : String → Bool
  matches_sequential_pattern file = matches_sequential_pattern_in patterns file

  abbrev any_sequential : List String → Bool
  any_sequential [] = false
  any_sequential (f ∷ files) = if matches_sequential_pattern f then true else any_sequential files

  -- The body of autoTagWaveHints.
  unfoldable pub auto_tag_wave_hint : PlannedStory → PlannedStory
  auto_tag_wave_hint s =
      if str_eq s.wave_hint ""
      then record s {
        wave_hint = if any_sequential s.owned_files then "sequential" else "parallel";
      }
      else s

  -- The first story whose id is not safe, and where there is none the stories of the wave.
  unfoldable pub check_ids : ℕ → List PlannedStory → List PlannedStory → Choice
  check_ids limit ready [] = chosen (cap limit (select_dispatchable ready))
  check_ids limit ready (s ∷ ss) =
      let others = check_ids limit ready ss in if is_safe_id s.id then others else unsafe_id s.id

  unfoldable pub choose_wave : ℕ → Store → Dag → List String → List PlannedStory → Choice
  choose_wave limit projection dag finished stories =
      let ready =
        map auto_tag_wave_hint (collect_ready projection stories (ready_nodes dag finished)) in
      check_ids limit ready ready
