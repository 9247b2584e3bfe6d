-- ===== src/Engine/Assign.antt =====
-- The second half of DispatchWave (internal/engine/dispatcher.go): a role for each story of the
-- wave, and the events that record its agent and its assignment, which go to the log and to the
-- projection. The texts that fmt.Sprintf builds (names of sessions and branches) and the choice
-- among known agents and runtimes are functions that the wave is given.
pub mod Wave
pub mod Once
use vortex_dispatch.Engine.Dispatch.{PlannedStory, choose_wave, chosen, unsafe_id}
use vortex_dispatch.Engine.Rates.{Outcomes, tier_success_rates}
use vortex_dispatch.Engine.Route.{
  Role, TierOutcome, recommend_tier, role_intermediate, role_junior, role_manager, role_qa,
  role_senior, role_supervisor, role_tech_lead, route_by_complexity, route_story,
  route_tier_for_role,
}
use vortex_dispatch.Engine.Tier.{EventStore, RoutingConfig, file_store}
use vortex_dispatch.Engine.Tier.Exact.{decision}
use vortex_dispatch.Graph.{Dag}
use vortex_dispatch.Prelude.{
  Bool, List, Option, String, [], if◌then◌else◌, none, not, some, ℕ, ◌*◌, ◌+◌, ◌==◌, ◌>>=◌, ◌∷◌,
}
use vortex_dispatch.State.Event.{
  Event, EventType, Fields, agent_spawned, field, no_fields, num, story_assigned, str,
}
use vortex_dispatch.State.Filter.{Line, any_event, append}
use vortex_dispatch.State.Handlers.{Env, projected, unique_violation}
use vortex_dispatch.State.Project.{project}
use vortex_dispatch.State.Store.{Store}

-- What NewEvent takes from outside: the id, the time, and what the projection sees.
pub record Stamp : Type 0 where
  pub id : String
  pub time : ℕ
  pub env : Env

pub record Names : Type 0 where
  pub agent_id : Option Role → ℕ → String
  pub session : Option Role → ℕ → String
  pub runtime : Option Role → String
  pub branch : String → String

-- The log and the projection.
pub record World : Type 0 where
  pub log : List Line
  pub projection : Store

-- The text of AdaptiveDecision, which is empty or tells the override and its record.
pub record Override : Type 0 where
  pub from : Role
  pub to : Option Role
  pub outcome : TierOutcome

pub record Assignment : Type 0 where
  pub story_id : String
  pub role : Option Role
  pub agent_id : String
  pub session_name : String
  pub branch : String
  pub decision : Option Override

abbrev pub role_name : Role → String
role_name role_tech_lead = "tech_lead"
role_name role_senior = "senior"
role_name role_intermediate = "intermediate"
role_name role_junior = "junior"
role_name role_qa = "qa"
role_name role_supervisor = "supervisor"
role_name role_manager = "manager"

abbrev pub new_event : Stamp → EventType → String → String → Fields → Event
new_event stamp ty agent story p = record {
  id = stamp.id;
  type = ty;
  timestamp = stamp.time;
  agent_id = agent;
  story_id = story;
  payload = some p;
}

-- Append, then Project; `none` is an error of the projection.
unfoldable pub emit : Env → Event → World → Option World
emit env e w = elim (project env e w.projection) [
  | projected s ↦ some (record { log = append e w.log; projection = s })
  | unique_violation s ↦ none
]

abbrev role_tag : Role → ℕ
role_tag role_tech_lead = 0
role_tag role_senior = 1
role_tag role_intermediate = 2
role_tag role_junior = 3
role_tag role_qa = 4
role_tag role_supervisor = 5
role_tag role_manager = 6

abbrev pub same_role : Role → Role → Bool
same_role a b = role_tag a == role_tag b

-- What history recommends in place of `role`, if it differs.
abbrev pub override_by : Outcomes → ℕ → Role → Option Role → Option Role × Option Override
override_by rates complexity role none =
    (none, some (record { from = role; to = none; outcome = rates 0 complexity }))
override_by rates complexity role (some rec) = if same_role rec role then (some role, none) else (
  some rec,
  some
      (record { from = role; to = some rec; outcome = rates (route_tier_for_role rec) complexity }),
)

-- routeStoryWithDecision
unfoldable pub route_story_with_decision :
    EventStore → RoutingConfig → PlannedStory → Option Role × Option Override
route_story_with_decision store cfg s =
    let role = route_story store cfg s in
    let adapted : Option Role × Option Override = elim (store.list any_event) [
      | none ↦ (some role, none)
      | some events ↦
          let rates = tier_success_rates events in
          override_by rates s.complexity role (recommend_tier rates cfg s.complexity)
    ] in
    if not cfg.adaptive
    then (some role, none)
    else (if not (same_role role (route_by_complexity s.complexity cfg))
        then (some role, none)
        else adapted)

-- The text of a role, where `none` is the empty one.
abbrev pub role_text : Option Role → String
role_text none = ""
role_text (some r) = role_name r

module _ (names : Names) (stamps : ℕ → Stamp) (cfg : RoutingConfig) (wave_number : ℕ) where
  abbrev pub assignment_of : ℕ → PlannedStory → World → Assignment
  assignment_of counter s w =
      let routed = route_story_with_decision (file_store w.log) cfg s in
      record {
        story_id = s.id;
        role = routed.0;
        agent_id = names.agent_id routed.0 counter;
        session_name = names.session routed.0 counter;
        branch = names.branch s.id;
        decision = routed.1;
      }

  abbrev pub spawn_payload : Assignment → Fields
  spawn_payload a = field "role" (str (role_text a.role)) (
      field "session_name" (str a.session_name)
        (field "runtime" (str (names.runtime a.role)) no_fields))

  abbrev pub assign_payload : Assignment → Fields
  assign_payload a =
      field "agent_id" (str a.agent_id)
        (field "wave" (num wave_number) (field "branch" (str a.branch) no_fields))

  -- The body of the loop: `counter` is agentCounter, and `stamps` gives two stamps to a round.
  unfoldable pub assign_story : ℕ → PlannedStory → World → Option (World × Assignment)
  assign_story counter s w =
      let a = assignment_of counter s w in
      let first = stamps (2 * counter) in
      let second = stamps (2 * counter + 1) in
      emit first.env (new_event first agent_spawned a.agent_id s.id (spawn_payload a)) w >>= λ w'.
      emit second.env (new_event second story_assigned a.agent_id s.id (assign_payload a)) w'
      >>= λ w''. some (w'', a)

  unfoldable pub assign_stories : ℕ → List PlannedStory → World → Option (World × List Assignment)
  assign_stories counter [] w = some (w, [])
  assign_stories counter (s ∷ ss) w = assign_story (counter + 1) s w >>= λ (w', a).
      assign_stories (counter + 1) ss w' >>= λ (w'', as'). some (w'', a ∷ as')

-- What DispatchWave returns: its assignments and what it wrote, or an error.
pub data Dispatched : Type 0 where
  refused : String → Dispatched
  not_projected : Dispatched
  dispatched : World → List Assignment → Dispatched

abbrev pub to_dispatched : Option (World × List Assignment) → Dispatched
to_dispatched none = not_projected
to_dispatched (some (w, given)) = dispatched w given

module _ (path_match : String → String → Bool) (base : String → String) (is_safe_id : String → Bool)
    (patterns : List String) (names : Names) where
  unfoldable pub dispatch_wave :
      (ℕ → Stamp)
      → RoutingConfig
      → ℕ
      → ℕ
      → Dag
      → List String
      → List PlannedStory
      → World
      → Dispatched
  dispatch_wave stamps cfg limit wave_number dag finished stories w =
      elim (choose_wave path_match base is_safe_id patterns limit w.projection dag finished
        stories) [
          | unsafe_id id ↦ refused id
          | chosen wave ↦ to_dispatched (assign_stories names stamps cfg wave_number 0 wave w)
        ]
