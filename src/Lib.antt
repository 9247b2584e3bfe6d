-- ===== src/Lib.antt =====
-- vortex-dispatch: the core of the orchestrator that splits a requirement into stories, runs them
-- in waves by agents, and keeps all that happens in an event log.
--
-- The parts and how they interact. Stories and their dependencies form a graph (internal/graph),
-- from which the dispatcher takes the ready nodes and the planner the waves. A story that keeps
-- failing is escalated, and may be split into children that take its place in the graph. What
-- happens to a story is an event that is appended to a log (internal/state/filestore.go), the source
-- of truth. Every event is projected at once into the tables of an SQLite database
-- (internal/state/sqlite.go), and a replay (internal/cli/replay.go) rebuilds these tables from the
-- log alone.
--
-- The files:
--   Graph             internal/graph/graph.go: DAG as Dag, AddNode, AddEdge, DependenciesOf,
--                     NodeCount, ReadyNodes; Graph/Ready has its laws
--   Graph/Topo        internal/graph/topo.go, TopologicalSort: the maps inDegree and reverse as
--                     Degrees, the state of the loop as Kahn
--   Graph/Waves       internal/graph/topo.go, Waves
--   State/Event       internal/state/events.go: events and decoded payloads
--   State/Filter      internal/state/filestore.go: List (readAndFilter), Count, Append
--   State/Table       the SQL statements that the projection uses, on tables as lists of rows
--   State/Store       the tables (the schema of internal/state/sqlite.go, models.go), the statuses
--   State/Handlers    the handlers of Project for requirements and stories
--   State/Records     the handlers for escalations, rewrites, agents, story databases and costs
--   State/Project     Project (apply is its switch) and the loop of rebuildAndClose (rebuild)
--   State/Project/Lifecycle, Twice, Created, Costs: the state machine of a story, repetition of
--                     events, a second creation of a story, and StoryCostSummaryByReq
--   Engine/Tier       internal/engine/escalation.go: the tier and the retries of a story from the
--                     log, and ShouldEscalate
--   Engine/Split      internal/engine/escalation.go: ValidateSplit and ValidateSplitWithEdges
--   Engine/Apply      internal/engine/escalation.go: ApplySplit, on the graph of Graph
--   Engine/Route      internal/agent/roles.go: RouteByComplexity; internal/engine/dispatcher.go:
--                     routeStory; internal/engine/adaptive.go: RecommendTier
--   Engine/Dispatch   internal/engine/dispatcher.go: DispatchWave up to the choice of the stories
--   Engine/Rates      internal/engine/adaptive.go: TierSuccessRates
--   Engine/Assign     internal/engine/dispatcher.go: routeStoryWithDecision and DispatchWave as a
--                     whole, on a log and a projection (World)
--   Engine/Attempts   internal/engine/attempts.go: ListAttempts, LastAttempt
--   Engine/ReviewGate internal/engine/review_gate.go
--   Engine/Watchdog   internal/engine/watchdog.go: Check, with what the runtime reports as input
--   Autoresearch      internal/autoresearch: Runner (runner.go, Run), its stages from the last to
--                     the first; Filter (PathFilter, matchDoublestar); Gate (gate.go, GateRouter)
--   Sqlsafety         internal/sqlsafety/sql_safety.go: ValidateSQL and what it stands on; Pattern
--                     has denyPattern and the first word. The functions of package strings and the
--                     matching of a regular expression are parameters, and a query is its bytes
--   Llm               internal/llm: errors.go (Errors), retry.go (Retry), fallback.go (Fallback)
--   Devdb             internal/devdb/docker/ports.go: Allocator
--   Prelude           tests, lists, text, finite maps as association lists
--
-- The clock of CURRENT_TIMESTAMP is part of the environment of an event (Env), and the columns
-- updated_at of stories and requirements hold what it read at the last write that sets them.
--
-- Conventions. A Go map is an association list; the order in which Go walks a map is not fixed,
-- and the code sorts what it collects there. An int is a natural number where the program counts.
-- Timestamps count from Go's zero time. The dollar figures of the costs are whole numbers of a
-- small unit here, since floats are not modelled, and nothing is stated of them.
-- JSON is decoded: a payload is its object, with one entry for a key.
--
-- Fuel. The search of ValidateSplitWithEdges runs on as many rounds as there are suffixes, since
-- each is pushed once. The loop of TopologicalSort runs on as many rounds as there are nodes, and
-- so does that of Waves: a node enters the queue, or a wave, once. That this is enough is part of
-- the theorems on them, whose verdicts leave out the outcome of a loop that was cut off. The loop of
-- stripSQLCommentsAndStrings runs on the length of the query, of which each round takes a byte or
-- more, and matchDoublestar on that of the pattern, of which each call drops two. The loop of
-- RetryClient runs on the number of retries, and that of Acquire on the size of the range.
--
-- Not modelled: failures of the database and of files (but for a violated primary key, which
-- stops a replay), lines longer than the scanner's buffer, the times and durations of experiments,
-- log messages, locks (each operation runs under its own), and all that calls models, git, tmux or
-- containers.
pub mod Autoresearch
pub mod Devdb
pub mod Engine
pub mod Graph
pub mod Llm
pub mod Prelude
pub mod Sqlsafety
pub mod State
