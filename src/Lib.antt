-- ===== src/Lib.antt =====
-- ref0 answers questions about documentation from Discord: it ingests sources, lets a contained model
-- write pages, and serves answers. This library models the parts of the Go service that carry its own
-- logic, and proves what makes them correct. Paths are from the root of the repository.
--
-- The parts, and the files that model them:
--
--   Jobs          the durable job queue, internal/jobs (types.go, store.go) with its statements in
--                 internal/database/sqlc/jobs.sql.go. `Tables` are the rows, `Queries` and `Eligible`
--                 the statements, `Store`, `Claim` and `Runs` the operations. `Machine` is the
--                 abstract machine of a row and of the table, and `Refine` shows that the operations
--                 implement it; the other files draw on that. `Terminal` is the terminal
--                 callback of internal/jobterminal/terminal.go with its part in
--                 internal/knowledgebases/terminal.go, which enqueues a job.
--   Pool          the pool of capsule slots, internal/capsule/pool.go. `Machine` has the critical
--                 sections of SlotPool as events, `Safety` and `Phases` the invariants.
--   Budget        the token budget of a request, internal/modelbudget/budget.go. `Truncation` is the
--                 code, with its `Search`, and `Longest` what TruncateResult returns.
--   Presentation  how an answer is split into messages, SplitMessage of
--                 internal/discord/presentation.go. `Splitting` is the code, `Cuts` what an iteration
--                 does, `Messages`, `Prose` and `Stuck` whole texts.
--   Filters       which files of a repository are sources, internal/sourcegit/filter.go. `Matching` is
--                 the code, `Globs` the relation between patterns and paths, `Verdicts` that the code
--                 decides it, `Reading` is newPathFilter with its patterns,
--                 `Permitting` and `Partition` are pathFilter.partition, with
--                 ValidateSourcePath of internal/sourcefiles/content.go.
--   Capsule       a model's attempt inside a capsule, internal/capsule. `Json`, `Schema`, `Canonical` and
--                 `Compiling` are json.go, `Stream`, `Events` and `Responses` are ParseOpenAISSE of
--                 sse.go, `Creating`, `Attempt` and `Methods` are OpenAIAttempt of attempt.go, and
--                 `Session` is the loop of Session.invoke in session.go; `Shapes` and `Wire`
--                 are the messages and frames of wire.go. It cuts a tool's result with
--                 Budget, and a session holds a slot of Pool.
--   Idempotency   requests that are carried out once, Execute of internal/idempotency/idempotency.go.
--                 `Execution` is the code and `Replays` what a repeated request is answered.
--   Guardrails    what goes into an agent's model and what comes out of it, budgetInitial and
--                 validateDraft of internal/agents/guardrails.go. `Initial`, which counts tokens with
--                 Budget, and `Drafts` are the code, `Fitting` and `Citing` what they return.
--   Prelude       what the parts share: lists, tests and results.
--
-- A method on shared state is a function from a state to the state after it, a transaction that fails
-- leaves the state as it was, and a Go error is a value of an error type. UUIDs, times and lengths are
-- natural numbers. Concurrency in the job queue is a sequence of transactions: every operation locks
-- its row, and Claim takes the admission lock, so each is one step; rows that other transactions have
-- locked are a parameter of Claim, and so are the readings of the database clock. The Claim loop has
-- one pair of readings for each round; more pairs than there are jobs that are leased or asked to be
-- cancelled are enough. The Enqueue loop needs one round.
-- In the pool each critical section under the mutex is a step, in any order. The search of
-- TruncateResult has as much fuel as there are boundaries, and the closure of the states of a pattern
-- as it has states and segments, which is enough. A text or a path is the list of its runes, and
-- path.Match is a parameter. SplitMessage takes the number of its iterations as fuel, and there are
-- texts for which none is enough.
--
-- The decoder of JSON reads the tokens of encoding/json with as much fuel as there are tokens, which is
-- enough, and what else the capsule calls of the standard library is a record of parameters, `Codec`
-- and `Host`. A session's loop takes a list of rounds, each with what the capsule, the provider and the
-- tools answer. The operation that Execute is given works on the rest of the database.
--
-- Not modelled: the HTTP layer, SQL access outside the job queue, Discord's and the providers'
-- network protocols, and the parts that PROJECT.json lists as such.
pub mod Budget
pub mod Capsule
pub mod Filters
pub mod Guardrails
pub mod Idempotency
pub mod Jobs
pub mod Pool
pub mod Prelude
pub mod Presentation
