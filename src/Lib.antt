-- ===== src/Lib.antt =====
-- A verification library for the loop engine.
--
-- A loop is a state machine whose definition (packages/core/src/schemas.ts) lists states and
-- transitions. The engine (packages/runtime/src/engine.ts) keeps one instance for each aggregate and
-- moves it along a transition when an actor asks for it, the actor may take it, the guards pass and
-- the evidence is committed. Instances and records of moves go to a store, events to a bus.
--
-- The files and the code they model:
--   Prelude             what the other modules share: Boolean tests on native numbers, list and map
--                       helpers, signed integers
--   Core                packages/core/src/schemas.ts and loopInstance.ts: definitions, instances and
--                       records; the values of type `unknown`; the platform; thrown errors
--   Actors              packages/actors/src/authorization.ts: `canActorExecuteTransition`
--   Guards              packages/guards/src: the registry and `evaluateGuards` (pipeline.ts), and in
--                       BuiltIn the four built-in evaluators
--   Events              packages/events/src: the events, what their schemas check, their factories
--   Store               packages/runtime/src/interfaces.ts: the port `LoopStore` with its laws, and
--                       in Memory its implementation packages/adapter-memory/src/index.ts
--   Canonical           packages/canonical-json/src/canonical-hash.ts
--   Evidence            packages/evidence/src: validate-evidence-snapshot.ts (Validate) and
--                       governed-evidence-commit.ts (Commit)
--   Runtime             packages/runtime/src/engine.ts: the state and the monad (World), `transition`
--                       (Transition), `start`, `cancelLoop`, `failLoop` and the reads (Lifecycle)
--   Observability       packages/observability/src/replay.ts: `replayLoop`
--   Validator           packages/loop-definition/src/validator.ts: `validateLoopDefinition`
--   Sdk                 packages/sdk/src/index.ts: `createLoopSystem` and the merge of definitions
--   Quota               packages/entitlements-iface/src: tiers, and the sliding-window limiter
--   Auth                packages/auth-iface/src: bearer tokens, API keys, the in-memory adapter
--   Canon               packages/canon/src and the rungs of packages/evidence/src/qualification.ts
--   Redaction           packages/sdk/src/lib/redactPiiEvidence.ts, `guardEvidence` of
--                       packages/core/src/toolAdapter.ts, `sanitizeEvidence` of
--                       packages/runtime-core/src/loop-execution.ts
--   Trace               packages/observability/src: trace records, the memory trace store (Memory), the
--                       timeline and metrics of a trace (Timeline); and, of
--                       packages/runtime-core/src/build-run-responses.ts, the check of sequence numbers
--                       (Sequence) and the read responses (Responses)
--   Service             packages/runtime-core/src: rows and their port, the traced engine (Traced and Traced/Payload),
--                       the initial state (InitialState), the operations of loop-execution.ts (Provision,
--                       Execution), the repository over a database client (Prisma), db-auth-adapter.ts
--                       (DbAuth)
--   Routes              packages/runtime-routes/src: the gate of the writes, their handlers (Loops), the
--                       reads (Runs), one write after another (Limit)
--   Tests               concrete runs
--
-- State and errors. An engine call is a function from a World (the stored state, the batches given to
-- the snapshot store, the events given to the bus, the number of draws so far) to an outcome and the
-- next World. A thrown error is an outcome that keeps the changes made before it. The store is a
-- parameter, a LoopStore with the laws that a write is read back and that the two kinds of write do
-- not disturb each other; MemoryStore meets them. Calls are taken one after another: two concurrent
-- calls for one aggregate, which the code does not exclude, are not modelled.
--
-- The service keeps a row for each loop next to the engine's instance. Its state is the engine's World,
-- the trace store, the counters of sequence numbers and the rows; the repository of rows, the database
-- clients and the trace store are ports, records of functions on a type of stored states, and what a
-- property relies on of them is a hypothesis of it. A trace write, which the code does not wait for,
-- happens at once. The map of a window in the limiter, of keys and of runs is an association list.
--
-- Numbers. A double is an integer number of units of 2^-1074, or NaN or an infinity, so comparisons
-- are exact. The clock, random identifiers, date parsing, JSON text of scalars, SHA-256, subtraction
-- of doubles, conversions of values to numbers and texts, and `trim`, `toLowerCase` and `slice` of
-- texts are fields of the record Platform; draws of the clock and of identifiers are numbered by
-- the moment of the World. A Date is its time value. The search of the validator for a terminal
-- state runs on fuel, two more than the sum over all transitions of the number of
-- neighbours of their source, which bounds the pushes; every other loop of the code runs over a list.
--
-- Simplifications. Identifiers are texts. Messages of thrown errors are told apart by the place that
-- throws. An event's schema is modelled by the checks that a value of the declared type can fail: the
-- texts of length at least 1 and the duration. An object lists its own fields, each once. A text has
-- no lone surrogate.
--
-- Not modelled: the builder and the authoring defaults of packages/loop-definition, the evidence
-- providers, the signal registry, the learning signals, the retries of the Postgres trace store, the
-- adapters of external services, the database schema, the HTTP transport, the clients and user
-- interfaces. A row of packages/runtime-core/src/trace-repository.ts is typed as the code casts it.
pub mod Prelude
pub mod Core
pub mod Actors
pub mod Guards
pub mod Events
pub mod Store
pub mod Canonical
pub mod Evidence
pub mod Runtime
pub mod Observability
pub mod Validator
pub mod Quota
pub mod Auth
pub mod Canon
pub mod Redaction
pub mod Trace
pub mod Service
pub mod Routes
pub mod Sdk
pub mod Tests
