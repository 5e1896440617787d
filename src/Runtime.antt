-- ===== src/Runtime.antt =====
-- packages/runtime: the engine (runtime/src/engine.ts, interfaces.ts).
pub mod World
pub mod Transition
pub mod Lifecycle
pub mod Rules
pub mod Effect
pub mod Moves
pub mod Departures
pub mod Reasons
pub mod Progress
pub mod Writes
pub mod Invariant
pub mod Calls
pub mod Safety
pub mod Recorded
pub mod Life
pub mod Declared
