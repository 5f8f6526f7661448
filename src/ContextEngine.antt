-- ===== src/ContextEngine.antt =====
-- src/persistence/repositories/context_engine.py, its contract, resolver and retriever, and
-- src/domain/context_result.py. The mapping of the task types is in Contract, the adapters that
-- read the database are in Resolvers, steps 4 to 8 in Assembly, the hashes in Canonical, the
-- statements that store the outcome in Package, and the loop of `assemble_context` in Operation.
pub mod Contract
pub mod Entries
pub mod Resolvers
pub mod Assembly
pub mod Canonical
pub mod Package
pub mod Operation
pub mod Ordering
pub mod Gaps
pub mod Rounds
pub mod Calls
pub mod Stored
pub mod Answers
pub mod Replay
pub mod Samples
mod Tests
mod StepTests
pub mod Pinned
pub mod Sources
