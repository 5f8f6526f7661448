-- ===== src/Orchestrator.antt =====
-- src/persistence/repositories/orchestrator.py and src/domain/agent_run_result.py, as far as they
-- end a run: the finalisation of phase C.
pub mod PhaseA
pub mod ActiveRuns
pub mod PhaseC
pub mod Request
pub mod PhaseB
pub mod Guard
pub mod Attempting
pub mod Termination
pub mod Calls
pub mod Resolved
pub mod Competition
pub mod Races
pub mod Finalized
pub mod Success
pub mod Content
mod Tests
mod RequestTests
mod LoopTests
