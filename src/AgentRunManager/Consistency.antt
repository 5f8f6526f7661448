-- ===== src/AgentRunManager/Consistency.antt =====
-- One run with its attempts: what holds of them between transactions, and that each operation of
-- src/persistence/repositories/agent_run_manager.py keeps it.
use instructional_agent_mvp.Prelude.{
  ℕ, suc, ◌+◌, ◌≤◌, max, ◌≡◌, refl, String, Bool, true, false, List, [], ◌∷◌, arith, insert, length,
  is_none, if◌then◌else◌, count-insert, length-insert, All-insert,
}
use instructional_agent_mvp.Schema.{
  Uuid, is_success, RunStatus, succeeded, failed, is_pending, is_in_progress, AgentRun,
  AgentRunAttempt,
}
use instructional_agent_mvp.AgentRunManager.{acquired, refreshed, finished}
use instructional_agent_mvp.AgentRunManager.Lease.{Clock}
use instructional_agent_mvp.AgentRunManager.Attempts.{AttemptConfig, new_attempt}
use instructional_agent_mvp.AgentRunManager.Counts.{
  success_count, Numbered, Fenced, FencedBy, Numbered-insert,
}

abbrev pub is_succeeded : RunStatus → Bool
is_succeeded succeeded = true
is_succeeded _ = false

-- The attempts are numbered from 1, within the bound, and there is none before the run is acquired.
-- Only a run that succeeded has a successful one, and one at most. Every attempt is fenced by the
-- run's generation.
pub record Consistent (r : AgentRun) (rows : List AgentRunAttempt) : Type 0 where
  pub numbered : Numbered 1 rows
  pub bounded : length rows ≤ (if is_pending r.status then 0 else max 1 r.max_attempts)
  pub one_success : success_count rows ≤ (if is_succeeded r.status then 1 else 0)
  pub fenced : Fenced r.lease_generation rows
  pub leased : is_in_progress r.status ≡ true → is_none r.lease_expires_at ≡ false

module _ (clock : Clock) (worker : String) (c : AttemptConfig) (id run_id : Uuid) where
  pub acquired-Consistent :
      (r : AgentRun) (rows : List AgentRunAttempt)
      → Consistent r rows
      → is_pending r.status ≡ true
      → Consistent
          (acquired clock worker r)
          (insert (new_attempt c id run_id 1 (r.lease_generation + 1)) rows)
  acquired-Consistent r [] v h = record {
    numbered = (refl, tt);
    bounded = omega arith;
    one_success = omega arith;
    fenced = (refl, tt);
    leased = λ _. refl;
  }
  acquired-Consistent r (a ∷ rows) v h = absurd (ground (arith, v.bounded))

  -- The next attempt under the run's generation.
  pub attempted-Consistent :
      (r : AgentRun) (rows : List AgentRunAttempt) (number : ℕ)
      → Consistent r rows
      → is_in_progress r.status ≡ true
      → number ≡ suc (length rows)
      → number ≤ r.max_attempts
      → Consistent r (insert (new_attempt c id run_id number r.lease_generation) rows)
  attempted-Consistent r rows number v running e fits =
      let n = new_attempt c id run_id number r.lease_generation in
      record {
        numbered = Numbered-insert 1 n rows v.numbered (omega arith);
        bounded = ground (arith, length-insert n rows, v.bounded);
        one_success =
            ground (arith, count-insert (λ a. is_success a.outcome) n rows, v.one_success);
        fenced =
            All-insert (λ a. FencedBy r.lease_generation a.outcome a.lease_generation_at_creation) n
              rows v.fenced refl;
        leased = v.leased;
      }

module _ (clock : Clock) where
  pub refreshed-Consistent :
      (r : AgentRun) (rows : List AgentRunAttempt)
      → Consistent r rows
      → Consistent (refreshed clock r) rows
  refreshed-Consistent r rows v = record {
    numbered = v.numbered;
    bounded = v.bounded;
    one_success = v.one_success;
    fenced = v.fenced;
    leased = λ _. refl;
  }

  -- A run in progress may fail.
  pub failed-Consistent :
      (r : AgentRun) (rows : List AgentRunAttempt)
      → Consistent r rows
      → is_in_progress r.status ≡ true
      → Consistent (finished failed r) rows
  failed-Consistent r rows v running = record {
    numbered = v.numbered;
    bounded = ground (arith, v.bounded);
    one_success = ground (arith, v.one_success);
    fenced = v.fenced;
    leased = λ h. ground arith;
  }
