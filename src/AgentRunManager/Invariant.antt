-- ===== src/AgentRunManager/Invariant.antt =====
-- The invariant of `agent_run` and `agent_run_attempt`, and the statements that keep it.
use native.Mathlib.Decide.{ℕ_discrete}
use instructional_agent_mvp.Prelude.{
  ℕ, suc, ◌<◌, ◌≡◌, refl, ◌≢◌, sym, String, Bool, true, Option, none, some, List, [], arith, update,
  All, ◌==◌, row, Unique, update-Unique, insert-Unique, row-fresh, All-update, All-insert, All-map,
  select-update, length-update, subst, subst₂,
}
use instructional_agent_mvp.Schema.{Uuid, is_in_progress, AgentRun, AgentRunAttempt, Database}
use instructional_agent_mvp.AgentRunManager.{is_abandoned, abandoned, reclaimed}
use instructional_agent_mvp.AgentRunManager.Lease.{Clock}
use instructional_agent_mvp.AgentRunManager.Attempts.{AttemptConfig, attempts_of, create_attempt}
use instructional_agent_mvp.AgentRunManager.Counts.{
  Numbered-update, abandon_closes_all, abandon-Fenced,
}
use instructional_agent_mvp.AgentRunManager.Consistency.{Consistent}

abbrev pub run_of : Uuid → Database → Option AgentRun
run_of i db = row (λ r. r.logical_run_id) i db.agent_runs

abbrev pub own_attempts : Uuid → Database → List AgentRunAttempt
own_attempts i db = attempts_of i db.attempts

-- The primary keys are unique, and `uuid.uuid4()` gives none of them again.
pub record Keys (db : Database) : Type 0 where
  pub runs_unique : Unique (λ r. r.logical_run_id) db.agent_runs
  pub runs_fresh : All (λ r. r.logical_run_id < db.next_uuid) db.agent_runs
  pub attempts_unique : Unique (λ a. a.attempt_id) db.attempts
  pub attempts_fresh : All (λ a. a.attempt_id < db.next_uuid) db.attempts

-- A run that is not there has no attempts, which is the foreign key.
abbrev pub ConsistentWith : Option AgentRun → List AgentRunAttempt → Type 0
ConsistentWith none rows = rows ≡ []
ConsistentWith (some r) rows = Consistent r rows

pub record Inv (db : Database) : Type 0 where
  pub keys : Keys db
  pub runs : (i : Uuid) → ConsistentWith (run_of i db) (own_attempts i db)

pub Inv-run :
    (db : Database) (i : Uuid) (r : AgentRun)
    → Inv db
    → run_of i db ≡ some r
    → Consistent r (own_attempts i db)
Inv-run db i r inv e = subst (λ o. ConsistentWith o (own_attempts i db)) e (inv.runs i)

-- A transaction that touches one run keeps the invariant if it keeps it for that run.
pub Inv-write :
    (db db' : Database) (i : Uuid)
    → Inv db
    → Keys db'
    → ((j : Uuid) → i ≢ j → run_of j db' ≡ run_of j db)
    → ((j : Uuid) → i ≢ j → own_attempts j db' ≡ own_attempts j db)
    → ConsistentWith (run_of i db') (own_attempts i db')
    → Inv db'
Inv-write db db' i inv k same_run same_attempts own = record {
  keys = k;
  runs = λ j. elim (ℕ_discrete i j) [
    | yes e ↦ subst (λ n. ConsistentWith (run_of n db') (own_attempts n db')) e own
    | no ne ↦ subst₂ ConsistentWith (sym (same_run j ne)) (sym (same_attempts j ne)) (inv.runs j)
  ];
}

pub Keys-update_runs :
    (p : AgentRun → Bool) (f : AgentRun → AgentRun) (db : Database)
    → ((r : AgentRun) → (f r).logical_run_id ≡ r.logical_run_id)
    → Keys db
    → Keys (record db { agent_runs = update p f db.agent_runs })
Keys-update_runs p f db same k = record {
  runs_unique = update-Unique (λ r. r.logical_run_id) p f db.agent_runs same k.runs_unique;
  runs_fresh =
      All-update (λ r. r.logical_run_id < db.next_uuid) p f db.agent_runs
        (λ r h. ground (arith, same r)) k.runs_fresh;
  attempts_unique = k.attempts_unique;
  attempts_fresh = k.attempts_fresh;
}

pub Keys-update_attempts :
    (p : AgentRunAttempt → Bool) (f : AgentRunAttempt → AgentRunAttempt) (db : Database)
    → ((a : AgentRunAttempt) → (f a).attempt_id ≡ a.attempt_id)
    → Keys db
    → Keys (record db { attempts = update p f db.attempts })
Keys-update_attempts p f db same k = record {
  runs_unique = k.runs_unique;
  runs_fresh = k.runs_fresh;
  attempts_unique = update-Unique (λ a. a.attempt_id) p f db.attempts same k.attempts_unique;
  attempts_fresh =
      All-update (λ a. a.attempt_id < db.next_uuid) p f db.attempts (λ a h. ground (arith, same a))
        k.attempts_fresh;
}

pub Keys-create_attempt :
    (c : AttemptConfig) (i : Uuid) (number g : ℕ) (db : Database)
    → Keys db
    → Keys (create_attempt c i number g db).1
unfolding create_attempt
Keys-create_attempt c i number g db k = record {
  runs_unique = k.runs_unique;
  runs_fresh =
      All-map (λ r. r.logical_run_id < db.next_uuid) (λ r. r.logical_run_id < suc db.next_uuid)
        db.agent_runs (λ r h. omega arith) k.runs_fresh;
  attempts_unique =
      insert-Unique (λ a. a.attempt_id) _ db.attempts k.attempts_unique
        (row-fresh (λ a. a.attempt_id) db.next_uuid db.attempts k.attempts_fresh);
  attempts_fresh =
      All-insert (λ a. a.attempt_id < suc db.next_uuid) _ db.attempts
        (All-map (λ a. a.attempt_id < db.next_uuid) (λ a. a.attempt_id < suc db.next_uuid)
          db.attempts (λ a h. omega arith) k.attempts_fresh)
        (omega arith);
}

module _ (clock : Clock) (worker : String) where
  -- A reclaim closes what its run left open and takes the next generation.
  pub reclaimed-Consistent :
      (i : Uuid) (r : AgentRun) (rows : List AgentRunAttempt)
      → Consistent r (attempts_of i rows)
      → is_in_progress r.status ≡ true
      → Consistent
          (reclaimed clock worker r)
          (attempts_of i (update (is_abandoned i) (abandoned clock) rows))
  reclaimed-Consistent i r rows v running =
      let own = attempts_of i rows in
      let e =
        select-update (λ a. a.logical_run_id == i) (is_abandoned i) (abandoned clock) rows
          (λ a. refl) in
      record {
        numbered =
            rw e (Numbered-update 1 (is_abandoned i) (abandoned clock) own (λ a. refl) v.numbered);
        bounded = rw e (rw (length-update (is_abandoned i) (abandoned clock) own) v.bounded);
        one_success = rw ((abandon_closes_all clock i rows).1) v.one_success;
        fenced = abandon-Fenced clock i r.lease_generation rows v.fenced;
        leased = λ _. refl;
      }
