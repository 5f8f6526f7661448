-- ===== src/AgentRunManager/Creation.antt =====
-- Creating a run keeps the invariant.
use instructional_agent_mvp.Prelude.{
  suc, ◌<◌, ◌≡◌, refl, sym, subst, Bool, true, false, Option, none, some, List, [], ◌∷◌,
  if◌then◌else◌, arith, ◌==◌, find-insert, insert-Unique, row-fresh, All-insert, All-map,
}
use instructional_agent_mvp.Schema.{pending, AgentRun, AgentRunAttempt, Database}
use instructional_agent_mvp.AgentRunManager.{RunRequest, new_run, create_agent_run}
use instructional_agent_mvp.AgentRunManager.Consistency.{Consistent}
use instructional_agent_mvp.AgentRunManager.Writes.{run_key}
use instructional_agent_mvp.AgentRunManager.Invariant.{run_of, own_attempts, Inv, ConsistentWith}

new_run-Consistent :
    (n : AgentRun) (rows : List AgentRunAttempt)
    → n.status ≡ pending
    → rows ≡ []
    → Consistent n rows
new_run-Consistent n [] e h = record {
  numbered = tt;
  bounded = omega arith;
  one_success = omega arith;
  fenced = tt;
  leased = λ h'. ground arith;
}
new_run-Consistent n (a ∷ rows) e h = absurd (ground arith)

with_new :
    (o : Option AgentRun) (n : AgentRun) (hit : Bool) (rows : List AgentRunAttempt)
    → n.status ≡ pending
    → ConsistentWith o rows
    → ConsistentWith (elim o [ none ↦ if hit then some n else none | some r ↦ some r ]) rows
with_new none n true rows e h = new_run-Consistent n rows e h
with_new none n false rows e h = h
with_new (some r) n hit rows e h = h

-- Creating a run keeps the invariant: it has no attempts.
pub create_agent_run-Inv : (q : RunRequest) (db : Database) → Inv db → Inv (create_agent_run q db).1
unfolding create_agent_run
create_agent_run-Inv q db inv =
    let n = new_run q db.next_uuid in
    record {
      keys = record {
        runs_unique =
            insert-Unique run_key n db.agent_runs inv.keys.runs_unique
              (row-fresh run_key db.next_uuid db.agent_runs inv.keys.runs_fresh);
        runs_fresh =
            All-insert (λ r. r.logical_run_id < suc db.next_uuid) n db.agent_runs
              (All-map (λ r. r.logical_run_id < db.next_uuid)
                (λ r. r.logical_run_id < suc db.next_uuid) db.agent_runs (λ r h. omega arith)
                inv.keys.runs_fresh)
              (omega arith);
        attempts_unique = inv.keys.attempts_unique;
        attempts_fresh =
            All-map (λ a. a.attempt_id < db.next_uuid) (λ a. a.attempt_id < suc db.next_uuid)
              db.attempts (λ a h. omega arith) inv.keys.attempts_fresh;
      };
      runs = λ i.
          subst (λ o. ConsistentWith o (own_attempts i db))
            (sym (find-insert (λ x. run_key x == i) n db.agent_runs))
            (with_new (run_of i db) n (run_key n == i) (own_attempts i db) refl (inv.runs i));
    }
