-- ===== src/AgentRunManager/Operations.antt =====
-- The fused operations of src/persistence/repositories/agent_run_manager.py keep the invariant.
use instructional_agent_mvp.Prelude.{
  ℕ, ◌+◌, ◌≡◌, refl, ◌≢◌, String, true, ◌&&◌, inl, inr, some, arith, insert, ◌==◌, ltb,
  select-insert, Bool-cases,
}
use instructional_agent_mvp.Schema.{Uuid, failed, is_pending, is_in_progress, AgentRun, Database}
use instructional_agent_mvp.AgentRunManager.{
  acquire, acquired, reclaim, reclaimed, is_abandoned, abandoned, refreshed, mark_failed_if_owner,
  finished, attempt_or_fail, acquire_and_create_first_attempt, reclaim_and_create_attempt,
  refresh_and_create_retry_attempt,
}
use instructional_agent_mvp.AgentRunManager.Lease.{Clock, lease_is_expired}
use instructional_agent_mvp.AgentRunManager.Attempts.{
  AttemptConfig, max_number, new_attempt, create_attempt, next_attempt_number,
}
use instructional_agent_mvp.AgentRunManager.Counts.{max_number-eq-length, abandon_others}
use instructional_agent_mvp.AgentRunManager.Writes.{
  abandon, written, write_cases, written-others, written-Keys, owns, finish_if_owner_lem,
  refresh_lem,
}
use instructional_agent_mvp.AgentRunManager.Consistency.{
  acquired-Consistent, attempted-Consistent, refreshed-Consistent, failed-Consistent,
}
use instructional_agent_mvp.AgentRunManager.Invariant.{
  run_of, own_attempts, Inv, Inv-run, Inv-write, Keys-update_attempts, Keys-create_attempt,
  reclaimed-Consistent,
}

-- A run in progress under generation `g`.
pub record Ready (i : Uuid) (g : ℕ) (db : Database) : Type 0 where
  pub run : AgentRun
  pub found : run_of i db ≡ some run
  pub running : is_in_progress run.status ≡ true
  pub current : run.lease_generation ≡ g

module _ (c : AttemptConfig) (i : Uuid) (number g : ℕ) (db : Database) where
  own-create_attempt :
      own_attempts i (create_attempt c i number g db).1
      ≡ insert (new_attempt c db.next_uuid i number g) (own_attempts i db)
  unfolding create_attempt
  own-create_attempt = ground (
    arith,
    select-insert (λ a. a.logical_run_id == i) (new_attempt c db.next_uuid i number g) db.attempts,
  )

  others-create_attempt :
      (j : Uuid) → i ≢ j → own_attempts j (create_attempt c i number g db).1 ≡ own_attempts j db
  unfolding create_attempt
  others-create_attempt j ne = ground (
    arith,
    select-insert (λ a. a.logical_run_id == j) (new_attempt c db.next_uuid i number g) db.attempts,
  )

  runs-create_attempt : (create_attempt c i number g db).1.agent_runs ≡ db.agent_runs
  unfolding create_attempt
  runs-create_attempt = refl

module _ (clock : Clock) (c : AttemptConfig) (i : Uuid) (worker : String) where
  -- Acquiring a run with its first attempt keeps the invariant, taken or refused.
  pub acquire_and_create_first_attempt-Inv :
      (db : Database) → Inv db → Inv (acquire_and_create_first_attempt clock c i worker db).1
  unfolding acquire_and_create_first_attempt acquire
  acquire_and_create_first_attempt-Inv db inv =
      let f = acquired clock worker in
      let q = λ (r : AgentRun). is_pending r.status in
      elim (write_cases i q f db (λ r. refl) inv.keys) [
        | inl (e, same) ↦ rw (e, acquire_and_create_first_attempt) (rw same inv)
        | inr (r, h) ↦
            let g = r.lease_generation + 1 in
            let db' = written i q f db in
            rw (h.returned, acquire_and_create_first_attempt)
              (Inv-write db (create_attempt c i 1 g db').1 i inv
                (Keys-create_attempt c i 1 g db' (written-Keys i q f db (λ r. refl) inv.keys))
                (λ j ne.
                  rw (runs-create_attempt c i 1 g db')
                    (written-others i q f db (λ r. refl) inv.keys j ne))
                (others-create_attempt c i 1 g db')
                (rw (own-create_attempt c i 1 g db', runs-create_attempt c i 1 g db', h.after)
                  (acquired-Consistent clock worker c db.next_uuid i r (own_attempts i db)
                    (Inv-run db i r inv h.found) h.passed)))
      ]

  -- Failing a run keeps the invariant, whether or not the caller owns it.
  pub mark_failed_if_owner-Inv :
      (now g : ℕ) (db : Database) → Inv db → Inv (mark_failed_if_owner now i worker g db).1
  unfolding mark_failed_if_owner
  mark_failed_if_owner-Inv now g db inv =
      let q = owns worker g now in
      rw (finish_if_owner_lem i worker g db inv.keys failed now)
        (elim (write_cases i q (finished failed) db (λ r. refl) inv.keys) [
          | inl (e, same) ↦ rw same inv
          | inr (r, h) ↦
              Inv-write db (written i q (finished failed) db) i inv
                (written-Keys i q (finished failed) db (λ r. refl) inv.keys)
                (written-others i q (finished failed) db (λ r. refl) inv.keys) (λ j ne. refl)
                (rw h.after (
                  failed-Consistent clock r (own_attempts i db) (Inv-run db i r inv h.found)
                    (ground (arith, h.passed))))
        ])

  -- The next attempt, or the failure of the run whose attempts have run out.
  pub attempt_or_fail-Inv :
      (max_attempts g : ℕ) (db : Database)
      → Inv db
      → (ready : Ready i g db) → max_attempts ≡ ready.run.max_attempts
      → Inv (attempt_or_fail clock c i worker max_attempts g db).1
  unfolding attempt_or_fail next_attempt_number
  attempt_or_fail-Inv max_attempts g db inv ready e =
      let v = Inv-run db i ready.run inv ready.found in
      let number = max_number (own_attempts i db) + 1 in
      let counted = max_number-eq-length (own_attempts i db) v.numbered in
      elim (Bool-cases (ltb max_attempts number)) [
        | inl over ↦ rw (over, attempt_or_fail) (mark_failed_if_owner-Inv clock.marked g db inv)
        | inr room ↦
            rw (room, attempt_or_fail)
              (Inv-write db (create_attempt c i number g db).1 i inv
                (Keys-create_attempt c i number g db inv.keys)
                (λ j ne. rw (runs-create_attempt c i number g db) refl)
                (others-create_attempt c i number g db)
                (rw
                  (
                    own-create_attempt c i number g db,
                    runs-create_attempt c i number g db,
                    ready.found,
                    ← ready.current,
                  )
                  (attempted-Consistent clock worker c db.next_uuid i ready.run (own_attempts i db)
                    number v ready.running (omega (arith, counted)) (ground (arith, room)))))
      ]

  -- A same-owner retry.
  pub refresh_and_create_retry_attempt-Inv :
      (g max_attempts : ℕ) (db : Database)
      → Inv db
      → ((r : AgentRun) → run_of i db ≡ some r → max_attempts ≡ r.max_attempts)
      → Inv (refresh_and_create_retry_attempt clock c i worker g max_attempts db).1
  unfolding refresh_and_create_retry_attempt
  refresh_and_create_retry_attempt-Inv g max_attempts db inv bound =
      let q = owns worker g clock.tested in
      let f = refreshed clock in
      let db' = written i q f db in
      rw (refresh_lem i worker g db inv.keys clock)
        (elim (write_cases i q f db (λ r. refl) inv.keys) [
          | inl (e, same) ↦ rw e (rw same inv)
          | inr (r, h) ↦ rw h.returned (
              attempt_or_fail-Inv max_attempts r.lease_generation db'
                (Inv-write db db' i inv (written-Keys i q f db (λ r. refl) inv.keys)
                  (written-others i q f db (λ r. refl) inv.keys) (λ j ne. refl)
                  (rw h.after (
                    refreshed-Consistent clock r (own_attempts i db) (Inv-run db i r inv h.found))))
                (record {
                  run = f r;
                  found = h.after;
                  running = ground (arith, h.passed);
                  current = refl;
                })
                (bound r h.found))
        ])

  -- A reclaim with the next attempt, or with the failure of the run, keeps the invariant.
  pub reclaim_and_create_attempt-Inv :
      (max_attempts : ℕ) (db : Database)
      → Inv db
      → ((r : AgentRun) → run_of i db ≡ some r → max_attempts ≡ r.max_attempts)
      → Inv (reclaim_and_create_attempt clock c i worker max_attempts db).1
  unfolding reclaim_and_create_attempt reclaim
  reclaim_and_create_attempt-Inv max_attempts db inv bound =
      let q = λ (r : AgentRun).
        is_in_progress r.status && lease_is_expired r.lease_expires_at clock.tested in
      let f = reclaimed clock worker in
      let db' = abandon clock i (written i q f db) in
      elim (write_cases i q f db (λ r. refl) inv.keys) [
        | inl (e, same) ↦ rw (e, reclaim_and_create_attempt) (rw same inv)
        | inr (r, h) ↦
            rw (h.returned, reclaim_and_create_attempt)
              (attempt_or_fail-Inv max_attempts (r.lease_generation + 1) db'
                (Inv-write db db' i inv
                  (Keys-update_attempts (is_abandoned i) (abandoned clock) (written i q f db)
                    (λ a. refl) (written-Keys i q f db (λ r. refl) inv.keys))
                  (written-others i q f db (λ r. refl) inv.keys)
                  (λ j ne. abandon_others clock i j db.attempts ne)
                  (rw h.after (
                    reclaimed-Consistent clock worker i r db.attempts (Inv-run db i r inv h.found)
                      (ground (arith, h.passed)))))
                (record {
                  run = f r;
                  found = h.after;
                  running = ground (arith, h.passed);
                  current = refl;
                })
                (bound r h.found))
      ]
