-- ===== src/AgentRunManager/Closing.antt =====
-- Closing an attempt, and ending a run with its successful attempt, keep the invariant.
use instructional_agent_mvp.Prelude.{
  ℕ, suc, ◌≡◌, ◌≢◌, refl, sym, ◌∙◌, subst, String, true, false, Option, none, some, List, [], ◌∷◌,
  arith, ◌==◌, update, row, Unique, select-update, length-update, row-update_self,
}
use instructional_agent_mvp.Schema.{
  Uuid, succeeded, AttemptOutcome, is_success, is_in_progress, Json, AgentRun, AgentRunAttempt,
  Database,
}
use instructional_agent_mvp.AgentRunManager.{finished, authorize_terminal_success}
use instructional_agent_mvp.AgentRunManager.Attempts.{
  attempts_of, close_attempt, is_open_attempt, closed,
}
use instructional_agent_mvp.AgentRunManager.Counts.{
  open_count, Numbered-update, close_counts, close_failure, close-Fenced,
}
use instructional_agent_mvp.AgentRunManager.Consistency.{Consistent}
use instructional_agent_mvp.AgentRunManager.Writes.{
  written, written-others, written-Keys, owns, finish_if_owner_lem, run_key,
}
use instructional_agent_mvp.AgentRunManager.Fencing.{IsOwner, IsOwner-owns}
use instructional_agent_mvp.AgentRunManager.Invariant.{
  run_of, own_attempts, Keys, Inv, Inv-run, Inv-write, ConsistentWith, Keys-update_attempts,
}

abbrev pub attempt_key : AgentRunAttempt → Uuid
attempt_key a = a.attempt_id

module _ (started : ℕ) (id : Uuid) (outcome : AttemptOutcome) (detail : Option String)
    (payload : Option Json) where
  abbrev close : List AgentRunAttempt → List AgentRunAttempt
  close = update (is_open_attempt id) (closed started outcome detail payload)

  own-close :
      (i : Uuid) (rows : List AgentRunAttempt)
      → attempts_of i (close rows) ≡ close (attempts_of i rows)
  own-close i rows =
      select-update (λ a. a.logical_run_id == i) (is_open_attempt id)
        (closed started outcome detail payload) rows (λ a. refl)

  open-none : (rows : List AgentRunAttempt) → row attempt_key id rows ≡ none → close rows ≡ rows
  open-none [] h = refl
  open-none (a ∷ rows) h = ground (arith, open-none rows)

  -- A closed attempt stays as it is.
  open-some :
      (rows : List AgentRunAttempt) (a : AgentRunAttempt) (x : AttemptOutcome)
      → Unique attempt_key rows
      → row attempt_key id rows ≡ some a
      → a.outcome ≡ some x
      → close rows ≡ rows
  open-some [] a x u h e = refl
  open-some (b ∷ rows) a x u h e = ground (arith, open-some rows a x u.1, open-none rows, u.0)

  -- Closing an open attempt of a run leaves one open attempt less there, and the other runs' as
  -- they were.
  close_own :
      (rows : List AgentRunAttempt) (a : AgentRunAttempt)
      → Unique attempt_key rows
      → row attempt_key id rows ≡ some a
      → a.outcome ≡ none
      → suc (open_count (attempts_of a.logical_run_id (close rows)))
        ≡ open_count (attempts_of a.logical_run_id rows)
  close_own (x ∷ rows) a u h still = ground (arith, close_own rows a u.1, open-none rows, u.0)
  close_own [] a u h still = absurd (ground arith)

  close_other :
      (rows : List AgentRunAttempt) (a : AgentRunAttempt) (j : Uuid)
      → Unique attempt_key rows
      → row attempt_key id rows ≡ some a
      → a.logical_run_id ≢ j
      → attempts_of j (close rows) ≡ attempts_of j rows
  close_other (x ∷ rows) a j u h ne = ground (arith, close_other rows a j u.1, open-none rows, u.0)
  close_other [] a j u h ne = refl

  close-Keys : (db : Database) → Keys db → Keys (close_attempt started id outcome detail payload db)
  unfolding close_attempt
  close-Keys db k =
      Keys-update_attempts (is_open_attempt id) (closed started outcome detail payload) db
        (λ a. refl) k

  failure-Consistent :
      (r : AgentRun) (rows : List AgentRunAttempt)
      → is_success (some outcome) ≡ false
      → Consistent r rows
      → Consistent r (close rows)
  failure-Consistent r rows fails v = record {
    numbered =
        Numbered-update 1 (is_open_attempt id) (closed started outcome detail payload) rows
          (λ a. refl) v.numbered;
    bounded =
        rw (length-update (is_open_attempt id) (closed started outcome detail payload) rows)
          v.bounded;
    one_success = rw (close_failure started id outcome detail payload rows fails) v.one_success;
    fenced = close-Fenced started id outcome detail payload r.lease_generation rows v.fenced;
    leased = v.leased;
  }

  -- Closing an attempt without success keeps the invariant, whoever closes it and whenever.
  pub close_attempt-Inv :
      (db : Database)
      → is_success (some outcome) ≡ false
      → Inv db
      → Inv (close_attempt started id outcome detail payload db)
  unfolding close_attempt
  close_attempt-Inv db fails inv = record {
    keys = close-Keys db inv.keys;
    runs = λ i. rw (own-close i db.attempts) (keeps (run_of i db) (own_attempts i db) (inv.runs i));
  }
    where
      keeps :
          (o : Option AgentRun) (rows : List AgentRunAttempt)
          → ConsistentWith o rows
          → ConsistentWith o (close rows)
      keeps none [] h = refl
      keeps none (a ∷ rows) h = absurd (ground arith)
      keeps (some r) rows h = failure-Consistent r rows fails h

-- The attempt under which a run is ended: an open one of the run.
pub record HoldsAttempt (id i : Uuid) (db : Database) : Type 0 where
  pub attempt : AgentRunAttempt
  pub found : row attempt_key id db.attempts ≡ some attempt
  pub of_run : attempt.logical_run_id ≡ i
  pub still_open : attempt.outcome ≡ none

module _ (started : ℕ) (id i : Uuid) (outcome : AttemptOutcome) (detail : Option String)
    (payload : Option Json) where
  ended-Consistent :
      (r : AgentRun) (rows : List AgentRunAttempt) (a : AgentRunAttempt)
      → Unique attempt_key rows
      → row attempt_key id rows ≡ some a
      → a.outcome ≡ none
      → Consistent r (attempts_of a.logical_run_id rows)
      → is_in_progress r.status ≡ true
      → Consistent
          (finished succeeded r)
          (attempts_of a.logical_run_id (close started id outcome detail payload rows))
  ended-Consistent r rows a u h e v running =
      let own = attempts_of a.logical_run_id rows in
      let c = own-close started id outcome detail payload a.logical_run_id rows in
      let f = closed started outcome detail payload in
      let counts = close_counts started id outcome detail payload own in
      let less' : suc (open_count (close started id outcome detail payload own)) ≡ open_count own =
        subst (λ l. suc (open_count l) ≡ open_count own) c
          (close_own started id outcome detail payload rows a u h e) in
      record {
        numbered = rw c (Numbered-update 1 (is_open_attempt id) f own (λ x. refl) v.numbered);
        bounded = rw c (rw (length-update (is_open_attempt id) f own) (ground (arith, v.bounded)));
        one_success = rw c (ground (arith, counts.1, less', v.one_success));
        fenced =
            rw c (close-Fenced started id outcome detail payload r.lease_generation own v.fenced);
        leased = λ h. ground arith;
      }

  -- A run that its owner ends, with an open attempt of it closed in the same transaction.
  pub success-Inv :
      (now : ℕ) (worker : String) (g : ℕ) (db : Database) (r : AgentRun)
      → Inv db
      → HoldsAttempt id i db
      → run_of i db ≡ some r
      → IsOwner worker g now r
      → Inv (
          close_attempt started id outcome detail payload
            (authorize_terminal_success now i worker g db).1)
  unfolding authorize_terminal_success close_attempt
  success-Inv now worker g db r inv held found o =
      let q = owns worker g now in
      let f = finished succeeded in
      let a = held.attempt in
      let db' = close_attempt started id outcome detail payload (written i q f db) in
      let k = written-Keys i q f db (λ r. refl) inv.keys in
      let pass = IsOwner-owns worker g now r o in
      rw (finish_if_owner_lem i worker g db inv.keys succeeded now) (
        Inv-write db db' i inv (close-Keys started id outcome detail payload (written i q f db) k)
          (written-others i q f db (λ r. refl) inv.keys)
          (λ j ne.
            close_other started id outcome detail payload db.attempts a j inv.keys.attempts_unique
              held.found (λ e. ne (sym held.of_run ∙ e)))
          (subst (λ o'. ConsistentWith o' (own_attempts i db'))
            (sym (row-update_self run_key i q f db.agent_runs r (λ x. refl) found pass))
            (subst (λ j. Consistent (f r) (own_attempts j db')) held.of_run
              (ended-Consistent r db.attempts a inv.keys.attempts_unique held.found held.still_open
                (subst (λ j. Consistent r (own_attempts j db)) (sym held.of_run)
                  (Inv-run db i r inv found))
                o.running))))

closed-Consistent :
    (r : AgentRun) (rows : List AgentRunAttempt)
    → Consistent r rows
    → is_in_progress r.status ≡ true
    → Consistent (finished succeeded r) rows
closed-Consistent r rows v running = record {
  numbered = v.numbered;
  bounded = ground (arith, v.bounded);
  one_success = ground (arith, v.one_success);
  fenced = v.fenced;
  leased = λ h. ground arith;
}

-- A run that its owner ends, when the attempt is closed already.
pub success_closed-Inv :
    (started : ℕ) (id i : Uuid) (outcome : AttemptOutcome) (detail : Option String)
    (payload : Option Json) (now : ℕ) (worker : String) (g : ℕ) (db : Database) (r : AgentRun)
    (a : AgentRunAttempt) (x : AttemptOutcome)
    → Inv db
    → row attempt_key id db.attempts ≡ some a
    → a.outcome ≡ some x
    → run_of i db ≡ some r
    → IsOwner worker g now r
    → Inv (
        close_attempt started id outcome detail payload
          (authorize_terminal_success now i worker g db).1)
unfolding authorize_terminal_success close_attempt
success_closed-Inv started id i outcome detail payload now worker g db r a x inv held shut found o =
    let q = owns worker g now in
    let f = finished succeeded in
    let pass = IsOwner-owns worker g now r o in
    rw
      (
        finish_if_owner_lem i worker g db inv.keys succeeded now,
        open-some started id outcome detail payload db.attempts a x inv.keys.attempts_unique held
            shut,
      )
      (Inv-write db (written i q f db) i inv (written-Keys i q f db (λ r. refl) inv.keys)
        (written-others i q f db (λ r. refl) inv.keys) (λ j ne. refl)
        (subst (λ o'. ConsistentWith o' (own_attempts i db))
          (sym (row-update_self run_key i q f db.agent_runs r (λ x. refl) found pass))
          (closed-Consistent r (own_attempts i db) (Inv-run db i r inv found) o.running)))
