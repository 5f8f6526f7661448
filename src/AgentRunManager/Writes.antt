-- ===== src/AgentRunManager/Writes.antt =====
-- The conditional UPDATE of `agent_run` on which every ownership operation rests: it writes the
-- run's row if the row passes the condition, and nothing else.
use instructional_agent_mvp.Prelude.{
  ℕ, ◌≡◌, refl, ◌≢◌, sym, ap, String, Bool, true, false, ◌&&◌, ◌⊎◌, inl, inr, none, some, arith,
  find, update, ◌==◌, is_text, update-none, find-row-some, find-row, row-update_self, row-update_ne,
  Option-cases,
}
use instructional_agent_mvp.Schema.{Uuid, RunStatus, is_in_progress, AgentRun, Database}
use instructional_agent_mvp.AgentRunManager.{
  is_abandoned, abandoned, refresh_lease_for_same_owner_retry, refreshed, finish_if_owner, finished,
}
use instructional_agent_mvp.AgentRunManager.Lease.{Clock, lease_is_valid}
use instructional_agent_mvp.AgentRunManager.Invariant.{run_of, Keys, Keys-update_runs}

abbrev pub run_key : AgentRun → Uuid
run_key r = r.logical_run_id

abbrev pub hits : Uuid → (AgentRun → Bool) → AgentRun → Bool
hits i q r = r.logical_run_id == i && q r

abbrev pub written : Uuid → (AgentRun → Bool) → (AgentRun → AgentRun) → Database → Database
written i q f db = record db { agent_runs = update (hits i q) f db.agent_runs }

-- The statement by which a reclaim closes the attempts that its run left open.
abbrev pub abandon : Clock → Uuid → Database → Database
abandon clock i db = record db { attempts = update (is_abandoned i) (abandoned clock) db.attempts }

-- The statement hit the row `r`.
pub record Hit (i : Uuid) (q : AgentRun → Bool) (f : AgentRun → AgentRun) (db : Database)
    (r : AgentRun) : Type 0 where
  pub returned : find (hits i q) db.agent_runs ≡ some r
  pub found : run_of i db ≡ some r
  pub passed : q r ≡ true
  pub after : run_of i (written i q f db) ≡ some (f r)

module _ (i : Uuid) (q : AgentRun → Bool) (f : AgentRun → AgentRun) (db : Database)
    (same : (r : AgentRun) → run_key (f r) ≡ run_key r) (k : Keys db) where
  pub write_cases :
      ((find (hits i q) db.agent_runs ≡ none) × (written i q f db ≡ db))
      ⊎ ((r : AgentRun) × Hit i q f db r)
  write_cases = elim (Option-cases (find (hits i q) db.agent_runs)) [
    | inl e ↦ inl (
      e,
      ap (λ rows. record db { agent_runs = rows })
          (update-none run_key (hits i q) f db.agent_runs e),
    )
    | inr (r, e) ↦
        let (here, pass) = find-row-some run_key i q db.agent_runs r k.runs_unique e in
        inr (
          r,
          record {
            returned = e;
            found = here;
            passed = pass;
            after = row-update_self run_key i q f db.agent_runs r same here pass;
          },
        )
  ]

  pub written-others : (j : Uuid) → i ≢ j → run_of j (written i q f db) ≡ run_of j db
  written-others j ne = row-update_ne run_key i j q f db.agent_runs same ne

  pub written-Keys : Keys (written i q f db)
  written-Keys = Keys-update_runs (hits i q) f db same k

  -- Without the row the statement hits nothing.
  pub find-locked : run_of i db ≡ none → find (hits i q) db.agent_runs ≡ none
  find-locked e = ground (arith, find-row run_key i q db.agent_runs k.runs_unique)

-- The condition under which an owner may act, on a row that has the run's key.
abbrev pub owns : String → ℕ → ℕ → AgentRun → Bool
owns worker g now r =
    is_text r.claimed_by worker
    && (r.lease_generation == g
        && (is_in_progress r.status && lease_is_valid r.lease_expires_at now))

module _ (i : Uuid) (worker : String) (g : ℕ) (db : Database) (k : Keys db) where
  -- The lock adds no condition: the guarded UPDATE answers and writes as it would alone.
  pub finish_if_owner_lem :
      (s : RunStatus) (now : ℕ)
      → finish_if_owner s now i worker g db ≡ (
        elim (find (hits i (owns worker g now)) db.agent_runs) [ none ↦ false | some _ ↦ true ],
        written i (owns worker g now) (finished s) db,
      )
  unfolding finish_if_owner
  finish_if_owner_lem s now = elim (Option-cases (run_of i db)) [
    | inl e ↦
        let q = owns worker g now in
        let miss = find-locked i q (finished s) db (λ r. refl) k e in
        rw (e, miss)
          (ap (λ rows. (false, record db { agent_runs = rows }))
            (sym (update-none run_key (hits i q) (finished s) db.agent_runs miss)))
    | inr (r, e) ↦ rw e (ground arith)
  ]

  pub refresh_lem :
      (clock : Clock)
      → refresh_lease_for_same_owner_retry clock i worker g db ≡ (
        elim (find (hits i (owns worker g clock.tested)) db.agent_runs) [
          | none ↦ none
          | some r ↦ some r.lease_generation
        ],
        written i (owns worker g clock.tested) (refreshed clock) db,
      )
  unfolding refresh_lease_for_same_owner_retry
  refresh_lem clock = elim (Option-cases (run_of i db)) [
    | inl e ↦
        let q = owns worker g clock.tested in
        let miss = find-locked i q (refreshed clock) db (λ r. refl) k e in
        rw (e, miss)
          (ap (λ rows. (none, record db { agent_runs = rows }))
            (sym (update-none run_key (hits i q) (refreshed clock) db.agent_runs miss)))
    | inr (r, e) ↦ rw e (ground arith)
  ]
