-- ===== src/AgentRunManager/Fencing.antt =====
-- Who may act on a run: the owner of its current generation, under a lease that is still valid.
use instructional_agent_mvp.Prelude.{
  ℕ, ◌<◌, ◌≡◌, ◌↔◌, refl, String, true, false, inl, inr, some, arith, text_eq_iff, find-row,
  row-update_self, Option-cases,
}
use instructional_agent_mvp.Schema.{Uuid, RunStatus, succeeded, is_in_progress, AgentRun, Database}
use instructional_agent_mvp.AgentRunManager.{
  refused, refreshed, finish_if_owner, finished, authorize_terminal_success,
  refresh_and_create_retry_attempt,
}
use instructional_agent_mvp.AgentRunManager.Lease.{Clock}
use instructional_agent_mvp.AgentRunManager.Attempts.{AttemptConfig}
use instructional_agent_mvp.AgentRunManager.Writes.{
  write_cases, owns, finish_if_owner_lem, refresh_lem, run_key,
}
use instructional_agent_mvp.AgentRunManager.Invariant.{run_of, Keys}

-- The worker holds the run's current generation, the run is in progress, and its lease runs out
-- after `now`.
pub record IsOwner (worker : String) (g now : ℕ) (r : AgentRun) : Type 0 where
  pub holds : r.claimed_by ≡ some worker
  pub current : r.lease_generation ≡ g
  pub running : is_in_progress r.status ≡ true
  pub expiry : ℕ
  pub leased : r.lease_expires_at ≡ some expiry
  pub lasts : now < expiry

module _ (worker : String) (g now : ℕ) (r : AgentRun) where
  pub owns-IsOwner : owns worker g now r ≡ true → IsOwner worker g now r
  owns-IsOwner e = elim (Option-cases r.lease_expires_at) [
    | inl e' ↦ absurd (ground arith)
    | inr (expiry, e') ↦ record {
      holds = holds;
      current = ground arith;
      running = ground arith;
      expiry = expiry;
      leased = e';
      lasts = ground arith;
    }
  ]
    where
      holds : r.claimed_by ≡ some worker
      holds = elim (Option-cases r.claimed_by) [
        | inl e' ↦ absurd (ground arith)
        | inr (w, e') ↦ ground (arith, text_eq_iff w worker)
      ]

  pub IsOwner-owns : IsOwner worker g now r → owns worker g now r ≡ true
  IsOwner-owns o =
      ground (arith, o.holds, o.current, o.running, o.leased, o.lasts, text_eq_iff worker worker)

module _ (s : RunStatus) (now : ℕ) (i : Uuid) (worker : String) (g : ℕ) (db : Database)
    (k : Keys db) where
  -- A run ends if its owner asks, with only its status changed.
  pub owner_finishes :
      (r : AgentRun)
      → run_of i db ≡ some r
      → IsOwner worker g now r
      → ((finish_if_owner s now i worker g db).0 ≡ true)
        × (run_of i (finish_if_owner s now i worker g db).1 ≡ some (finished s r))
  owner_finishes r e o =
      let q = owns worker g now in
      let pass = IsOwner-owns worker g now r o in
      rw (finish_if_owner_lem i worker g db k s now) (
        ground (arith, find-row run_key i q db.agent_runs k.runs_unique),
        row-update_self run_key i q (finished s) db.agent_runs r (λ x. refl) e pass,
      )

  -- For any other caller nothing is written.
  pub others_finish_nothing :
      ((r : AgentRun) → run_of i db ≡ some r → ¬ IsOwner worker g now r)
      → finish_if_owner s now i worker g db ≡ (false, db)
  others_finish_nothing n =
      rw (finish_if_owner_lem i worker g db k s now)
        (elim (write_cases i (owns worker g now) (finished s) db (λ r. refl) k) [
          | inl (e, same) ↦ rw (e, same) refl
          | inr (r, h) ↦ absurd (n r h.found (owns-IsOwner worker g now r h.passed))
        ])

  finished_by-IsOwner :
      (finish_if_owner s now i worker g db).0 ≡ true
      → (r : AgentRun) × ((run_of i db ≡ some r) × IsOwner worker g now r)
  finished_by-IsOwner e = elim (write_cases i (owns worker g now) (finished s) db (λ r. refl) k) [
    | inl (miss, same) ↦ absurd (ground (arith, finish_if_owner_lem i worker g db k s now))
    | inr (r, h) ↦ (r, (h.found, owns-IsOwner worker g now r h.passed))
  ]

-- A success is authorised exactly if the run exists and the worker owns it: it holds the current
-- generation of a run in progress, and its lease runs out after the time of the test.
pub authorized_iff_IsOwner :
    (now : ℕ) (i : Uuid) (worker : String) (g : ℕ) (db : Database)
    → Keys db
    → ((authorize_terminal_success now i worker g db).0 ≡ true)
      ↔ ((r : AgentRun) × ((run_of i db ≡ some r) × IsOwner worker g now r))
unfolding authorize_terminal_success
authorized_iff_IsOwner now i worker g db k = (
  finished_by-IsOwner succeeded now i worker g db k,
  λ (r, (e, o)). (owner_finishes succeeded now i worker g db k r e o).0,
)

module _ (clock : Clock) (i : Uuid) (worker : String) (db : Database) (k : Keys db) where
  -- A retry by a caller that is no owner is refused, and writes nothing.
  pub others_refresh_nothing :
      (c : AttemptConfig) (g max_attempts : ℕ)
      → ((r : AgentRun) → run_of i db ≡ some r → ¬ IsOwner worker g clock.tested r)
      → refresh_and_create_retry_attempt clock c i worker g max_attempts db ≡ (refused, db)
  unfolding refresh_and_create_retry_attempt
  others_refresh_nothing c g max_attempts n =
      rw (refresh_lem i worker g db k clock)
        (elim (write_cases i (owns worker g clock.tested) (refreshed clock) db (λ r. refl) k) [
          | inl (e, same) ↦ rw (e, same) refl
          | inr (r, h) ↦ absurd (n r h.found (owns-IsOwner worker g clock.tested r h.passed))
        ])
