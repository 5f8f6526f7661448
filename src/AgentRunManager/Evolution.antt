-- ===== src/AgentRunManager/Evolution.antt =====
-- How a run changes from one transaction to the next: its generation never falls, what it was
-- requested with stays, and an ended run stays as it is.
use native.Mathlib.Decide.{ℕ_discrete}
use instructional_agent_mvp.Prelude.{
  ℕ, ◌+◌, ◌≤◌, ◌≡◌, refl, sym, ap, ◌∙◌, subst, String, Bool, true, inl, inr, some, arith, ◌&&◌,
  ◌==◌, Bool-cases, ltb, row, find-insert, not, ◌||◌,
}
use instructional_agent_mvp.Schema.{
  Uuid, RunStatus, succeeded, failed, is_in_progress, is_pending, AgentRun, Database,
}
use instructional_agent_mvp.AgentRunManager.{
  is_abandoned, abandoned, RunRequest, new_run, create_agent_run, acquire, acquired, reclaim,
  reclaimed, refreshed, finished, mark_failed_if_owner, authorize_terminal_success, attempt_or_fail,
  acquire_and_create_first_attempt, reclaim_and_create_attempt, refresh_and_create_retry_attempt,
}
use instructional_agent_mvp.AgentRunManager.Lease.{Clock, lease_is_expired}
use instructional_agent_mvp.AgentRunManager.Attempts.{
  AttemptConfig, create_attempt, next_attempt_number,
}
use instructional_agent_mvp.AgentRunManager.Writes.{
  abandon, written, write_cases, written-others, written-Keys, owns, finish_if_owner_lem,
  refresh_lem, run_key,
}
use instructional_agent_mvp.AgentRunManager.Invariant.{run_of, Keys, Keys-update_attempts}

abbrev pub has_ended : RunStatus → Bool
has_ended s = not (is_pending s || is_in_progress s)

pub record Evolves (r r' : AgentRun) : Type 0 where
  pub generation : r.lease_generation ≤ r'.lease_generation
  pub target : r'.target_object_version_id ≡ r.target_object_version_id
  pub bound : r'.max_attempts ≡ r.max_attempts
  pub ended : has_ended r.status ≡ true → r' ≡ r

abbrev pub RunsEvolve : Database → Database → Type 0
RunsEvolve db db' =
    (i : Uuid) (r : AgentRun)
    → run_of i db ≡ some r
    → (r' : AgentRun) × ((run_of i db' ≡ some r') × Evolves r r')

pub Evolves-refl : (r : AgentRun) → Evolves r r
Evolves-refl r = record { generation = omega arith; target = refl; bound = refl; ended = λ _. refl }

Evolves-trans : (r r' r'' : AgentRun) → Evolves r r' → Evolves r' r'' → Evolves r r''
Evolves-trans r r' r'' e e' = record {
  generation = omega (arith, e.generation, e'.generation);
  target = e'.target ∙ e.target;
  bound = e'.bound ∙ e.bound;
  ended = λ h. e'.ended (ap (λ (x : AgentRun). has_ended x.status) (e.ended h) ∙ h) ∙ e.ended h;
}

pub same_runs-RunsEvolve : (db db' : Database) → db'.agent_runs ≡ db.agent_runs → RunsEvolve db db'
same_runs-RunsEvolve db db' e i r h = (r, (ap (row run_key i) e ∙ h, Evolves-refl r))

pub RunsEvolve-trans : (a b c : Database) → RunsEvolve a b → RunsEvolve b c → RunsEvolve a c
RunsEvolve-trans a b c e e' i r h =
    let (r', (h', v)) = e i r h in
    let (r'', (h'', v')) = e' i r' h' in (r'', (h'', Evolves-trans r r' r'' v v'))

some_inj : (x r : AgentRun) → some x ≡ some r → x ≡ r
some_inj x r e = ground arith

module _ (i : Uuid) (q : AgentRun → Bool) (f : AgentRun → AgentRun) (db : Database) (k : Keys db)
    (same : (r : AgentRun) → run_key (f r) ≡ run_key r)
    (step : (r : AgentRun) → q r ≡ true → Evolves r (f r)) where
  pub written-RunsEvolve : RunsEvolve db (written i q f db)
  written-RunsEvolve j r h = elim (write_cases i q f db same k) [
    | inl (e, none_hit) ↦ (r, (ap (run_of j) none_hit ∙ h, Evolves-refl r))
    | inr (x, hit) ↦ elim (ℕ_discrete i j) [
      | yes e ↦
          let found = ap (λ n. run_of n db) (sym e) ∙ hit.found in
          let x_r : x ≡ r = some_inj x r (sym found ∙ h) in
          (
            f x,
            (
              ap (λ n. run_of n (written i q f db)) (sym e) ∙ hit.after,
              subst (λ y. Evolves y (f x)) x_r (step x hit.passed),
            ),
          )
      | no ne ↦ (r, (written-others i q f db same k j ne ∙ h, Evolves-refl r))
    ]
  ]

acquired-Evolves :
    (clock : Clock) (worker : String) (r : AgentRun)
    → is_pending r.status ≡ true
    → Evolves r (acquired clock worker r)
acquired-Evolves clock worker r e = record {
  generation = omega arith;
  target = refl;
  bound = refl;
  ended = λ h. ground arith;
}

reclaimed-Evolves :
    (clock : Clock) (worker : String) (r : AgentRun)
    → is_in_progress r.status ≡ true
    → Evolves r (reclaimed clock worker r)
reclaimed-Evolves clock worker r e = record {
  generation = omega arith;
  target = refl;
  bound = refl;
  ended = λ h. ground arith;
}

refreshed-Evolves :
    (clock : Clock) (r : AgentRun) → is_in_progress r.status ≡ true → Evolves r (refreshed clock r)
refreshed-Evolves clock r e = record {
  generation = omega arith;
  target = refl;
  bound = refl;
  ended = λ h. ground arith;
}

finished-Evolves :
    (s : RunStatus) (r : AgentRun) → is_in_progress r.status ≡ true → Evolves r (finished s r)
finished-Evolves s r e = record {
  generation = omega arith;
  target = refl;
  bound = refl;
  ended = λ h. ground arith;
}

module _ (clock : Clock) (c : AttemptConfig) (i : Uuid) (worker : String) (db : Database)
    (k : Keys db) where
  pub acquire-RunsEvolve : RunsEvolve db (acquire_and_create_first_attempt clock c i worker db).1
  unfolding acquire_and_create_first_attempt acquire create_attempt
  acquire-RunsEvolve =
      let q = λ (r : AgentRun). is_pending r.status in
      let f = acquired clock worker in
      elim (write_cases i q f db (λ r. refl) k) [
        | inl (e, same) ↦
            rw (e, acquire_and_create_first_attempt)
              (same_runs-RunsEvolve db (written i q f db)
                (ap (λ (d : Database). d.agent_runs) same))
        | inr (r, h) ↦
            rw (h.returned, acquire_and_create_first_attempt)
              (RunsEvolve-trans db (written i q f db)
                (create_attempt c i 1 (r.lease_generation + 1) (written i q f db)).1
                (written-RunsEvolve i q f db k (λ r. refl) (acquired-Evolves clock worker))
                (same_runs-RunsEvolve (written i q f db)
                  (create_attempt c i 1 (r.lease_generation + 1) (written i q f db)).1 refl))
      ]

  pub failed-RunsEvolve : (now g : ℕ) → RunsEvolve db (mark_failed_if_owner now i worker g db).1
  unfolding mark_failed_if_owner
  failed-RunsEvolve now g = rw (finish_if_owner_lem i worker g db k failed now) (
      written-RunsEvolve i (owns worker g now) (finished failed) db k (λ r. refl)
        (λ r e. finished-Evolves failed r (ground arith)))

  pub attempt_or_fail-RunsEvolve :
      (max_attempts g : ℕ) → RunsEvolve db (attempt_or_fail clock c i worker max_attempts g db).1
  unfolding attempt_or_fail create_attempt
  attempt_or_fail-RunsEvolve max_attempts g =
      elim (Bool-cases (ltb max_attempts (next_attempt_number i db))) [
        | inl over ↦ rw (over, attempt_or_fail) (failed-RunsEvolve clock.marked g)
        | inr room ↦
            rw (room, attempt_or_fail)
              (same_runs-RunsEvolve db (create_attempt c i (next_attempt_number i db) g db).1 refl)
      ]

module _ (clock : Clock) (c : AttemptConfig) (i : Uuid) (worker : String) (db : Database)
    (k : Keys db) where
  pub refresh-RunsEvolve :
      (g max_attempts : ℕ)
      → RunsEvolve db (refresh_and_create_retry_attempt clock c i worker g max_attempts db).1
  unfolding refresh_and_create_retry_attempt
  refresh-RunsEvolve g max_attempts =
      let q = owns worker g clock.tested in
      let f = refreshed clock in
      let db' = written i q f db in
      rw (refresh_lem i worker g db k clock) (elim (write_cases i q f db (λ r. refl) k) [
        | inl (e, same) ↦
            rw e (
              same_runs-RunsEvolve db (written i q f db) (ap (λ (d : Database). d.agent_runs) same))
        | inr (r, h) ↦ rw h.returned (
            RunsEvolve-trans db db'
              (attempt_or_fail clock c i worker max_attempts r.lease_generation db').1
              (written-RunsEvolve i q f db k (λ r. refl)
                (λ r e. refreshed-Evolves clock r (ground arith)))
              (attempt_or_fail-RunsEvolve clock c i worker db' (written-Keys i q f db (λ r. refl) k)
                max_attempts r.lease_generation))
      ])

  pub reclaim-RunsEvolve :
      (max_attempts : ℕ)
      → RunsEvolve db (reclaim_and_create_attempt clock c i worker max_attempts db).1
  unfolding reclaim_and_create_attempt reclaim
  reclaim-RunsEvolve max_attempts =
      let q = λ (r : AgentRun).
        is_in_progress r.status && lease_is_expired r.lease_expires_at clock.tested in
      let f = reclaimed clock worker in
      let db' = abandon clock i (written i q f db) in
      elim (write_cases i q f db (λ r. refl) k) [
        | inl (e, same) ↦
            rw (e, reclaim_and_create_attempt)
              (same_runs-RunsEvolve db (written i q f db)
                (ap (λ (d : Database). d.agent_runs) same))
        | inr (r, h) ↦
            rw (h.returned, reclaim_and_create_attempt)
              (RunsEvolve-trans db db'
                (attempt_or_fail clock c i worker max_attempts (r.lease_generation + 1) db').1
                (RunsEvolve-trans db (written i q f db) db'
                  (written-RunsEvolve i q f db k (λ r. refl)
                    (λ r e. reclaimed-Evolves clock worker r (ground arith)))
                  (same_runs-RunsEvolve (written i q f db) db' refl))
                (attempt_or_fail-RunsEvolve clock c i worker db'
                  (Keys-update_attempts (is_abandoned i) (abandoned clock) (written i q f db)
                    (λ a. refl) (written-Keys i q f db (λ r. refl) k))
                  max_attempts (r.lease_generation + 1)))
      ]

pub success-RunsEvolve :
    (now : ℕ) (i : Uuid) (worker : String) (g : ℕ) (db : Database)
    → Keys db
    → RunsEvolve db (authorize_terminal_success now i worker g db).1
unfolding authorize_terminal_success
success-RunsEvolve now i worker g db k = rw (finish_if_owner_lem i worker g db k succeeded now) (
    written-RunsEvolve i (owns worker g now) (finished succeeded) db k (λ r. refl)
      (λ r e. finished-Evolves succeeded r (ground arith)))

pub create-RunsEvolve : (q : RunRequest) (db : Database) → RunsEvolve db (create_agent_run q db).1
unfolding create_agent_run
create-RunsEvolve q db i r h = (
  r,
  (
    ground (arith, find-insert (λ x. run_key x == i) (new_run q db.next_uuid) db.agent_runs),
    Evolves-refl r,
  ),
)
