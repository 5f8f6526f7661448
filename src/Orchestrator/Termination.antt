-- ===== src/Orchestrator/Termination.antt =====
-- The loop of `_phase_b_execute` of src/persistence/repositories/orchestrator.py ends: every pass
-- but the last creates an attempt, and there are at most as many as the run's bound.
use instructional_agent_mvp.Prelude.{
  ℕ, zero, suc, ◌+◌, ◌≤◌, ◌≡◌, ◌≢◌, refl, String, Bool, true, false, Option, none, some, inl, inr,
  ◌⊎◌, List, [], ◌∷◌, arith, All, Option-cases,
}
use instructional_agent_mvp.Schema.{Uuid, Json, Database}
use instructional_agent_mvp.Session.{Session, Result, ok, raised, Action, idle, follow}
use instructional_agent_mvp.Session.{pure}
use instructional_agent_mvp.Session.Laws.{turn, later}
use instructional_agent_mvp.Hashing.{Hashing}
use instructional_agent_mvp.AgentRunManager.{AttemptAuthorization, refresh_and_create_retry_attempt}
use instructional_agent_mvp.AgentRunManager.Lease.{Clock}
use instructional_agent_mvp.AgentRunManager.Attempts.{next_attempt_number, close_attempt}
use instructional_agent_mvp.Orchestrator.PhaseB.{
  Execution, Outside, Pass, Held, Reading, Judgement, rejected, accepted, held, attempt_config,
  retry_run, finalization, judged, after_judgement, next_pass, attempts_loop, reclaim_run,
  or_reclaim,
}
use instructional_agent_mvp.Orchestrator.PhaseC.{phase_c_finalize}
use instructional_agent_mvp.Orchestrator.Attempting.{next-close, reclaim-granted, retry-granted}

-- What other sessions commit takes no attempt of the run away.
abbrev pub KeepsAttempts : Uuid → List (Database → Database) → Type 0
KeepsAttempts run_id = All (λ (f : Database → Database).
    (db : Database) → next_attempt_number run_id db ≤ next_attempt_number run_id (f db))

turn-grows :
    (run_id : Uuid) (schedule : List (Database → Database)) (db : Database)
    → KeepsAttempts run_id schedule
    → (next_attempt_number run_id db ≤ next_attempt_number run_id (turn schedule db))
      × KeepsAttempts run_id (later schedule)
turn-grows run_id [] db k = (omega arith, tt)
turn-grows run_id (f ∷ rest) db k = (k.0 db, k.1)

module _ (e : Execution) where
  abbrev next : Database → ℕ
  next = next_attempt_number e.logical_run_id

  abbrev refresh : Pass → Held → Database → AttemptAuthorization × Database
  refresh pass y =
      refresh_and_create_retry_attempt pass.refreshed (attempt_config e) e.logical_run_id
        e.worker_id y.generation e.max_attempts

  or_reclaimed :
      (clock : Clock) (auth : AttemptAuthorization) (before after : Database)
      (rest : List (Database → Database))
      → let now = turn rest before in
        let s : Session = record (idle before rest) { working = after; in_transaction = true } in
        (or_reclaim clock e auth s ≡ (ok (held auth), idle after rest))
        ⊎ (or_reclaim clock e auth s ≡ (
          ok (held (reclaim_run clock e now).0),
          idle (reclaim_run clock e now).1 (later rest),
        ))
  or_reclaimed clock auth before after [] = elim (Option-cases auth.generation) [
    | inr (g, e') ↦ inl (rw e' refl)
    | inl e' ↦ inr (rw e' refl)
  ]
  or_reclaimed clock auth before after (f ∷ rest) = elim (Option-cases auth.generation) [
    | inr (g, e') ↦ inl (rw e' refl)
    | inl e' ↦ inr (rw e' refl)
  ]

  -- What a retry gives, by what the refreshed lease allows.
  retried :
      (pass : Pass) (y : Held) (db : Database) (schedule : List (Database → Database))
      → let now = turn schedule db in
        let later_now = turn (later schedule) now in
        (retry_run pass e y (idle db schedule)
          ≡ (ok (held (refresh pass y now).0), idle (refresh pass y now).1 (later schedule)))
        ⊎ (retry_run pass e y (idle db schedule) ≡ (
          ok (held (reclaim_run pass.reclaimed e later_now).0),
          idle (reclaim_run pass.reclaimed e later_now).1 (later (later schedule)),
        ))
  retried pass y db [] =
      or_reclaimed pass.reclaimed (refresh pass y db).0 db (refresh pass y db).1 []
  retried pass y db (f ∷ rest) =
      or_reclaimed pass.reclaimed (refresh pass y (f db)).0 (f db) (refresh pass y (f db)).1 rest

  -- A pass of the loop goes on only with one more attempt, within the bound.
  abbrev IsNext : Database → Database → Type 0
  IsNext db db' = (suc (next db) ≤ next db') × (next db' ≤ suc e.max_attempts)

not_false : {A : Type 0} (r : Result A × Session) → (follow (λ (a : A). pure true) r).0 ≢ ok false
not_false (ok a, s) = λ e. cc e
not_false (raised x, s) = λ e. cc e

module _ (h : Hashing) (repr : Json → String) (w : Outside) (e : Execution) where
  abbrev Returns : Result Bool × Session → Type 0
  Returns r = r.0 ≢ ok false

  module _ (again : Held → Action Bool) (db : Database)
      (k : (y : Held) (db' : Database) (schedule : List (Database → Database))
        → KeepsAttempts e.logical_run_id schedule
        → IsNext e db db'
        → Returns (again y (idle db' schedule))) where
    pass_on :
        (o : Option Held) (db' : Database) (schedule : List (Database → Database))
        → KeepsAttempts e.logical_run_id schedule
        → ((y : Held) → o ≡ some y → IsNext e db db')
        → Returns (next_pass h repr w e again o (idle db' schedule))
    pass_on none db' schedule keeps n = λ e'. cc e'
    pass_on (some y) db' schedule keeps n = k y db' schedule keeps (n y refl)

    retry-Returns :
        (pass : Pass) (y : Held) (db₁ : Database) (schedule : List (Database → Database))
        → KeepsAttempts e.logical_run_id schedule
        → next e db ≤ next e db₁
        → Returns (follow (next_pass h repr w e again) (retry_run pass e y (idle db₁ schedule)))
    retry-Returns pass y db₁ schedule keeps le =
        let now = turn schedule db₁ in
        let (le₁, keeps₁) = turn-grows e.logical_run_id schedule db₁ keeps in
        let later_now = turn (later schedule) now in
        let (le₂, keeps₂) = turn-grows e.logical_run_id (later schedule) now keeps₁ in
        elim (retried e pass y db₁ schedule) [
          | inl e' ↦ rw e' (
              pass_on (held (refresh e pass y now).0) (refresh e pass y now).1 (later schedule)
                keeps₁
                (λ y' e''.
                  let (a, b) =
                    retry-granted e.logical_run_id pass.refreshed (attempt_config e) e.worker_id
                      e.max_attempts y.generation now y' e'' in
                  (omega arith, omega arith)))
          | inr e' ↦ rw e' (
              pass_on (held (reclaim_run pass.reclaimed e later_now).0)
                (reclaim_run pass.reclaimed e later_now).1 (later (later schedule)) keeps₂
                (λ y' e''.
                  let (a, b) =
                    reclaim-granted e.logical_run_id pass.reclaimed (attempt_config e) e.worker_id
                      e.max_attempts later_now y' e'' in
                  (omega arith, omega arith)))
        ]

    judgement-Returns :
        (pass : Pass) (y : Held) (j : Judgement) (schedule : List (Database → Database))
        → KeepsAttempts e.logical_run_id schedule
        → Returns (after_judgement h repr w e again pass y j (idle db schedule))
    judgement-Returns pass y (rejected outcome detail output) [] keeps =
        retry-Returns pass y (close_attempt pass.ended y.attempt_id outcome detail output db) [] tt
          (rw (next-close e.logical_run_id pass.ended y.attempt_id outcome detail output db)
            (omega arith))
    judgement-Returns pass y (rejected outcome detail output) (f ∷ rest) keeps =
        retry-Returns pass y (close_attempt pass.ended y.attempt_id outcome detail output (f db))
          rest keeps.1
          (rw (next-close e.logical_run_id pass.ended y.attempt_id outcome detail output (f db))
            (keeps.0 db))
    judgement-Returns pass y (accepted output) schedule keeps =
        not_false (phase_c_finalize h pass.final (finalization e y output) (idle db schedule))

  loop-Returns :
      (x : Reading) (n : ℕ) (y : Held) (db : Database) (schedule : List (Database → Database))
      → KeepsAttempts e.logical_run_id schedule
      → suc (suc e.max_attempts) ≤ next e db + n
      → 1 ≤ n
      → Returns (attempts_loop h repr w e x n y (idle db schedule))
  unfolding attempts_loop
  loop-Returns x zero y db schedule keeps le one = absurd (omega arith)
  loop-Returns x (suc n) y db schedule keeps le one =
      judgement-Returns (attempts_loop h repr w e x n) db
        (λ y' db' schedule' keeps' (a, b).
          loop-Returns x n y' db' schedule' keeps' (omega arith) (omega arith))
        (w.passes n) y (judged h repr w e x n) schedule keeps

  -- With fuel for one pass more than the bound on the attempts, which is what phase B starts with,
  -- the loop returns or raises and never runs out of fuel, whatever the producer answers, if no
  -- other session takes attempts of the run away.
  pub attempts_loop-Returns :
      (x : Reading) (y : Held) (db : Database) (schedule : List (Database → Database))
      → KeepsAttempts e.logical_run_id schedule
      → (attempts_loop h repr w e x (suc e.max_attempts) y (idle db schedule)).0 ≢ ok false
  unfolding next_attempt_number
  attempts_loop-Returns x y db schedule keeps =
      loop-Returns x (suc e.max_attempts) y db schedule keeps (omega arith) (omega arith)
