-- ===== src/Orchestrator/Finalized.antt =====
-- What `_phase_c_finalize` answers and leaves stored.
use instructional_agent_mvp.Prelude.{
  ◌≡◌, ◌≢◌, ◌∙◌, refl, subst, String, Bool, true, false, Option, none, some, List, [], ◌∷◌, arith,
  insert, Unique, row-update_self, find-row,
}
use instructional_agent_mvp.Schema.{
  AttemptOutcome, claim_lost, succeeded, object, AgentRun, ObjectVersionContent, Database,
}
use instructional_agent_mvp.Session.{Session, Result, ok, idle}
use instructional_agent_mvp.Session.Laws.{turn, later}
use instructional_agent_mvp.Hashing.{Hashing}
use instructional_agent_mvp.WorkflowTransition.{
  TransitionRequest, TransitionResult, TransitionOutcome, compute_transition_payload_hash,
  after_move,
}
use instructional_agent_mvp.WorkflowTransition.Effects.{
  version_key, version_of, IsLegal, legal_moves, committed_iff_legal, legal_writes,
}
use instructional_agent_mvp.AgentRunManager.{authorize_terminal_success, finished}
use instructional_agent_mvp.AgentRunManager.Attempts.{close_attempt}
use instructional_agent_mvp.AgentRunManager.Writes.{written, owns, run_key, finish_if_owner_lem}
use instructional_agent_mvp.AgentRunManager.Invariant.{run_of, Keys, Inv}
use instructional_agent_mvp.AgentRunManager.Closing.{HoldsAttempt, success-Inv}
use instructional_agent_mvp.AgentRunManager.Steps.{elsewhere-Inv}
use instructional_agent_mvp.AgentRunManager.Fencing.{IsOwner, IsOwner-owns, others_finish_nothing}
use instructional_agent_mvp.Orchestrator.PhaseC.{
  Finalization, FinalClock, content_row, add_content, final_transition, record_success, apply_final,
  after_transition, give_up, phase_c_finalize,
}

module _ (h : Hashing) (clock : FinalClock) (f : Finalization) where
  give_up_lem :
      (outcome : AttemptOutcome) (detail : Option String) (before after : Database)
      (rest : List (Database → Database))
      → give_up clock f outcome detail
          (record (idle before rest) { working = after; in_transaction = true })
        ≡ (
          ok false,
          idle
              (close_attempt clock.restarted f.attempt_id outcome detail none (turn rest before))
              (later rest),
        )
  give_up_lem outcome detail before after [] = refl
  give_up_lem outcome detail before after (others ∷ rest) = refl

  abbrev rejection : Database → List (Database → Database) → Result Bool × Session
  rejection before rest = (
    ok false,
    idle
        (close_attempt clock.restarted f.attempt_id AttemptOutcome.technical_failure
          (some "transition_rejected") none (turn rest before))
        (later rest),
  )

  rejected_lem :
      (x : TransitionOutcome) (before after : Database) (rest : List (Database → Database))
      → x ≢ TransitionOutcome.committed
      → after_transition h clock f x
          (record (idle before rest) { working = after; in_transaction = true })
        ≡ rejection before rest
  rejected_lem TransitionOutcome.committed before after rest ne = absurd (ne refl)
  rejected_lem TransitionOutcome.state_conflict before after rest ne =
      give_up_lem AttemptOutcome.technical_failure (some "transition_rejected") before after rest
  rejected_lem _ before after rest ne =
      give_up_lem AttemptOutcome.technical_failure (some "transition_rejected") before after rest

  -- A worker that does not own the run gets False, closes its attempt as CLAIM_LOST in the next
  -- transaction, and writes nothing else.
  pub finalize_lost :
      (schedule : List (Database → Database)) (db : Database)
      → Keys (turn schedule db)
      → ((r : AgentRun)
          → run_of f.logical_run_id (turn schedule db) ≡ some r
          → ¬ IsOwner f.worker_id f.generation clock.tested r)
      → phase_c_finalize h clock f (idle db schedule) ≡ (
        ok false,
        idle
            (close_attempt clock.restarted f.attempt_id claim_lost none none
              (turn (later schedule) (turn schedule db)))
            (later (later schedule)),
      )
  unfolding phase_c_finalize authorize_terminal_success
  finalize_lost [] db k n =
      rw
        (others_finish_nothing succeeded clock.tested f.logical_run_id f.worker_id f.generation db k
          n)
        refl
  finalize_lost (o ∷ []) db k n =
      rw
        (others_finish_nothing succeeded clock.tested f.logical_run_id f.worker_id f.generation
          (o db) k n)
        refl
  finalize_lost (o ∷ o' ∷ rest) db k n =
      rw
        (others_finish_nothing succeeded clock.tested f.logical_run_id f.worker_id f.generation
          (o db) k n)
        refl

  -- What the owner's transaction sees when it tries the transition.
  abbrev pub with_content : ObjectVersionContent → Database → Database
  with_content content db = add_content content (
      written f.logical_run_id (owns f.worker_id f.generation clock.tested) (finished succeeded) db)

  module _ (r : AgentRun) (content : ObjectVersionContent) (complete : content_row f ≡ some content)
      (o : IsOwner f.worker_id f.generation clock.tested r) where
    abbrev pub asked : TransitionRequest
    asked = final_transition h f r

    authorized :
        (db : Database)
        → Keys db
        → run_of f.logical_run_id db ≡ some r
        → authorize_terminal_success clock.tested f.logical_run_id f.worker_id f.generation db ≡ (
          true,
          written f.logical_run_id
              (owns f.worker_id f.generation clock.tested)
              (finished succeeded)
              db,
        )
    unfolding authorize_terminal_success
    authorized db k found =
        let q = owns f.worker_id f.generation clock.tested in
        rw
          (finish_if_owner_lem f.logical_run_id f.worker_id f.generation db k succeeded
            clock.tested)
          (ground (
            arith,
            find-row run_key f.logical_run_id q db.agent_runs k.runs_unique,
            IsOwner-owns f.worker_id f.generation clock.tested r o,
          ))

    read_run :
        (db : Database)
        → run_of f.logical_run_id db ≡ some r
        → run_of f.logical_run_id (
            written f.logical_run_id
              (owns f.worker_id f.generation clock.tested)
              (finished succeeded)
              db)
          ≡ some (finished succeeded r)
    read_run db found =
        row-update_self run_key f.logical_run_id (owns f.worker_id f.generation clock.tested)
          (finished succeeded) db.agent_runs r (λ x. refl) found
          (IsOwner-owns f.worker_id f.generation clock.tested r o)

    finalize_owner :
        (schedule : List (Database → Database)) (db : Database)
        → Keys (turn schedule db)
        → run_of f.logical_run_id (turn schedule db) ≡ some r
        → let now = turn schedule db in
          let (result, after) = apply_final h asked (with_content content now) in
          phase_c_finalize h clock f (idle db schedule)
          ≡ after_transition h clock f result.outcome
              (record (idle now (later schedule)) { working = after; in_transaction = true })
    unfolding phase_c_finalize final_transition
    finalize_owner [] db k found =
        rw (authorized db k found) (rw (read_run db found) (rw complete refl))
    finalize_owner (others ∷ rest) db k found =
        rw (authorized (others db) k found) (rw (read_run (others db) found) (rw complete refl))

    module _ (schedule : List (Database → Database)) (db : Database) (k : Keys (turn schedule db))
        (u : Unique version_key (turn schedule db).versions)
        (found : run_of f.logical_run_id (turn schedule db) ≡ some r) where
      abbrev now : Database
      now = turn schedule db

      abbrev saw : Database
      saw = with_content content now

      -- If the owner's transition is not legal the answer is False, the content and the run's end
      -- are rolled back, and the next transaction only closes the attempt as a technical failure.
      pub finalize_rejected :
          ¬ IsLegal asked now
          → phase_c_finalize h clock f (idle db schedule) ≡ (
            ok false,
            idle
                (close_attempt clock.restarted f.attempt_id AttemptOutcome.technical_failure
                  (some "transition_rejected")
                  none
                  (turn (later schedule) now))
                (later (later schedule)),
          )
      finalize_rejected n =
          finalize_owner schedule db k found
          ∙ rejected_lem (apply_final h asked saw).0.outcome now (apply_final h asked saw).1
              (later schedule)
              (λ e. n (
                unsaw (
                  (committed_iff_legal asked (compute_transition_payload_hash h asked) saw u).0 e)))
        where
          unsaw : IsLegal asked saw → IsLegal asked now
          unsaw l = record {
            version = l.version;
            found = l.found;
            owned = l.owned;
            status = l.status;
            from = l.from;
            to = l.to;
          }

      -- What a success leaves.
      abbrev pub finalized : Database
      finalized =
          record_success h clock f
            (after_move asked (compute_transition_payload_hash h asked) saw).1

      abbrev saw_legal : IsLegal asked now → IsLegal asked saw
      saw_legal l = record {
        version = l.version;
        found = l.found;
        owned = l.owned;
        status = l.status;
        from = l.from;
        to = l.to;
      }

      pub finalize_committed :
          IsLegal asked now
          → phase_c_finalize h clock f (idle db schedule)
            ≡ (ok true, idle finalized (later schedule))
      finalize_committed l =
          finalize_owner schedule db k found
          ∙ rw (legal_moves asked (compute_transition_payload_hash h asked) saw u (saw_legal l))
              refl

      pub finalized_lem :
          (l : IsLegal asked now)
          → (run_of f.logical_run_id finalized ≡ some (finished succeeded r))
            × ((version_of f.target_object_version_id finalized
                  ≡ some (record l.version { status = "DRAFT" }))
                × (finalized.contents ≡ insert content now.contents))
      unfolding close_attempt final_transition
      finalized_lem l = (
        read_run now found,
        (
          subst
              (λ (p : TransitionResult × Database).
                version_of f.target_object_version_id p.1
                ≡ some (record l.version { status = "DRAFT" }))
              (legal_moves asked (compute_transition_payload_hash h asked) saw u (saw_legal l))
              (legal_writes asked (compute_transition_payload_hash h asked) saw u (saw_legal l)).1,
          refl,
        ),
      )

      -- A success keeps the invariant of the runs, if the attempt is an open one of the run.
      pub finalized-Inv : Inv now → HoldsAttempt f.attempt_id f.logical_run_id now → Inv finalized
      unfolding close_attempt
      finalized-Inv inv held =
          let after =
            written f.logical_run_id (owns f.worker_id f.generation clock.tested)
              (finished succeeded) now in
          let end_attempt =
            close_attempt clock.started f.attempt_id AttemptOutcome.success none
              (some (object f.parsed_output)) in
          elsewhere-Inv (end_attempt after) finalized refl refl (omega arith) (
            subst (λ (p : Bool × Database). Inv (end_attempt p.1)) (authorized now k found)
              (success-Inv clock.started f.attempt_id f.logical_run_id AttemptOutcome.success none
                (some (object f.parsed_output)) clock.tested f.worker_id f.generation now r inv held
                found o))
