-- ===== src/Orchestrator/Guard.antt =====
-- The guard of `_phase_b_execute` of src/persistence/repositories/orchestrator.py never fires.
use instructional_agent_mvp.Prelude.{
  ℕ, zero, suc, ◌≡◌, ◌≢◌, refl, String, Bool, true, false, Option, none, some, inl, inr, arith,
  Bool-cases, Option-cases, find, List, ◌==◌, if◌then◌else◌,
}
use instructional_agent_mvp.Schema.{
  Json, AttemptOutcome, AgentRun, ObjectVersionContent, ContextPackage,
}
use instructional_agent_mvp.Session.{
  Session, open_transaction, Result, ok, raised, Action, follow, rollback,
}
use instructional_agent_mvp.Session.{execute, query, pure, ◌>>=◌}
use instructional_agent_mvp.Orchestrator.PhaseB.{
  ids_or_raise, reclaim_run, attempt_config, ensure_no_open_transaction, fetch_context_package,
  one_package,
}
use instructional_agent_mvp.ContextEngine.Resolvers.{object_type_of}
use instructional_agent_mvp.ProducerExecutor.{add_id, is_outcome, outcome_ids}
use instructional_agent_mvp.Prelude.{text_eq}
use instructional_agent_mvp.Schema.{Items, nil, cons, end, field, get_field}
use instructional_agent_mvp.Session.{begin, ◌>>◌}
use instructional_agent_mvp.Session.Ends.{
  Harmless, Ends, Ends-follow, Ends-follow_closed, commit_closes, rollback_closes,
}
use instructional_agent_mvp.Hashing.{Hashing}
use instructional_agent_mvp.WorkflowTransition.{TransitionOutcome}
use instructional_agent_mvp.AgentRunManager.{
  AttemptAuthorization, authorize_terminal_success, acquire_and_create_first_attempt,
  refresh_and_create_retry_attempt,
}
use instructional_agent_mvp.AgentRunManager.Lease.{Clock}
use instructional_agent_mvp.AgentRunManager.Attempts.{close_attempt}
use instructional_agent_mvp.ProducerExecutor.{compute_allowed_learning_outcome_ids}
use instructional_agent_mvp.Orchestrator.PhaseC.{
  Finalization, FinalClock, content_row, add_content, apply_final, record_success, final_transition,
  give_up, after_transition, persist_content, finalize_run, finalize_as_owner, phase_c_finalize,
}
use instructional_agent_mvp.Orchestrator.PhaseB.{
  Execution, Outside, Pass, Held, Reading, Judgement, rejected, accepted, or_reclaim, acquire_run,
  retry_run, close_as, finalization, judged, after_judgement, next_pass, attempts_loop,
  read_context, execute_held, phase_b_execute,
}

add_id-Harmless : (v : Option Json) (r : Result (List String)) → Harmless r → Harmless (add_id v r)
add_id-Harmless none r t = λ e. cc e
add_id-Harmless (some (Json.array items)) r t = λ e. cc e
add_id-Harmless (some (Json.object fields)) r t = λ e. cc e
add_id-Harmless (some (Json.text id)) (ok l) t = tt
add_id-Harmless (some (Json.text id)) (raised x) t = t
add_id-Harmless (some Json.null) r t = t
add_id-Harmless (some (Json.bool b)) r t = t
add_id-Harmless (some (Json.num n)) r t = t

outcome_ids-Harmless : (i : Items) → Harmless (outcome_ids i)
outcome_ids-Harmless nil = tt
outcome_ids-Harmless (cons (Json.object o) rest) =
    elim (Bool-cases (is_outcome (get_field "object_type" o))) [
      | inl e ↦
          rw e (
            add_id-Harmless (get_field "object_id" o) (outcome_ids rest)
              (outcome_ids-Harmless rest))
      | inr e ↦ rw e (outcome_ids-Harmless rest)
    ]
outcome_ids-Harmless (cons _ rest) = λ e. cc e

allowed-Harmless : (j : Json) → Harmless (compute_allowed_learning_outcome_ids j)
unfolding compute_allowed_learning_outcome_ids
allowed-Harmless (Json.array items) = outcome_ids-Harmless items
allowed-Harmless (Json.object end) = tt
allowed-Harmless (Json.object (field k v rest)) = λ e. cc e
allowed-Harmless (Json.text t) = elim (Bool-cases (text_eq t "")) [
  | inl e ↦ rw e tt
  | inr e ↦ rw e (λ e'. cc e')
]
allowed-Harmless Json.null = λ e. cc e
allowed-Harmless (Json.bool b) = λ e. cc e
allowed-Harmless (Json.num n) = λ e. cc e

one_package-Harmless : (o : Option ContextPackage) (s : Session) → Harmless (one_package o s).0
one_package-Harmless none s = λ e. cc e
one_package-Harmless (some p) s = tt

module _ (h : Hashing) (clock : FinalClock) (f : Finalization) where
  give_up-Ends :
      (outcome : AttemptOutcome) (detail : Option String) (s : Session)
      → Ends (give_up clock f outcome detail s)
  give_up-Ends outcome detail s =
      commit_closes
        (execute (λ db. (tt, close_attempt clock.restarted f.attempt_id outcome detail none db))
          (rollback s).1).1

  after_transition-Ends :
      (o : TransitionOutcome) (s : Session) → Ends (after_transition h clock f o s)
  after_transition-Ends TransitionOutcome.committed s =
      commit_closes (execute (λ db. (tt, record_success h clock f db)) s).1
  after_transition-Ends TransitionOutcome.state_conflict s =
      give_up-Ends AttemptOutcome.technical_failure (some "transition_rejected") s
  after_transition-Ends _ s =
      give_up-Ends AttemptOutcome.technical_failure (some "transition_rejected") s

  persist_content-Ends :
      (run : AgentRun) (c : Option ObjectVersionContent) (s : Session)
      → Ends (persist_content h clock f run c s)
  persist_content-Ends run none s = λ e. cc e
  persist_content-Ends run (some c) s =
      Ends-follow
        (execute (apply_final h (final_transition h f run))
          (execute (λ db. (tt, add_content c db)) s).1)
        (λ r. after_transition h clock f r.outcome) tt (λ r. after_transition-Ends r.outcome)

  finalize_run-Ends : (run : Option AgentRun) (s : Session) → Ends (finalize_run h clock f run s)
  finalize_run-Ends none s = λ e. cc e
  finalize_run-Ends (some run) s = persist_content-Ends run (content_row f) s

  finalize_or_give_up :
      (authorized : Bool) (s : Session)
      → Ends (
          (if authorized
              then finalize_as_owner h clock f
              else give_up clock f AttemptOutcome.claim_lost none)
            s)
  finalize_or_give_up true s =
      Ends-follow (query (λ db. find (λ r. r.logical_run_id == f.logical_run_id) db.agent_runs) s)
        (finalize_run h clock f) tt finalize_run-Ends
  finalize_or_give_up false s = give_up-Ends AttemptOutcome.claim_lost none s

  phase_c-Ends : (s : Session) → Ends (phase_c_finalize h clock f s)
  unfolding phase_c_finalize
  phase_c-Ends s =
      Ends-follow
        (execute (authorize_terminal_success clock.tested f.logical_run_id f.worker_id f.generation)
          s)
        (λ (authorized : Bool).
          if authorized
          then finalize_as_owner h clock f
          else give_up clock f AttemptOutcome.claim_lost none)
        tt finalize_or_give_up

module _ (e : Execution) where
  or_reclaim-Ends :
      (clock : Clock) (auth : AttemptAuthorization) (s : Session) → Ends (or_reclaim clock e auth s)
  or_reclaim-Ends clock auth s = elim (Option-cases auth.generation) [
    | inr (g, e') ↦ rw e' (commit_closes s)
    | inl e' ↦ rw e' (commit_closes (execute (reclaim_run clock e) (rollback s).1).1)
  ]

  acquire-Ends : (w : Outside) (s : Session) → Ends (acquire_run w e s)
  acquire-Ends w s =
      Ends-follow
        (execute
          (acquire_and_create_first_attempt w.acquired (attempt_config e) e.logical_run_id
            e.worker_id)
          s)
        (or_reclaim w.reclaimed e) tt (or_reclaim-Ends w.reclaimed)

  retry-Ends : (pass : Pass) (x : Held) (s : Session) → Ends (retry_run pass e x s)
  retry-Ends pass x s =
      Ends-follow
        (execute
          (refresh_and_create_retry_attempt pass.refreshed (attempt_config e) e.logical_run_id
            e.worker_id x.generation e.max_attempts)
          s)
        (or_reclaim pass.reclaimed e) tt (or_reclaim-Ends pass.reclaimed)

Ends-guarded : {A : Type 0} (r : Result A × Session) → Ends r → r.0 ≢ raised open_transaction
Ends-guarded (ok a, s) t = λ e. cc e
Ends-guarded (raised x, s) t = λ e. t (ground arith)

module _ (h : Hashing) (repr : Json → String) (w : Outside) (e : Execution) where
  judgement-Ends :
      (again : Held → Action Bool) (pass : Pass) (y : Held) (j : Judgement) (s : Session)
      → ((y' : Held) (s' : Session) → s'.in_transaction ≡ false → Ends (again y' s'))
      → Ends (after_judgement h repr w e again pass y j s)
  judgement-Ends again pass y (rejected outcome detail output) s k =
      let s' = (close_as pass y outcome detail output s).1 in
      Ends-follow_closed (retry_run pass e y s') (next_pass h repr w e again)
        (retry-Ends e pass y s') (λ o s''. next o s'')
    where
      next :
          (o : Option Held) (s'' : Session)
          → s''.in_transaction ≡ false
          → Ends (next_pass h repr w e again o s'')
      next none s'' closed = closed
      next (some y') s'' closed = k y' s'' closed
  judgement-Ends again pass y (accepted output) s k =
      Ends-follow_closed (phase_c_finalize h pass.final (finalization e y output) s)
        (λ (b : Bool). pure true) (phase_c-Ends h pass.final (finalization e y output) s)
        (λ b s' closed. closed)

  ensure-Ends : (s : Session) → s.in_transaction ≡ false → Ends (ensure_no_open_transaction s)
  ensure-Ends s closed = rw closed refl

  loop-Ends :
      (x : Reading) (n : ℕ) (y : Held) (s : Session)
      → s.in_transaction ≡ false
      → Ends (attempts_loop h repr w e x n y s)
  unfolding attempts_loop
  loop-Ends x zero y s closed = closed
  loop-Ends x (suc n) y s closed =
      Ends-follow_closed (ensure_no_open_transaction s)
        (λ u.
          after_judgement h repr w e (attempts_loop h repr w e x n) (w.passes n) y
            (judged h repr w e x n))
        (ensure-Ends s closed)
        (λ u s' closed'.
          judgement-Ends (attempts_loop h repr w e x n) (w.passes n) y (judged h repr w e x n) s'
            (λ y' s'' closed''. loop-Ends x n y' s'' closed''))

  ids-Ends :
      {B : Type 0} (r : Result (List String)) (f : List String → B) (s : Session)
      → s.in_transaction ≡ false
      → Harmless r
      → Ends (follow (λ a. pure (f a)) (ids_or_raise h repr w e r s))
  ids-Ends (ok ids) f s closed t = closed
  ids-Ends (raised x) f s closed t = t

  read-Ends : (s : Session) → Ends (read_context h repr w e s)
  read-Ends s =
      Ends-follow (fetch_context_package e.context_package_id s)
        (λ p. do
          rollback
          expected ← query (object_type_of e.target_object_id)
          rollback
          allowed ←
              ids_or_raise h repr w e (compute_allowed_learning_outcome_ids p.approved_objects)
          pure (record { context = p; expected = expected; allowed = allowed }))
        (one_package-Harmless _ _)
        (λ p s'.
          let s₁ = (rollback s').1 in
          let s₂ = (query (object_type_of e.target_object_id) s₁).1 in
          ids-Ends (compute_allowed_learning_outcome_ids p.approved_objects)
            (λ ids. record {
              context = p;
              expected = object_type_of e.target_object_id (begin s₁).working;
              allowed = ids;
            })
            (rollback s₂).1 (rollback_closes s₂) (allowed-Harmless p.approved_objects))

  execute_held-Ends :
      (o : Option Held) (s : Session)
      → s.in_transaction ≡ false
      → Ends (execute_held h repr w e o s)
  execute_held-Ends none s closed = closed
  execute_held-Ends (some y) s closed =
      Ends-follow_closed (read_context h repr w e s)
        (λ x. attempts_loop h repr w e x (suc e.max_attempts) y) (read-Ends s)
        (λ x s' closed'. loop-Ends x (suc e.max_attempts) y s' closed')

  phase_b-Ends : (s : Session) → Ends (phase_b_execute h repr w e s)
  unfolding phase_b_execute
  phase_b-Ends s =
      Ends-follow_closed (acquire_run w e s) (execute_held h repr w e) (acquire-Ends e w s)
        execute_held-Ends

  -- Phase B, in any session, never finds a transaction open before a call of the producer: its
  -- guard, whose exception is raised by nothing else, does not fire.
  pub phase_b_guarded : (s : Session) → (phase_b_execute h repr w e s).0 ≢ raised open_transaction
  phase_b_guarded s = Ends-guarded (phase_b_execute h repr w e s) (phase_b-Ends s)
