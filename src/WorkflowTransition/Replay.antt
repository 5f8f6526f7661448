-- ===== src/WorkflowTransition/Replay.antt =====
-- A request that is made again under its key gets the answer of the first time.
use instructional_agent_mvp.Prelude.{
  ◌≡◌, ◌<◌, refl, ◌⊎◌, inl, inr, String, true, Option, none, some, [], ◌∷◌, arith, row, row-fresh,
  find-insert, All, Bool-cases, not, ◌||◌, is_none, exists, find, ◌==◌,
}
use instructional_agent_mvp.Schema.{
  Uuid, OperationType, workflow_transition, OperationStatus, claimed, RejectedReason,
  IdempotencyOperation, Database, is_known_state,
}
use instructional_agent_mvp.Schema
use instructional_agent_mvp.Session.{ok, idle}
use instructional_agent_mvp.Hashing.{Hashing}
use instructional_agent_mvp.TaskIntake.{is_known_task_type}
use instructional_agent_mvp.Idempotency.{find_operation, finish_operation, operation_row, reserve}
use instructional_agent_mvp.Idempotency.Laws.{reserve_free, find-reserved, find-finished}
use instructional_agent_mvp.WorkflowTransition.{
  TransitionRequest, TransitionResult, TransitionOutcome, outcome_only,
  apply_transition_in_transaction, after_move, move_version, belongs, movable, is_enabled,
  reason_of, outcome_of, ended_by, finish_transition, replay_result, replayed, transition_row,
  compute_transition_payload_hash, filled, request_workflow_transition,
}
use instructional_agent_mvp.WorkflowTransition.Rounds.{owned, request_free, request_taken}

abbrev pub transition_key : Schema.WorkflowTransition → Uuid
transition_key t = t.transition_id

-- What other sessions commit leaves the ended operations and the transitions as they are.
pub record KeepsResults (db db' : Database) : Type 0 where
  pub operations :
      (kind : OperationType) (key : String) (o : IdempotencyOperation)
      → find_operation kind key db ≡ some o
      → find_operation kind key db' ≡ some o
  pub transitions :
      (id : Uuid) (t : Schema.WorkflowTransition)
      → row transition_key id db.transitions ≡ some t
      → row transition_key id db'.transitions ≡ some t

KeepsResults-trans :
    {d d' d'' : Database} → KeepsResults d d' → KeepsResults d' d'' → KeepsResults d d''
KeepsResults-trans k k' = record {
  operations = λ kind key o e. k'.operations kind key o (k.operations kind key o e);
  transitions = λ id t e. k'.transitions id t (k.transitions id t e);
}

-- A rejection with the outcome `o`, which can be read back.
pub record IsRejection (q : TransitionRequest) (hash : String) (db : Database) : Type 0 where
  pub outcome : TransitionOutcome
  pub answer : apply_transition_in_transaction q hash db ≡ (outcome_only outcome, db)
  pub reads_back : outcome_of (reason_of outcome) ≡ some outcome
  pub ends :
      (id : Option Uuid) (o : IdempotencyOperation)
      → ended_by outcome id o
        ≡ record o { status = OperationStatus.rejected; rejected_reason = reason_of outcome }

module _ (q : TransitionRequest) (hash : String) (db : Database) where
  pub apply_cases :
      (apply_transition_in_transaction q hash db ≡ after_move q hash db) ⊎ IsRejection q hash db
  unfolding apply_transition_in_transaction move_version
  apply_cases = elim (Bool-cases (is_none (find (belongs q) db.versions))) [
    | inl e ↦ inr (record {
      outcome = TransitionOutcome.invalid_object_version;
      answer = rw e refl;
      reads_back = refl;
      ends = λ id o. refl;
    })
    | inr e ↦
        elim (Bool-cases (not (is_known_state q.from_state) || not (is_known_state q.to_state))) [
          | inl e' ↦ inr (record {
            outcome = TransitionOutcome.unknown_state;
            answer = rw e (rw e' refl);
            reads_back = refl;
            ends = λ id o. refl;
          })
          | inr e' ↦ elim (Bool-cases (is_enabled q.from_state q.to_state)) [
            | inr e'' ↦ inr (record {
              outcome = TransitionOutcome.transition_not_enabled_this_iteration;
              answer = rw e (rw e' (rw e'' refl));
              reads_back = refl;
              ends = λ id o. refl;
            })
            | inl e'' ↦ elim (Bool-cases (exists (movable q) db.versions)) [
              | inr e''' ↦ inr (record {
                outcome = TransitionOutcome.state_conflict;
                answer = rw e (rw e' (rw e'' (rw e''' refl)));
                reads_back = refl;
                ends = λ id o. refl;
              })
              | inl e''' ↦ inl (rw e (rw e' (rw e'' (rw e''' refl))))
            ]
          ]
        ]
  ]

-- No transition has an identifier that is still to be drawn.
abbrev pub IsFresh : Database → Type 0
IsFresh db = All (λ t. t.transition_id < db.next_uuid) db.transitions

-- A committed row replays to the transition that it names.
replay-committed :
    (id : Uuid) (now : Database) (o : IdempotencyOperation) (t : Schema.WorkflowTransition)
    → row transition_key id now.transitions ≡ some t
    → replay_result (ended_by TransitionOutcome.committed (some id) o) now ≡ ok (replayed t)
unfolding replay_result
replay-committed id now o t e = ground arith

-- The row of a key after its owner's transaction, and what it replays to later.
record Answered (q : TransitionRequest) (hash : String) (r : TransitionResult) (db : Database)
    : Type 0 where
  operation : IdempotencyOperation
  found : find_operation workflow_transition q.idempotency_key db ≡ some operation
  payload : operation.idempotency_payload_hash ≡ hash
  replays : (now : Database) → KeepsResults db now → replay_result operation now ≡ ok r

module _ (q : TransitionRequest) (hash : String) (db : Database)
    (free : find_operation workflow_transition q.idempotency_key db ≡ none)
    (fresh : IsFresh db) where
  abbrev key : String
  key = q.idempotency_key

  abbrev reserved : Database
  reserved = (reserve workflow_transition key hash db).1

  abbrev claim : IdempotencyOperation
  claim = operation_row workflow_transition key hash claimed

  operations_moved :
      find_operation workflow_transition key (after_move q hash reserved).1 ≡ some claim
  operations_moved = find-reserved workflow_transition key db hash free

  moved_row :
      row transition_key reserved.next_uuid (after_move q hash reserved).1.transitions
      ≡ some (transition_row q hash reserved.next_uuid)
  moved_row = ground (
    arith,
    reserve_free workflow_transition key db hash free,
    find-insert (λ t. transition_key t == reserved.next_uuid)
        (transition_row q hash reserved.next_uuid) db.transitions,
    row-fresh transition_key db.next_uuid db.transitions fresh,
  )

  owned-Answered : Answered q hash (owned q hash db).0 (owned q hash db).1
  unfolding finish_transition finish_operation replay_result
  owned-Answered = elim (apply_cases q hash reserved) [
    | inl e ↦ rw e (record {
      operation = ended_by TransitionOutcome.committed (some reserved.next_uuid) claim;
      found =
          find-finished workflow_transition key (after_move q hash reserved).1
            (ended_by TransitionOutcome.committed (some reserved.next_uuid)) claim (λ o. refl)
            operations_moved;
      payload = refl;
      replays = λ now keeps.
          replay-committed reserved.next_uuid now claim (transition_row q hash reserved.next_uuid) (
            keeps.transitions reserved.next_uuid (transition_row q hash reserved.next_uuid)
              moved_row);
    })
    | inr j ↦ rw j.answer (record {
      operation = ended_by j.outcome none claim;
      found =
          find-finished workflow_transition key reserved (ended_by j.outcome none) claim
            (λ o. rw (j.ends none o) refl) (find-reserved workflow_transition key db hash free);
      payload = rw (j.ends none claim) refl;
      replays = λ now keeps. rw (j.ends none claim) (rw (j.reads_back, replay_result) refl);
    })
  ]

module _ (h : Hashing) (task_type : String) (known : is_known_task_type task_type ≡ true)
    (q : TransitionRequest) (db : Database) where
  -- A request under a free key, committed or rejected, that is sent again gets the result of the
  -- first time and writes nothing, whatever others have committed since that keeps the operations
  -- and the transitions, and also with another correlation id.
  pub request_again :
      (correlation_id correlation_id' : Option String) (generated generated' : String)
      (others others' : Database → Database)
      → find_operation workflow_transition q.idempotency_key db ≡ none
      → IsFresh db
      → ((d : Database) → KeepsResults d (others d))
      → ((d : Database) → KeepsResults d (others' d))
      → let (result, after) =
          request_workflow_transition h task_type q correlation_id generated (idle db []) in
        request_workflow_transition h task_type q correlation_id' generated'
          (idle after.stored (others ∷ others' ∷ []))
        ≡ (result, idle (others' (others after.stored)) [])
  request_again correlation_id correlation_id' generated generated' others others' free fresh keep
        keep' =
      let hash = compute_transition_payload_hash h q in
      let q' = filled q correlation_id generated in
      let a = owned-Answered q' hash db free fresh in
      let kept =
        (keep (owned q' hash db).1).operations workflow_transition q.idempotency_key a.operation
          a.found in
      rw (request_free h task_type known q correlation_id generated [] db free) (
        request_taken h task_type known q correlation_id' generated' (others ∷ others' ∷ [])
          (owned q' hash db).1 a.operation a.operation kept
          ((keep' (others (owned q' hash db).1)).operations workflow_transition q.idempotency_key
            a.operation kept)
          (owned q' hash db).0 a.payload
          (a.replays (others' (others (owned q' hash db).1))
            (KeepsResults-trans (keep (owned q' hash db).1) (keep' (others (owned q' hash db).1)))))
