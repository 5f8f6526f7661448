-- ===== src/ApprovedState/Replay.antt =====
-- Commits all or nothing, answered again under their key, and never lost to a later commit.
use instructional_agent_mvp.Prelude.{
  ◌≡◌, ◌≢◌, ◌∙◌, refl, sym, ap, subst, String, none, some, List, [], ◌∷◌, arith, text_eq_refl,
  update, row, Unique, row-fresh, find-insert, find-update, ◌==◌,
}
use instructional_agent_mvp.Schema.{approved_state_commit, ApprovedStatePointer, Database}
use instructional_agent_mvp.Session.{Session, Result, ok, raised, idle, reading}
use instructional_agent_mvp.Session.Laws.{turn, later}
use instructional_agent_mvp.Hashing.{Hashing}
use instructional_agent_mvp.Idempotency.{find_operation, finish_operation}
use instructional_agent_mvp.ApprovedState.{
  CommitRequest, CommitResult, CommitOutcome, committed, commit_row, committed_result, approve,
  ended, is_as_expected, pointed, is_pointer_of, current_approved, compute_idempotency_payload_hash,
  commit_approved_state,
}
use instructional_agent_mvp.ApprovedState.Effects.{
  version_key, UniquePointers, pointer_of, IsAcceptable,
}
use instructional_agent_mvp.ApprovedState.Rounds.{owner, commit_free, commit_taken}
use instructional_agent_mvp.ApprovedState.Written.{
  commit_key, KeepsCommits, HasFreshCommits, IsCommitted, approved-IsCommitted, owner_acceptable,
  owner_committed, stored_failure, seen, claim,
}

abbrev outcome_in : Result CommitResult → CommitOutcome
outcome_in (ok r) = r.outcome
outcome_in (raised e) = committed

module _ (h : Hashing) (q : CommitRequest) (schedule : List (Database → Database)) (db : Database)
    (free : find_operation approved_state_commit q.idempotency_key (turn schedule db) ≡ none)
    (uv : Unique version_key (turn schedule db).versions)
    (up : UniquePointers (turn schedule db).pointers) where
  abbrev now : Database
  now = turn schedule db

  abbrev hash : String
  hash = compute_idempotency_payload_hash h q

  abbrev after : Database
  after = (commit_approved_state h q (idle db schedule)).1.stored

  run_acceptable :
      IsAcceptable q now
      → commit_approved_state h q (idle db schedule) ≡ (
        ok (committed_result q now.next_uuid),
        idle (approve h q hash (seen h q hash now free uv up)).1 (later schedule),
      )
  run_acceptable a =
      commit_free h q schedule db free ∙ rw (owner_acceptable h q hash now free uv up a) refl

  -- An acceptable request under a free key succeeds, and the commit row, the audit event, the
  -- pointer and the end of the reservation are stored together.
  pub commit_success :
      IsAcceptable q now
      → ((commit_approved_state h q (idle db schedule)).0 ≡ ok (committed_result q now.next_uuid))
        × IsCommitted h q hash now after
  commit_success a =
      subst
        (λ (x : Result CommitResult × Session).
          (x.0 ≡ ok (committed_result q now.next_uuid)) × IsCommitted h q hash now x.1.stored)
        (sym (run_acceptable a)) (refl, approved-IsCommitted h q hash now free uv up a)

  -- A request under a free key that is not acceptable gets no success, and leaves stored what its
  -- transaction found: not even the reservation of the key is written.
  pub commit_failure :
      ¬ IsAcceptable q now
      → ((r : CommitResult)
          → (commit_approved_state h q (idle db schedule)).0 ≡ ok r
          → r.outcome ≢ committed)
        × (after ≡ now)
  commit_failure n =
      let r = (owner h q hash now).0 in
      let f : r.outcome ≢ committed = λ e. n (owner_committed h q hash now free uv up e) in
      subst
        (λ (x : Result CommitResult × Session).
          ((r : CommitResult) → x.0 ≡ ok r → r.outcome ≢ committed) × (x.1.stored ≡ now))
        (sym (commit_free h q schedule db free))
        (
          (λ r' e e'. f (ap outcome_in e ∙ e')),
          stored_failure h q hash now free uv up r (owner h q hash now).1 f,
        )

UniquePointers-update :
    (q : CommitRequest) (rows : List ApprovedStatePointer)
    → UniquePointers rows
    → UniquePointers (update (is_as_expected q) (pointed q) rows)
UniquePointers-update q [] u = u
UniquePointers-update q (p ∷ rows) u = ground (
  arith,
  UniquePointers-update q rows u.1,
  find-update (is_pointer_of p.object_id) (is_as_expected q) (pointed q) rows (λ p. refl),
)

pointed_current :
    (db : Database) (o : String) (p : ApprovedStatePointer)
    → pointer_of o db.pointers ≡ some p
    → current_approved o db ≡ p.current_approved_version_id
unfolding current_approved
pointed_current db o p e = rw (e, current_approved) refl

module _ (h : Hashing) (q : CommitRequest) (db : Database)
    (free : find_operation approved_state_commit q.idempotency_key db ≡ none)
    (uv : Unique version_key db.versions) (up : UniquePointers db.pointers)
    (a : IsAcceptable q db) where
  abbrev once : Database
  once = (commit_approved_state h q (idle db [])).1.stored

  once_eq :
      once
      ≡ (approve h q
          (compute_idempotency_payload_hash h q)
          (seen h q (compute_idempotency_payload_hash h q) db free uv up)).1
  once_eq = ap (λ p. p.1.stored) (run_acceptable h q [] db free uv up a)

  once_versions : Unique version_key once.versions
  unfolding finish_operation
  once_versions = subst (λ (d : Database). Unique version_key d.versions) (sym once_eq) uv

  once_pointers : UniquePointers once.pointers
  unfolding finish_operation
  once_pointers =
      subst (λ (d : Database). UniquePointers d.pointers) (sym once_eq)
        (UniquePointers-update q db.pointers up)

  once_current : current_approved q.object_id once ≡ some q.object_version_id
  once_current =
      (commit_success h q [] db free uv up a).1.pointer q.object_id
      ∙ rw (text_eq_refl q.object_id) refl

  once_row :
      HasFreshCommits db
      → row commit_key db.next_uuid once.commits
        ≡ some (commit_row q (compute_idempotency_payload_hash h q) db.next_uuid)
  once_row fresh =
      let n = commit_row q (compute_idempotency_payload_hash h q) db.next_uuid in
      ap (row commit_key db.next_uuid) (commit_success h q [] db free uv up a).1.commits
      ∙ ground (
        arith,
        find-insert (λ c. commit_key c == db.next_uuid) n db.commits,
        row-fresh commit_key db.next_uuid db.commits fresh,
      )

  -- An accepted request that is sent again under its key gets the answer of the first time and
  -- writes nothing, whatever others have committed since that keeps the operations and the commits.
  -- It takes three transactions: the last one, which reads the commit's row once more, stays open.
  pub commit_again :
      (others others' others'' : Database → Database)
      → HasFreshCommits db
      → ((d : Database) → KeepsCommits d (others d))
      → ((d : Database) → KeepsCommits d (others' d))
      → ((d : Database) → KeepsCommits d (others'' d))
      → commit_approved_state h q (idle once (others ∷ others' ∷ others'' ∷ [])) ≡ (
        (commit_approved_state h q (idle db [])).0,
        reading (others'' (others' (others once))) [],
      )
  commit_again others others' others'' fresh keep keep' keep'' =
      let w = commit_success h q [] db free uv up a in
      let id = db.next_uuid in
      let c = commit_row q (compute_idempotency_payload_hash h q) id in
      let o = ended id (claim h q (compute_idempotency_payload_hash h q) db free uv up) in
      let kept = (keep once).operations approved_state_commit q.idempotency_key o w.1.operation in
      let seen' = (keep' (others once)).commits id c ((keep once).commits id c (once_row fresh)) in
      commit_taken h q (others ∷ others' ∷ others'' ∷ []) once o o kept
        ((keep' (others once)).operations approved_state_commit q.idempotency_key o kept) c c refl
        seen' ((keep'' (others' (others once))).commits id c seen')
      ∙ ap (λ (x : Result CommitResult). (x, reading (others'' (others' (others once))) []))
          (sym w.0)

  -- After an accepted request, another one under a free key that expects the same previous version
  -- of the same object gets no success and changes nothing, if the first one moved the pointer.
  pub second_commit :
      (q' : CommitRequest)
      → q'.object_id ≡ q.object_id
      → q'.expected_previous_approved_version_id ≡ q.expected_previous_approved_version_id
      → q.expected_previous_approved_version_id ≢ some q.object_version_id
      → find_operation approved_state_commit q'.idempotency_key once ≡ none
      → ((r : CommitResult)
          → (commit_approved_state h q' (idle once [])).0 ≡ ok r
          → r.outcome ≢ committed)
        × ((commit_approved_state h q' (idle once [])).1.stored ≡ once)
  second_commit q' same_object same_expected moves free' =
      commit_failure h q' [] once free' once_versions once_pointers (λ a'. moves (
        sym same_expected
        ∙ sym a'.expected
        ∙ sym (pointed_current once q'.object_id a'.pointer a'.pointed_to)
        ∙ ap (λ o. current_approved o once) same_object
        ∙ once_current))
