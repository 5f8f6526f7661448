-- ===== src/ApprovedState/Written.antt =====
-- The writes of the session that holds the key of a commit.
use instructional_agent_mvp.Prelude.{
  suc, if◌then◌else◌, ◌≡◌, ◌≢◌, ◌<◌, refl, sym, ap, subst, String, none, some, text_eq, insert,
  update, All, row, Unique,
}
use instructional_agent_mvp.Schema.{
  Uuid, OperationType, approved_state_commit, claimed, IdempotencyOperation, ApprovedStateCommit,
  Database,
}
use instructional_agent_mvp.Hashing.{Hashing}
use instructional_agent_mvp.Idempotency.{find_operation, finish_operation, operation_row}
use instructional_agent_mvp.Idempotency.Laws.{reserve_free, find-reserved, find-finished}
use instructional_agent_mvp.ApprovedState.{
  CommitRequest, CommitResult, CommitOutcome, committed, commit_row, commit_event, approve, ended,
  is_as_expected, pointed, current_approved,
}
use instructional_agent_mvp.ApprovedState.Effects.{
  version_key, UniquePointers, IsAcceptable, acceptable_approves, committed_iff_IsAcceptable,
}
use instructional_agent_mvp.ApprovedState.Log.{current-approve}
use instructional_agent_mvp.ApprovedState.Rounds.{reserved, left_stored, owner}

abbrev pub commit_key : ApprovedStateCommit → Uuid
commit_key c = c.commit_id

-- What other sessions commit leaves the ended operations and the commits as they are.
pub record KeepsCommits (db db' : Database) : Type 0 where
  pub operations :
      (kind : OperationType) (key : String) (o : IdempotencyOperation)
      → find_operation kind key db ≡ some o
      → find_operation kind key db' ≡ some o
  pub commits :
      (id : Uuid) (c : ApprovedStateCommit)
      → row commit_key id db.commits ≡ some c
      → row commit_key id db'.commits ≡ some c

-- No commit has an identifier that is still to be drawn.
abbrev pub HasFreshCommits : Database → Type 0
HasFreshCommits db = All (λ c. c.commit_id < db.next_uuid) db.commits

-- Everything that a successful call has written together.
pub record IsCommitted (h : Hashing) (q : CommitRequest) (hash : String) (db after : Database)
    : Type 0 where
  pub commits : after.commits ≡ insert (commit_row q hash db.next_uuid) db.commits
  pub audited :
      after.audit_events
      ≡ insert (commit_event h q hash db.next_uuid (suc db.next_uuid)) db.audit_events
  pub pointer :
      (o : String)
      → current_approved o after
        ≡ (if text_eq q.object_id o then some q.object_version_id else current_approved o db)
  pub operation :
      find_operation approved_state_commit q.idempotency_key after
      ≡ some
          (ended db.next_uuid (operation_row approved_state_commit q.idempotency_key hash claimed))

module _ (h : Hashing) (q : CommitRequest) (hash : String) (db : Database)
    (free : find_operation approved_state_commit q.idempotency_key db ≡ none)
    (uv : Unique version_key db.versions) (up : UniquePointers db.pointers) where
  abbrev key : String
  key = q.idempotency_key

  abbrev pub claim : IdempotencyOperation
  claim = operation_row approved_state_commit key hash claimed

  abbrev pub seen : Database
  seen = record db { operations = insert claim db.operations }

  reserved_eq : reserved q hash db ≡ seen
  reserved_eq = ap (λ p. p.1) (reserve_free approved_state_commit key db hash free)

  seen-claim : find_operation approved_state_commit key seen ≡ some claim
  seen-claim =
      subst (λ d. find_operation approved_state_commit key d ≡ some claim) reserved_eq
        (find-reserved approved_state_commit key db hash free)

  seen-IsAcceptable : IsAcceptable q db → IsAcceptable q seen
  seen-IsAcceptable a = record {
    version = a.version;
    found = a.found;
    owned = a.owned;
    pointer = a.pointer;
    pointed_to = a.pointed_to;
    expected = a.expected;
  }

  pub approved-IsCommitted : IsAcceptable q db → IsCommitted h q hash db (approve h q hash seen).1
  unfolding finish_operation current_approved
  approved-IsCommitted a = record {
    commits = refl;
    audited = refl;
    pointer = current-approve h q hash seen (seen-IsAcceptable a);
    operation =
        find-finished approved_state_commit key
          (record seen { pointers = update (is_as_expected q) (pointed q) db.pointers })
          (ended db.next_uuid) claim (λ o. refl) seen-claim;
  }

  pub owner_acceptable : IsAcceptable q db → owner h q hash db ≡ approve h q hash seen
  owner_acceptable a =
      rw reserved_eq (acceptable_approves h q hash seen uv up (seen-IsAcceptable a))

  pub owner_committed : ((owner h q hash db).0.outcome ≡ committed) → IsAcceptable q db
  owner_committed e =
      let a = (committed_iff_IsAcceptable h q hash seen uv up).0 (rw (sym reserved_eq) e) in
      record {
        version = a.version;
        found = a.found;
        owned = a.owned;
        pointer = a.pointer;
        pointed_to = a.pointed_to;
        expected = a.expected;
      }

  pub stored_failure :
      (r : CommitResult) (after : Database)
      → r.outcome ≢ committed
      → left_stored r.outcome db after ≡ db
  stored_failure r after = stored r.outcome after
    where
      stored : (o : CommitOutcome) (after : Database) → o ≢ committed → left_stored o db after ≡ db
      stored committed after n = absurd (n refl)
      stored CommitOutcome.state_conflict after n = refl
      stored CommitOutcome.idempotency_conflict after n = refl
      stored CommitOutcome.invalid_object_version after n = refl
