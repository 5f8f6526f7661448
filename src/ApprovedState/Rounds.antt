-- ===== src/ApprovedState/Rounds.antt =====
-- What one call of `commit_approved_state` answers and leaves stored.
use instructional_agent_mvp.Prelude.{
  ◌≡◌, ◌≢◌, ◌∙◌, refl, ap, String, true, inl, inr, none, some, List, [], ◌∷◌, text_eq, text_eq_iff,
  Bool-cases, find,
}
use instructional_agent_mvp.Schema.{
  approved_state_commit, IdempotencyOperation, ApprovedStateCommit, Database,
}
use instructional_agent_mvp.Session.{ok, idle, reading}
use instructional_agent_mvp.Session.Laws.{turn, later, retry_returns}
use instructional_agent_mvp.Hashing.{Hashing}
use instructional_agent_mvp.Idempotency.{find_operation, reserve}
use instructional_agent_mvp.Idempotency.Laws.{reserve_free, reserve_taken}
use instructional_agent_mvp.ApprovedState.{
  CommitRequest, CommitResult, CommitOutcome, committed, idempotency_conflict, outcome_only,
  owner_statements, replayed, has_commit_id, answer, compare_and_replay, commit_round, end_as_owner,
  compute_idempotency_payload_hash, commit_approved_state,
}

-- The database in which the owner of a key works: the one that its transaction sees, with the
-- reservation.
abbrev pub reserved : CommitRequest → String → Database → Database
reserved q hash db = (reserve approved_state_commit q.idempotency_key hash db).1

-- What is stored after the owner of a key has ended, by its outcome.
abbrev pub left_stored : CommitOutcome → Database → Database → Database
left_stored committed before after = after
left_stored _ before after = before

-- What the owner's transaction leaves when it ends with the outcome `o`.
end_as_owner_lem :
    (o : CommitOutcome) (r : CommitResult) (before after : Database)
    (rest : List (Database → Database))
    → end_as_owner o r (record (idle before rest) { working = after; in_transaction = true })
      ≡ (ok (some r), idle (left_stored o before after) rest)
end_as_owner_lem committed r before after rest = refl
end_as_owner_lem CommitOutcome.state_conflict r before after rest = refl
end_as_owner_lem idempotency_conflict r before after rest = refl
end_as_owner_lem CommitOutcome.invalid_object_version r before after rest = refl

module _ (h : Hashing) (q : CommitRequest) (hash : String) where
  abbrev pub owner : Database → CommitResult × Database
  owner db = owner_statements h q hash (reserved q hash db)

  won :
      (db : Database) (hash : String)
      → find_operation approved_state_commit q.idempotency_key db ≡ none
      → (reserve approved_state_commit q.idempotency_key hash db).0 ≡ true
  won db hash free =
      ap (λ p. p.0) (reserve_free approved_state_commit q.idempotency_key db hash free)

  -- A free key: the version is committed with the key, or nothing is.
  pub commit_round_free :
      (schedule : List (Database → Database)) (db : Database)
      → find_operation approved_state_commit q.idempotency_key (turn schedule db) ≡ none
      → let now = turn schedule db in
        commit_round h q hash (idle db schedule) ≡ (
          ok (some (owner now).0),
          idle (left_stored (owner now).0.outcome now (owner now).1) (later schedule),
        )
  commit_round_free [] db free =
      rw (won db hash free) (end_as_owner_lem (owner db).0.outcome (owner db).0 db (owner db).1 [])
  commit_round_free (others ∷ rest) db free =
      let now = others db in
      rw (won now hash free)
        (end_as_owner_lem (owner now).0.outcome (owner now).0 now (owner now).1 rest)

  -- A key that is taken: its row is read in the next transaction, and compared.
  pub commit_round_taken :
      (schedule : List (Database → Database)) (db : Database) (o o' : IdempotencyOperation)
      → find_operation approved_state_commit q.idempotency_key (turn schedule db) ≡ some o
      → let now = turn (later schedule) (turn schedule db) in
        find_operation approved_state_commit q.idempotency_key now ≡ some o'
        → commit_round h q hash (idle db schedule)
          ≡ compare_and_replay hash (some o') (reading now (later (later schedule)))
  commit_round_taken [] db o o' taken seen =
      rw (reserve_taken approved_state_commit q.idempotency_key db hash o taken) (rw seen refl)
  commit_round_taken (f ∷ []) db o o' taken seen =
      rw (reserve_taken approved_state_commit q.idempotency_key (f db) hash o taken) (rw seen refl)
  commit_round_taken (f ∷ g ∷ rest) db o o' taken seen =
      rw (reserve_taken approved_state_commit q.idempotency_key (f db) hash o taken) (rw seen refl)

  module _ (now : Database) (rest : List (Database → Database)) (o : IdempotencyOperation) where
    pub commit_same :
        (c c' : ApprovedStateCommit)
        → o.idempotency_payload_hash ≡ hash
        → find (has_commit_id o.commit_id) now.commits ≡ some c
        → find (has_commit_id (some c.commit_id)) (turn rest now).commits ≡ some c'
        → compare_and_replay hash (some o) (reading now rest)
          ≡ (ok (some (replayed c')), reading (turn rest now) (later rest))
    commit_same c c' same seen again =
        rw ((text_eq_iff o.idempotency_payload_hash hash).1 same) (rw seen (refreshed rest again))
      where
        refreshed :
            (rest : List (Database → Database))
            → find (has_commit_id (some c.commit_id)) (turn rest now).commits ≡ some c'
            → answer (some c) (reading now rest)
              ≡ (ok (some (replayed c')), reading (turn rest now) (later rest))
        refreshed [] e = rw e refl
        refreshed (others ∷ rest) e = rw e refl

    pub commit_different :
        o.idempotency_payload_hash ≢ hash
        → compare_and_replay hash (some o) (reading now rest)
          ≡ (ok (some (outcome_only idempotency_conflict)), idle now rest)
    commit_different differ = elim (Bool-cases (text_eq o.idempotency_payload_hash hash)) [
      | inl e ↦ absurd (differ ((text_eq_iff o.idempotency_payload_hash hash).0 e))
      | inr e ↦ rw e refl
    ]

module _ (h : Hashing) (q : CommitRequest) where
  -- A key that no row has, when the call's transaction begins: the answer is that of the owner's
  -- statements, and they are stored if it is a success, else the call leaves what it found.
  pub commit_free :
      (schedule : List (Database → Database)) (db : Database)
      → find_operation approved_state_commit q.idempotency_key (turn schedule db) ≡ none
      → let now = turn schedule db in
        let (r, after) = owner h q (compute_idempotency_payload_hash h q) now in
        commit_approved_state h q (idle db schedule)
        ≡ (ok r, idle (left_stored r.outcome now after) (later schedule))
  unfolding commit_approved_state compute_idempotency_payload_hash
  commit_free schedule db free =
      retry_returns 4 _ (idle db schedule) _
        (commit_round_free h q (compute_idempotency_payload_hash h q) schedule db free)

  module _ (schedule : List (Database → Database)) (db : Database) (o o' : IdempotencyOperation)
      (taken : find_operation approved_state_commit q.idempotency_key (turn schedule db) ≡ some o)
      (seen : find_operation approved_state_commit q.idempotency_key
          (turn (later schedule) (turn schedule db))
        ≡ some o') where
    pub commit_taken :
        (c c' : ApprovedStateCommit)
        → o'.idempotency_payload_hash ≡ compute_idempotency_payload_hash h q
        → let now = turn (later schedule) (turn schedule db) in
          let rest = later (later schedule) in
          find (has_commit_id o'.commit_id) now.commits ≡ some c
          → find (has_commit_id (some c.commit_id)) (turn rest now).commits ≡ some c'
          → commit_approved_state h q (idle db schedule)
            ≡ (ok (replayed c'), reading (turn rest now) (later rest))
    unfolding commit_approved_state compute_idempotency_payload_hash
    commit_taken c c' same replay again =
        let hash = compute_idempotency_payload_hash h q in
        let now = turn (later schedule) (turn schedule db) in
        retry_returns 4 _ (idle db schedule) _ (
          commit_round_taken h q hash schedule db o o' taken seen
          ∙ commit_same h q hash now (later (later schedule)) o' c c' same replay again)

    -- A key that another payload has taken gives a conflict, and the call writes nothing.
    pub commit_conflict :
        o'.idempotency_payload_hash ≢ compute_idempotency_payload_hash h q
        → let now = turn (later schedule) (turn schedule db) in
          commit_approved_state h q (idle db schedule)
          ≡ (ok (outcome_only idempotency_conflict), idle now (later (later schedule)))
    unfolding commit_approved_state compute_idempotency_payload_hash
    commit_conflict differ =
        let hash = compute_idempotency_payload_hash h q in
        let now = turn (later schedule) (turn schedule db) in
        retry_returns 4 _ (idle db schedule) _ (
          commit_round_taken h q hash schedule db o o' taken seen
          ∙ commit_different h q hash now (later (later schedule)) o' differ)
