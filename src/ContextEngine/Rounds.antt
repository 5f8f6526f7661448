-- ===== src/ContextEngine/Rounds.antt =====
-- What one round of the loop of `assemble_context` gives.
use instructional_agent_mvp.Prelude.{
  ◌≡◌, ◌≢◌, refl, ap, String, true, inl, inr, some, none, Option, List, [], ◌∷◌, arith, text_eq,
  text_eq_iff, Bool-cases,
}
use instructional_agent_mvp.Schema.{context_assembly, IdempotencyOperation, Database}
use instructional_agent_mvp.Session.{Session, Result, ok, raised, idle, left_by}
use instructional_agent_mvp.Session.Laws.{turn, later}
use instructional_agent_mvp.Hashing.{Hashing}
use instructional_agent_mvp.Idempotency.{find_operation, reserve}
use instructional_agent_mvp.Idempotency.Laws.{reserve_free, reserve_taken}
use instructional_agent_mvp.TaskIntake.{is_known_task_type}
use instructional_agent_mvp.ContextEngine.Contract.{
  get_mapping, task_type_context_mapping, learning_object_mapping, is_consistent,
}
use instructional_agent_mvp.ContextEngine.Resolvers.{Adapters}
use instructional_agent_mvp.ContextEngine.Assembly.{ContextRequest, idempotency_conflict, assemble}
use instructional_agent_mvp.ContextEngine.Package.{
  ContextAssemblyResult, outcome_only, owner_statements, finish_assembly,
}
use instructional_agent_mvp.ContextEngine.Operation.{
  uninterrupted, end_as_owner, compare_and_replay, replay_result, assemble_round,
}

-- A known task type has a mapping.
known-mapping :
    (t : String)
    → is_known_task_type t ≡ true
    → get_mapping t task_type_context_mapping ≡ some learning_object_mapping
unfolding is_known_task_type
known-mapping t e = ground arith

-- The database in which the owner of a key works.
abbrev pub reserved : ContextRequest → String → Database → Database
reserved q hash db = (reserve context_assembly q.idempotency_key hash db).1

-- What the owner's transaction leaves: an exception leaves it open.
abbrev pub ended_by :
    Result ContextAssemblyResult → Database → Database → List (Database → Database) → Session
ended_by (ok r) before after rest = idle after rest
ended_by (raised e) before after rest = record (idle before rest) {
  working = left_by e before after;
  in_transaction = true;
}

abbrev pub optional : {A : Type 0} → Result A → Result (Option A)
optional (ok a) = ok (some a)
optional (raised e) = raised e

end_as_owner_lem :
    (r : Result ContextAssemblyResult) (before after : Database) (rest : List (Database → Database))
    → end_as_owner r (record (idle before rest) { working = after; in_transaction = true })
      ≡ (optional r, ended_by r before after rest)
end_as_owner_lem (ok r) before after rest = refl
end_as_owner_lem (raised e) before after rest = refl

module _ (h : Hashing) (a : Adapters) (q : ContextRequest) (hash : String) where
  abbrev pub owner : Database → Result ContextAssemblyResult × Database
  owner db =
      finish_assembly h q (assemble h.str_uuid a learning_object_mapping q (reserved q hash db))
        (reserved q hash db)

  won :
      (db : Database)
      → find_operation context_assembly q.idempotency_key db ≡ none
      → (reserve context_assembly q.idempotency_key hash db).0 ≡ true
  won db free = ap (λ p. p.0) (reserve_free context_assembly q.idempotency_key db hash free)

  owner_eq :
      (db : Database)
      → is_known_task_type q.task_type ≡ true
      → owner_statements h a
          (get_mapping q.task_type task_type_context_mapping)
          q
          (reserved q hash db)
        ≡ owner db
  unfolding owner_statements is_consistent
  owner_eq db known = rw (known-mapping q.task_type known) refl

  pub round_free :
      (schedule : List (Database → Database)) (db : Database)
      → is_known_task_type q.task_type ≡ true
      → find_operation context_assembly q.idempotency_key (turn schedule db) ≡ none
      → let now = turn schedule db in
        let (r, after) = owner now in
        assemble_round h a q hash uninterrupted (idle db schedule)
        ≡ (optional r, ended_by r now after (later schedule))
  round_free [] db known free =
      rw (won db free, owner_eq db known) (end_as_owner_lem (owner db).0 db (owner db).1 [])
  round_free (others ∷ rest) db known free =
      let now = others db in
      rw (won now free, owner_eq now known) (end_as_owner_lem (owner now).0 now (owner now).1 rest)

  -- A key that is taken: its row is read in the next transaction, and compared.
  pub round_taken :
      (schedule : List (Database → Database)) (db : Database) (o o' : IdempotencyOperation)
      → find_operation context_assembly q.idempotency_key (turn schedule db) ≡ some o
      → let now = turn (later schedule) (turn schedule db) in
        find_operation context_assembly q.idempotency_key now ≡ some o'
        → assemble_round h a q hash uninterrupted (idle db schedule)
          ≡ compare_and_replay hash
              (some o')
              (record (idle now (later (later schedule))) { in_transaction = true })
  round_taken [] db o o' taken seen =
      rw (reserve_taken context_assembly q.idempotency_key db hash o taken) (rw seen refl)
  round_taken (f ∷ []) db o o' taken seen =
      rw (reserve_taken context_assembly q.idempotency_key (f db) hash o taken) (rw seen refl)
  round_taken (f ∷ g ∷ rest) db o o' taken seen =
      rw (reserve_taken context_assembly q.idempotency_key (f db) hash o taken) (rw seen refl)

  module _ (now : Database) (rest : List (Database → Database)) (o : IdempotencyOperation) where
    pub same_payload :
        (r : ContextAssemblyResult)
        → o.idempotency_payload_hash ≡ hash
        → replay_result o now ≡ ok r
        → compare_and_replay hash (some o) (record (idle now rest) { in_transaction = true })
          ≡ (ok (some r), idle now rest)
    same_payload r same seen =
        rw ((text_eq_iff o.idempotency_payload_hash hash).1 same) (rw seen refl)

    pub other_payload :
        o.idempotency_payload_hash ≢ hash
        → compare_and_replay hash (some o) (record (idle now rest) { in_transaction = true })
          ≡ (ok (some (outcome_only idempotency_conflict)), idle now rest)
    other_payload differ = elim (Bool-cases (text_eq o.idempotency_payload_hash hash)) [
      | inl e ↦ absurd (differ ((text_eq_iff o.idempotency_payload_hash hash).0 e))
      | inr e ↦ rw e refl
    ]
