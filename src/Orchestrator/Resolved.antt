-- ===== src/Orchestrator/Resolved.antt =====
-- How the loop of `request_producer_execution` of src/persistence/repositories/orchestrator.py
-- resolves a key.
use instructional_agent_mvp.Prelude.{
  ℕ, suc, ◌≡◌, ◌≢◌, ◌∙◌, refl, ap, sym, subst, String, Option, none, some, inl, inr, List, [], ◌∷◌,
  text_eq, text_eq_iff, Bool-cases,
}
use instructional_agent_mvp.Schema.{
  OperationStatus, producer_execution, IdempotencyOperation, Database,
}
use instructional_agent_mvp.Session.{Session, Result, ok, idle, reading, retry_each, follow}
use instructional_agent_mvp.Session.Laws.{turn, later, retry_each_returns}
use instructional_agent_mvp.Hashing.{Hashing}
use instructional_agent_mvp.Idempotency.{find_operation}
use instructional_agent_mvp.Idempotency.Laws.{found-key}
use instructional_agent_mvp.ContextEngine.Resolvers.{postgres_adapters}
use instructional_agent_mvp.ContextEngine.Package.{ContextAssemblyResult}
use instructional_agent_mvp.ContextEngine.Operation.{Interruption, assemble_context}
use instructional_agent_mvp.Orchestrator.Request.{
  AgentRunOutcome, outcome_only, ProducerRequest, compute_producer_request_identity_hash,
  Resolution, answered, running, replayed, context_request, after_context, decide, resolve_round,
  resolve_run,
}

-- What a row under the key means for a request with a hash.
pub data IsDecided (hash : String) (o : IdempotencyOperation) : Resolution → Type 0 where
  conflicting :
      o.idempotency_payload_hash ≢ hash
      → IsDecided hash o (answered (outcome_only AgentRunOutcome.idempotency_conflict))
  refused :
      o.idempotency_payload_hash ≡ hash
      → o.status ≡ OperationStatus.rejected
      → IsDecided hash o (answered (outcome_only AgentRunOutcome.invalid_context_package))
  created_before :
      o.idempotency_payload_hash ≡ hash
      → o.status ≡ OperationStatus.committed
      → IsDecided hash o (running o.agent_run_id)

IsDecided-replayed :
    (hash : String) (o : IdempotencyOperation) (r : Resolution)
    → IsDecided hash o r
    → replayed hash o ≡ r
IsDecided-replayed hash o _ (conflicting differ) =
    elim (Bool-cases (text_eq o.idempotency_payload_hash hash)) [
      | inl e ↦ absurd (differ ((text_eq_iff o.idempotency_payload_hash hash).0 e))
      | inr e ↦ rw e refl
    ]
IsDecided-replayed hash o _ (refused same e) =
    rw ((text_eq_iff o.idempotency_payload_hash hash).1 same, e) refl
IsDecided-replayed hash o _ (created_before same e) =
    rw ((text_eq_iff o.idempotency_payload_hash hash).1 same, e) refl

module _ (h : Hashing) (q : ProducerRequest) where
  abbrev identity : String
  identity = compute_producer_request_identity_hash h q

  -- The preflight read is closed before anything else.
  preflight :
      (hash : String) (i : ℕ → Interruption) (db : Database) (schedule : List (Database → Database))
      (o : Option IdempotencyOperation)
      → find_operation producer_execution q.idempotency_key (turn schedule db) ≡ o
      → resolve_round h q hash i (idle db schedule)
        ≡ decide h q hash i o (idle (turn schedule db) (later schedule))
  preflight hash i db [] o e = rw e refl
  preflight hash i db (others ∷ rest) o e = rw e refl

  decided :
      (hash : String) (now : Database) (rest : List (Database → Database))
      (o : IdempotencyOperation) (r : Resolution)
      → IsDecided hash o r
      → ◌≡◌ {A = Result (Option Resolution) × Session}
          (ok (some (replayed hash o)), reading now rest)
          (ok (some r), reading now rest)
  decided hash now rest o r d =
      ap (λ x. (ok (some x), reading now rest)) (IsDecided-replayed hash o r d)

  decides_refreshed :
      (hash : String) (i : ℕ → Interruption) (db : Database) (rest : List (Database → Database))
      (o o' : IdempotencyOperation) (r : Resolution)
      → find_operation producer_execution o.idempotency_key (turn rest db) ≡ some o'
      → IsDecided hash o' r
      → decide h q hash i (some o) (idle db rest)
        ≡ (ok (some r), reading (turn rest db) (later rest))
  decides_refreshed hash i db [] o o' r seen d = rw seen (decided hash db [] o' r d)
  decides_refreshed hash i db (others ∷ rest) o o' r seen d =
      rw seen (decided hash (others db) rest o' r d)

  -- The row that the preflight saw is read again in the next transaction, and decides as it is then.
  decides :
      (hash : String) (i : ℕ → Interruption) (db : Database) (rest : List (Database → Database))
      (o o' : IdempotencyOperation) (r : Resolution)
      → o.idempotency_key ≡ q.idempotency_key
      → find_operation producer_execution q.idempotency_key (turn rest db) ≡ some o'
      → IsDecided hash o' r
      → decide h q hash i (some o) (idle db rest)
        ≡ (ok (some r), reading (turn rest db) (later rest))
  decides hash i db rest o o' r same seen d =
      decides_refreshed hash i db rest o o' r
        (subst (λ k. find_operation producer_execution k (turn rest db) ≡ some o') (sym same) seen)
        d

  module _ (n : ℕ) (i : ℕ → ℕ → Interruption) (db : Database)
      (schedule : List (Database → Database)) where
    abbrev pub loop : Result Resolution × Session
    loop = retry_each (suc n) (λ m. resolve_round h q identity (i m)) (idle db schedule)

    pub loop_taken :
        (o o' : IdempotencyOperation) (r : Resolution)
        → find_operation producer_execution q.idempotency_key (turn schedule db) ≡ some o
        → let now = turn (later schedule) (turn schedule db) in
          find_operation producer_execution q.idempotency_key now ≡ some o'
          → IsDecided identity o' r
          → loop ≡ (ok r, reading now (later (later schedule)))
    loop_taken o o' r taken seen d =
        retry_each_returns n (λ m. resolve_round h q identity (i m)) (idle db schedule) r
          (preflight identity (i n) db schedule (some o) taken
            ∙ decides identity (i n) (turn schedule db) (later schedule) o o' r
                (found-key producer_execution q.idempotency_key (turn schedule db) o taken) seen d)

  -- A key that has a row when the call begins: by the row as the next transaction reads it again,
  -- the call answers a conflict to another request, the stored refusal again, or goes on with the
  -- stored run. It writes nothing: no context is assembled and no run is created. That second
  -- transaction is left open.
  pub resolve_taken :
      (i : ℕ → ℕ → Interruption) (db : Database) (schedule : List (Database → Database))
      (o o' : IdempotencyOperation) (r : Resolution)
      → find_operation producer_execution q.idempotency_key (turn schedule db) ≡ some o
      → let now = turn (later schedule) (turn schedule db) in
        find_operation producer_execution q.idempotency_key now ≡ some o'
        → IsDecided (compute_producer_request_identity_hash h q) o' r
        → resolve_run h q i (idle db schedule) ≡ (ok r, reading now (later (later schedule)))
  unfolding resolve_run
  resolve_taken i db schedule o o' r taken seen d = loop_taken 4 i db schedule o o' r taken seen d

  -- A free key: what follows the assembly of a context.
  pub round_context :
      (i : ℕ → Interruption) (db db' : Database) (schedule rest : List (Database → Database))
      (r : ContextAssemblyResult)
      → find_operation producer_execution q.idempotency_key (turn schedule db) ≡ none
      → assemble_context h postgres_adapters
          (context_request q)
          i
          (idle (turn schedule db) (later schedule))
        ≡ (ok r, idle db' rest)
      → resolve_round h q identity i (idle db schedule) ≡ after_context q identity r (idle db' rest)
  round_context i db db' schedule rest r free e =
      preflight identity i db schedule none free ∙ ap (follow (after_context q identity)) e
