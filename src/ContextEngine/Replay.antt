-- ===== src/ContextEngine/Replay.antt =====
-- What a call of `assemble_context` stores, and that the same request is answered the same way again.
use instructional_agent_mvp.Prelude.{
  ◌<◌, ◌≡◌, ◌∙◌, refl, sym, ap, subst, String, true, false, Bool-cases, none, inl, inr, List, [],
  ◌∷◌, arith, ◌+◌, ℕ,
}
use instructional_agent_mvp.Schema.{context_assembly, Database}
use instructional_agent_mvp.Session.{
  Session, Result, Error, integrity_error, ok, raised, idle, reading,
}
use instructional_agent_mvp.Session.Laws.{turn, later}
use instructional_agent_mvp.Hashing.{Hashing}
use instructional_agent_mvp.Idempotency.{find_operation}
use instructional_agent_mvp.TaskIntake.{is_known_task_type}
use instructional_agent_mvp.ContextEngine.Contract.{
  learning_object_mapping, context_contract_version,
}
use instructional_agent_mvp.ContextEngine.Resolvers.{Adapters}
use instructional_agent_mvp.ContextEngine.Assembly.{
  ContextAssemblyOutcome, ContextRequest, Contents, declined, complete, assemble,
}
use instructional_agent_mvp.ContextEngine.Canonical.{
  compute_context_package_hash, compute_request_idempotency_hash,
}
use instructional_agent_mvp.ContextEngine.Package.{
  ContextAssemblyResult, outcome_only, package_result, is_registered, reject,
}
use instructional_agent_mvp.ContextEngine.Operation.{Interruption, uninterrupted, assemble_context}
use instructional_agent_mvp.ContextEngine.Rounds.{reserved, ended_by, owner}
use instructional_agent_mvp.ContextEngine.Calls.{
  IsSerializationFailure, waited, assemble_free, assemble_taken,
}
use instructional_agent_mvp.ContextEngine.Stored.{
  KeepsPackages, HasFreshPackages, IsPackaged, IsRefused, stored-IsPackaged, stored_unregistered,
  rejected-IsRefused,
}
use instructional_agent_mvp.ContextEngine.Answers.{
  ok-injective, Result-cases, IsAnswered, IsPackaged-IsAnswered, IsRefused-IsAnswered,
  declined-readable,
}

raised_not_ok :
    {e : Error} {r : ContextAssemblyResult}
    → ¬ ◌≡◌ {A = Result ContextAssemblyResult} (raised e) (ok r)
raised_not_ok e = absurd (ground arith)

module _ (h : Hashing) (a : Adapters) (q : ContextRequest) (request_hash : String) (db : Database)
    (free : find_operation context_assembly q.idempotency_key db ≡ none) where
  owner-complete :
      (c : Contents)
      → assemble h.str_uuid a learning_object_mapping q (reserved q request_hash db)
        ≡ ok (complete c)
      → is_registered q.target_object_id db ≡ true
      → let hash = compute_context_package_hash h context_contract_version q c in
        let (r, after) = owner h a q request_hash db in
        (r ≡ ok (package_result db.next_uuid hash)) × IsPackaged q c request_hash hash db after
  owner-complete c e there = rw e (stored-IsPackaged h q request_hash db free c there)

  owner_unregistered :
      (c : Contents)
      → assemble h.str_uuid a learning_object_mapping q (reserved q request_hash db)
        ≡ ok (complete c)
      → is_registered q.target_object_id db ≡ false
      → (owner h a q request_hash db).0 ≡ raised integrity_error
  owner_unregistered c e missing = rw e (stored_unregistered h q request_hash db free c missing)

  owner-declined :
      (reason : ContextAssemblyOutcome)
      → assemble h.str_uuid a learning_object_mapping q (reserved q request_hash db)
        ≡ ok (declined reason)
      → let (r, after) = owner h a q request_hash db in
        (r ≡ ok (outcome_only reason)) × IsRefused q reason request_hash db after
  unfolding reject
  owner-declined reason e = rw e (refl, rejected-IsRefused h q request_hash db free reason)

  owner-IsAnswered :
      (r : ContextAssemblyResult)
      → HasFreshPackages db
      → (owner h a q request_hash db).0 ≡ ok r
      → IsAnswered q request_hash r (owner h a q request_hash db).1
  owner-IsAnswered r fresh e =
      elim (Result-cases
        (assemble h.str_uuid a learning_object_mapping q (reserved q request_hash db))) [
          | inl (x, e') ↦ absurd (ground (arith))
          | inr (declined reason, e') ↦
              let (answer, p) = owner-declined reason e' in
              subst (λ x. IsAnswered q request_hash x (owner h a q request_hash db).1)
                (ok-injective (sym answer ∙ e))
                (IsRefused-IsAnswered q reason request_hash db (owner h a q request_hash db).1
                  (declined-readable h.str_uuid a learning_object_mapping q
                    (reserved q request_hash db) reason e')
                  p)
          | inr (complete c, e') ↦ elim (Bool-cases (is_registered q.target_object_id db)) [
            | inl there ↦
                let (answer, p) = owner-complete c e' there in
                subst (λ x. IsAnswered q request_hash x (owner h a q request_hash db).1)
                  (ok-injective (sym answer ∙ e))
                  (IsPackaged-IsAnswered q c request_hash
                    (compute_context_package_hash h context_contract_version q c) db
                    (owner h a q request_hash db).1 fresh p)
            | inr missing ↦ absurd (raised_not_ok (sym (owner_unregistered c e' missing) ∙ e))
          ]
        ]

ended-ok :
    (answer : Result ContextAssemblyResult) (r : ContextAssemblyResult)
    (before after after' : Database)
    → ◌≡◌ {A = Result ContextAssemblyResult × Session}
        (answer, ended_by answer before after [])
        (ok r, idle after' [])
    → (answer ≡ ok r) × (after ≡ after')
ended-ok (ok x) r before after after' e = (ap (λ p. p.0) e, ap (λ p. p.1.stored) e)
ended-ok (raised x) r before after after' e = absurd (ground (arith, ap (λ p. p.0) e))

KeepsPackages-trans : {a b c : Database} → KeepsPackages a b → KeepsPackages b c → KeepsPackages a c
KeepsPackages-trans k k' = record {
  operations = λ kind key o e. k'.operations kind key o (k.operations kind key o e);
  packages = λ id p e. k'.packages id p (k.packages id p e);
}

module _ (h : Hashing) (a : Adapters) (q : ContextRequest)
    (known : is_known_task_type q.task_type ≡ true) where
  abbrev hash_of_request : String
  hash_of_request = compute_request_idempotency_hash h q

  module _ (k n : ℕ) (few : k + n ≡ 4) (i : ℕ → Interruption) (db : Database)
      (schedule : List (Database → Database))
      (failures : (j : ℕ) → n < j → j < 5 → IsSerializationFailure (i j))
      (then_runs : i n ≡ uninterrupted) where
    abbrev seen_by_call : Database
    seen_by_call = let (before, waiting) = waited k db schedule in turn waiting before

    -- A known task type under a free key, after at most four serialization failures: when the steps
    -- complete for a registered target, the answer is a new package's identifier and hash, and the
    -- package, its audit event and the end of the reservation are stored together.
    pub assemble-complete :
        (c : Contents)
        → find_operation context_assembly q.idempotency_key seen_by_call ≡ none
        → assemble h.str_uuid a learning_object_mapping q (reserved q hash_of_request seen_by_call)
          ≡ ok (complete c)
        → is_registered q.target_object_id seen_by_call ≡ true
        → let hash = compute_context_package_hash h context_contract_version q c in
          let (r, session) = assemble_context h a q i (idle db schedule) in
          (r ≡ ok (package_result seen_by_call.next_uuid hash))
          × IsPackaged q c hash_of_request hash seen_by_call session.stored
    assemble-complete c free e there =
        let hash = compute_context_package_hash h context_contract_version q c in
        let (answer, p) = owner-complete h a q hash_of_request seen_by_call free c e there in
        subst
          (λ (x : Result ContextAssemblyResult × Session).
            (x.0 ≡ ok (package_result seen_by_call.next_uuid hash))
            × IsPackaged q c hash_of_request hash seen_by_call x.1.stored)
          (sym (assemble_free h a q known k n few i db schedule failures then_runs free))
          (rw answer (refl, p))

    -- When the steps complete under a free key for a target that is not registered, after at most
    -- four serialization failures, the call raises the violation of the foreign key and stores
    -- nothing, not even the reservation; its transaction is left open.
    pub assemble_unregistered :
        (c : Contents)
        → find_operation context_assembly q.idempotency_key seen_by_call ≡ none
        → assemble h.str_uuid a learning_object_mapping q (reserved q hash_of_request seen_by_call)
          ≡ ok (complete c)
        → is_registered q.target_object_id seen_by_call ≡ false
        → assemble_context h a q i (idle db schedule)
          ≡ (raised integrity_error, reading seen_by_call (later (waited k db schedule).1))
    assemble_unregistered c free e missing =
        let (before, waiting) = waited k db schedule in
        let after = (owner h a q hash_of_request seen_by_call).1 in
        assemble_free h a q known k n few i db schedule failures then_runs free
        ∙ ap
            (λ (r : Result ContextAssemblyResult).
              (r, ended_by r seen_by_call after (later waiting)))
            (owner_unregistered h a q hash_of_request seen_by_call free c e missing)

    -- When the steps refuse the request, the answer is the reason, and nothing is stored but the
    -- row of the key with the reason.
    pub assemble-IsRefused :
        (reason : ContextAssemblyOutcome)
        → find_operation context_assembly q.idempotency_key seen_by_call ≡ none
        → assemble h.str_uuid a learning_object_mapping q (reserved q hash_of_request seen_by_call)
          ≡ ok (declined reason)
        → let (r, session) = assemble_context h a q i (idle db schedule) in
          (r ≡ ok (outcome_only reason))
          × IsRefused q reason hash_of_request seen_by_call session.stored
    unfolding reject
    assemble-IsRefused reason free e =
        rw (assemble_free h a q known k n few i db schedule failures then_runs free, e)
          (refl, rejected-IsRefused h q hash_of_request seen_by_call free reason)

  -- A request under a free key that has been answered, with a package or a refusal, gets the same
  -- answer under its key again and writes nothing, whatever others have committed since that keeps
  -- the operations and the packages.
  pub assemble_again :
      (a' : Adapters) (i i' : ℕ → Interruption) (db after : Database) (r : ContextAssemblyResult)
      (others others' : Database → Database)
      → i 4 ≡ uninterrupted
      → i' 4 ≡ uninterrupted
      → find_operation context_assembly q.idempotency_key db ≡ none
      → HasFreshPackages db
      → assemble_context h a q i (idle db []) ≡ (ok r, idle after [])
      → KeepsPackages after (others after)
      → KeepsPackages (others after) (others' (others after))
      → assemble_context h a' q i' (idle after (others ∷ others' ∷ []))
        ≡ (ok r, idle (others' (others after)) [])
  assemble_again a' i i' db after r others others' e e' free fresh answered keep keep' =
      let none_failed : (j : ℕ)
          → 4 < j
          → j < 5
          → (f : ℕ → Interruption) → IsSerializationFailure (f j) =
        λ j lt lt' f. absurd (omega arith) in
      let (e₁, e₂) =
        ended-ok (owner h a q hash_of_request db).0 r db (owner h a q hash_of_request db).1 after (
          sym
            (assemble_free h a q known 0 4 refl i db [] (λ j lt lt'. none_failed j lt lt' i) e free)
          ∙ answered) in
      let x =
        subst (IsAnswered q hash_of_request r) e₂
          (owner-IsAnswered h a q hash_of_request db free r fresh e₁) in
      let kept = keep.operations context_assembly q.idempotency_key x.operation x.found in
      assemble_taken h a' q known 0 4 refl i' after (others ∷ others' ∷ [])
        (λ j lt lt'. none_failed j lt lt' i') e' x.operation x.operation kept
        (keep'.operations context_assembly q.idempotency_key x.operation kept) r x.payload
        (x.replays (others' (others after)) (KeepsPackages-trans keep keep'))
