-- ===== src/ContextEngine/Stored.antt =====
-- What the owner of a key stores: a package, its event and the end of the reservation together, or
-- the reason of a refusal.
use instructional_agent_mvp.Prelude.{
  suc, ◌<◌, ◌≡◌, refl, sym, ap, subst, String, true, false, some, none, insert, All, row,
}
use instructional_agent_mvp.Schema.{
  Uuid, OperationType, context_assembly, claimed, IdempotencyOperation, ContextPackage, Database,
}
use instructional_agent_mvp.Session.{ok, raised, integrity_error}
use instructional_agent_mvp.Hashing.{Hashing}
use instructional_agent_mvp.Idempotency.{find_operation, operation_row, finish_operation}
use instructional_agent_mvp.Idempotency.Laws.{reserve_free, find-reserved, find-finished}
use instructional_agent_mvp.ContextEngine.Contract.{context_contract_version}
use instructional_agent_mvp.ContextEngine.Assembly.{
  ContextAssemblyOutcome, ContextRequest, Contents,
}
use instructional_agent_mvp.ContextEngine.Canonical.{compute_context_package_hash}
use instructional_agent_mvp.ContextEngine.Package.{
  package_result, is_registered, refused_as, reject, package_row, package_event, packaged,
  store_package,
}
use instructional_agent_mvp.ContextEngine.Rounds.{reserved}

abbrev pub package_key : ContextPackage → Uuid
package_key p = p.context_package_id

-- What other sessions commit leaves the ended operations and the packages as they are.
pub record KeepsPackages (db db' : Database) : Type 0 where
  pub operations :
      (kind : OperationType) (key : String) (o : IdempotencyOperation)
      → find_operation kind key db ≡ some o
      → find_operation kind key db' ≡ some o
  pub packages :
      (id : Uuid) (p : ContextPackage)
      → row package_key id db.packages ≡ some p
      → row package_key id db'.packages ≡ some p

-- No package has an identifier that is still to be drawn.
abbrev pub HasFreshPackages : Database → Type 0
HasFreshPackages db = All (λ p. p.context_package_id < db.next_uuid) db.packages

-- Everything that an assembly has written together.
pub record IsPackaged (q : ContextRequest) (c : Contents) (request_hash hash : String)
    (db after : Database) : Type 0 where
  pub packages : after.packages ≡ insert (package_row q c hash db.next_uuid) db.packages
  pub audited :
      after.audit_events
      ≡ insert (package_event q c hash db.next_uuid (suc db.next_uuid)) db.audit_events
  pub operation :
      find_operation context_assembly q.idempotency_key after
      ≡ some (
          packaged db.next_uuid
            (operation_row context_assembly q.idempotency_key request_hash claimed))

-- A refusal writes the row of its key and nothing else.
pub record IsRefused (q : ContextRequest) (reason : ContextAssemblyOutcome) (request_hash : String)
    (db after : Database) : Type 0 where
  pub others : after ≡ record db { operations = after.operations }
  pub operation :
      find_operation context_assembly q.idempotency_key after
      ≡ some (
          refused_as reason (operation_row context_assembly q.idempotency_key request_hash claimed))

module _ (h : Hashing) (q : ContextRequest) (request_hash : String) (db : Database)
    (free : find_operation context_assembly q.idempotency_key db ≡ none) where
  abbrev key : String
  key = q.idempotency_key

  abbrev claim : IdempotencyOperation
  claim = operation_row context_assembly key request_hash claimed

  abbrev seen : Database
  seen = record db { operations = insert claim db.operations }

  reserved_eq : reserved q request_hash db ≡ seen
  reserved_eq = ap (λ p. p.1) (reserve_free context_assembly key db request_hash free)

  seen-claim : find_operation context_assembly key seen ≡ some claim
  seen-claim =
      subst (λ d. find_operation context_assembly key d ≡ some claim) reserved_eq
        (find-reserved context_assembly key db request_hash free)

  stored_seen :
      (c : Contents)
      → is_registered q.target_object_id db ≡ true
      → let hash = compute_context_package_hash h context_contract_version q c in
        let (r, after) = store_package h q c seen in
        (r ≡ ok (package_result db.next_uuid hash)) × IsPackaged q c request_hash hash db after
  unfolding store_package finish_operation
  stored_seen c there =
      let hash = compute_context_package_hash h context_contract_version q c in
      rw there (
        refl,
        record {
          packages = refl;
          audited = refl;
          operation =
              find-finished context_assembly key seen (packaged db.next_uuid) claim (λ o. refl)
                seen-claim;
        },
      )

  pub stored-IsPackaged :
      (c : Contents)
      → is_registered q.target_object_id db ≡ true
      → let hash = compute_context_package_hash h context_contract_version q c in
        let (r, after) = store_package h q c (reserved q request_hash db) in
        (r ≡ ok (package_result db.next_uuid hash)) × IsPackaged q c request_hash hash db after
  stored-IsPackaged c there =
      let hash = compute_context_package_hash h context_contract_version q c in
      subst
        (λ d.
          ((store_package h q c d).0 ≡ ok (package_result db.next_uuid hash))
          × IsPackaged q c request_hash hash db (store_package h q c d).1)
        (sym reserved_eq) (stored_seen c there)

  -- A package of an object that is not registered violates the foreign key.
  pub stored_unregistered :
      (c : Contents)
      → is_registered q.target_object_id db ≡ false
      → (store_package h q c (reserved q request_hash db)).0 ≡ raised integrity_error
  unfolding store_package
  stored_unregistered c missing =
      subst (λ d. (store_package h q c d).0 ≡ raised integrity_error) (sym reserved_eq)
        (rw missing refl)

  rejected_seen :
      (reason : ContextAssemblyOutcome)
      → IsRefused q reason request_hash db (reject key reason seen).1
  unfolding reject finish_operation
  rejected_seen reason = record {
    others = refl;
    operation =
        find-finished context_assembly key seen (refused_as reason) claim (λ o. refl) seen-claim;
  }

  pub rejected-IsRefused :
      (reason : ContextAssemblyOutcome)
      → IsRefused q reason request_hash db (reject key reason (reserved q request_hash db)).1
  rejected-IsRefused reason =
      subst (λ d. IsRefused q reason request_hash db (reject key reason d).1) (sym reserved_eq)
        (rejected_seen reason)
