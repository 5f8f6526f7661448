-- ===== src/ContextEngine/Answers.antt =====
-- The row that an assembly leaves gives its answer again.
use instructional_agent_mvp.Prelude.{
  ◌⊎◌, ◌≡◌, ◌∙◌, refl, ap, String, some, inl, inr, arith, row, row-fresh, find-insert, ◌==◌,
}
use instructional_agent_mvp.Schema.{Uuid, context_assembly, claimed, IdempotencyOperation, Database}
use instructional_agent_mvp.Session.{Result, Error, ok, raised}
use instructional_agent_mvp.Idempotency.{find_operation, operation_row}
use instructional_agent_mvp.ContextEngine.Contract.{ContextMapping}
use instructional_agent_mvp.ContextEngine.Resolvers.{Adapters}
use instructional_agent_mvp.ContextEngine.Assembly.{
  ContextAssemblyOutcome, ContextRequest, Contents, Target, effective, rejected, declined, collect,
  assemble, resolve_target, compare_with_approved, resolve_pinned_version, target_contents,
  add_dependencies,
}
use instructional_agent_mvp.ContextEngine.Package.{
  ContextAssemblyResult, outcome_only, package_result, reason_of, refused_as, package_row, packaged,
}
use instructional_agent_mvp.ContextEngine.Operation.{outcome_of, replay_result}
use instructional_agent_mvp.ContextEngine.Gaps.{bind-ok}
use instructional_agent_mvp.ContextEngine.Stored.{
  package_key, KeepsPackages, HasFreshPackages, IsPackaged, IsRefused,
}

-- The reasons for which an assembly is refused are read back from the column as they were.
pub refused-readable :
    (str_uuid : Uuid → String) (q : ContextRequest) (db : Database)
    (reason : ContextAssemblyOutcome)
    → resolve_target str_uuid q db ≡ ok (rejected reason)
    → outcome_of (reason_of reason) ≡ ok (outcome_only reason)
unfolding resolve_target resolve_pinned_version compare_with_approved
refused-readable str_uuid q db reason e = ground arith

collect-declined :
    (a : Adapters) (m : ContextMapping) (q : ContextRequest) (db : Database) (t : Target)
    (reason : ContextAssemblyOutcome)
    → collect a m q db t ≡ ok (declined reason)
    → t ≡ rejected reason
collect-declined a m q db (rejected o) reason e = ground arith
collect-declined a m q db (effective v gaps) reason e =
    let (c₀, (first, rest)) = bind-ok (target_contents q v gaps db) _ (declined reason) e in
    let (c₁, (added, last)) =
      bind-ok
        (add_dependencies q.target_object_id db
          (a.resolve q.target_object_id m.required_relations db) c₀)
        _ (declined reason) rest in
    absurd (ground arith)

pub declined-readable :
    (str_uuid : Uuid → String) (a : Adapters) (m : ContextMapping) (q : ContextRequest)
    (db : Database) (reason : ContextAssemblyOutcome)
    → assemble str_uuid a m q db ≡ ok (declined reason)
    → outcome_of (reason_of reason) ≡ ok (outcome_only reason)
unfolding assemble
declined-readable str_uuid a m q db reason e =
    let (t, (resolved, collected)) = bind-ok (resolve_target str_uuid q db) _ (declined reason) e in
    refused-readable str_uuid q db reason
      (resolved ∙ ap ok (collect-declined a m q db t reason collected))

pub ok-injective : {A : Type 0} {a b : A} → ◌≡◌ {A = Result A} (ok a) (ok b) → a ≡ b
ok-injective e = ground arith

pub Result-cases :
    {A : Type 0} (r : Result A) → ((e : Error) × (r ≡ raised e)) ⊎ ((x : A) × (r ≡ ok x))
Result-cases (raised e) = inl (e, refl)
Result-cases (ok x) = inr (x, refl)

-- The row that a request has left gives its answer again, wherever it and the package are kept.
pub record IsAnswered (q : ContextRequest) (request_hash : String) (r : ContextAssemblyResult)
    (after : Database) : Type 0 where
  pub operation : IdempotencyOperation
  pub found : find_operation context_assembly q.idempotency_key after ≡ some operation
  pub payload : operation.idempotency_payload_hash ≡ request_hash
  pub replays : (now : Database) → KeepsPackages after now → replay_result operation now ≡ ok r

pub IsPackaged-IsAnswered :
    (q : ContextRequest) (c : Contents) (request_hash hash : String) (db after : Database)
    → HasFreshPackages db
    → IsPackaged q c request_hash hash db after
    → IsAnswered q request_hash (package_result db.next_uuid hash) after
unfolding replay_result
IsPackaged-IsAnswered q c request_hash hash db after fresh p = record {
  operation =
      packaged db.next_uuid (operation_row context_assembly q.idempotency_key request_hash claimed);
  found = p.operation;
  payload = refl;
  replays = λ now keep.
      let new = package_row q c hash db.next_uuid in
      let there : row package_key db.next_uuid after.packages ≡ some new = ground (
        arith,
        p.packages,
        row-fresh package_key db.next_uuid db.packages fresh,
        find-insert (λ x. package_key x == db.next_uuid) new db.packages,
      ) in
      rw (keep.packages db.next_uuid new there) refl;
}

pub IsRefused-IsAnswered :
    (q : ContextRequest) (reason : ContextAssemblyOutcome) (request_hash : String)
    (db after : Database)
    → outcome_of (reason_of reason) ≡ ok (outcome_only reason)
    → IsRefused q reason request_hash db after
    → IsAnswered q request_hash (outcome_only reason) after
unfolding replay_result
IsRefused-IsAnswered q reason request_hash db after readable p = record {
  operation =
      refused_as reason (operation_row context_assembly q.idempotency_key request_hash claimed);
  found = p.operation;
  payload = refl;
  replays = λ now keep. readable;
}
