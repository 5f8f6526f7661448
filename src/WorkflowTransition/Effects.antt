-- ===== src/WorkflowTransition/Effects.antt =====
-- What `apply_transition_in_transaction` accepts, and what it writes.
use instructional_agent_mvp.Prelude.{
  ◌≡◌, refl, sym, ap, ◌∙◌, ◌≢◌, ◌↔◌, String, true, false, Option, none, some, arith, find, insert,
  exists, text_eq, text_eq_iff, if◌then◌else◌, row, Unique, inl, inr, exists-find, find-row,
  row-update_self, row-update_ne, Option-cases,
}
use instructional_agent_mvp.Schema.{Uuid, is_known_state, ObjectVersion, Database}
use instructional_agent_mvp.WorkflowTransition.{
  TransitionRequest, TransitionOutcome, is_enabled, belongs, movable, moved, transition_row,
  committed_result, after_move, move_version, apply_transition_in_transaction,
}

abbrev pub version_key : ObjectVersion → Uuid
version_key v = v.object_version_id

abbrev pub version_of : Uuid → Database → Option ObjectVersion
version_of id db = row version_key id db.versions

-- The only enabled transition.
pub is_enabled_iff :
    (from to : String)
    → (is_enabled from to ≡ true) ↔ ((from ≡ "ELIGIBLE_PENDING") × (to ≡ "DRAFT"))
unfolding is_enabled
is_enabled_iff from to = ground (arith, text_eq_iff "ELIGIBLE_PENDING" from, text_eq_iff "DRAFT" to)

-- A transition that is not committed writes nothing.
pub rejected_writes_nothing :
    (q : TransitionRequest) (hash : String) (db : Database)
    → (apply_transition_in_transaction q hash db).0.outcome ≢ TransitionOutcome.committed
    → (apply_transition_in_transaction q hash db).1 ≡ db
unfolding apply_transition_in_transaction move_version
rejected_writes_nothing q hash db h = ground arith

-- The two states of the enabled transition are of the vocabulary.
enabled_states_known : (is_known_state "ELIGIBLE_PENDING" ≡ true) × (is_known_state "DRAFT" ≡ true)
unfolding is_known_state
enabled_states_known = (refl, refl)

-- The UPDATE of the status under the version's key hits iff the version has the expected status.
exists-movable :
    (q : TransitionRequest) (db : Database)
    → Unique version_key db.versions
    → exists (movable q) db.versions ≡ elim (version_of q.target_object_version_id db) [
      | none ↦ false
      | some v ↦ text_eq v.status q.from_state
    ]
exists-movable q db u =
    let i = q.target_object_version_id in
    let t = λ (v : ObjectVersion). text_eq v.status q.from_state in
    ground (arith, exists-find (movable q) db.versions, find-row version_key i t db.versions u)

-- The version exists under its object.
find-belongs :
    (q : TransitionRequest) (db : Database)
    → Unique version_key db.versions
    → find (belongs q) db.versions ≡ elim (version_of q.target_object_version_id db) [
      | none ↦ none
      | some v ↦ if text_eq v.object_id q.target_object_id then some v else none
    ]
find-belongs q db u =
    find-row version_key q.target_object_version_id (λ v. text_eq v.object_id q.target_object_id)
      db.versions u

-- What the code calls a legal transition: from ELIGIBLE_PENDING to DRAFT, on a version of the
-- target object that is in ELIGIBLE_PENDING.
pub record IsLegal (q : TransitionRequest) (db : Database) : Type 0 where
  pub version : ObjectVersion
  pub found : version_of q.target_object_version_id db ≡ some version
  pub owned : version.object_id ≡ q.target_object_id
  pub status : version.status ≡ "ELIGIBLE_PENDING"
  pub from : q.from_state ≡ "ELIGIBLE_PENDING"
  pub to : q.to_state ≡ "DRAFT"

module _ (q : TransitionRequest) (hash : String) (db : Database)
    (u : Unique version_key db.versions) where
  pub legal_moves : IsLegal q db → apply_transition_in_transaction q hash db ≡ after_move q hash db
  unfolding apply_transition_in_transaction move_version
  legal_moves l = ground (
    arith,
    find-belongs q db u,
    exists-movable q db u,
    text_eq_iff l.version.object_id q.target_object_id,
    text_eq_iff l.version.status q.from_state,
    is_enabled_iff q.from_state q.to_state,
    enabled_states_known,
  )

  IsLegal-committed :
      IsLegal q db
      → (apply_transition_in_transaction q hash db).0.outcome ≡ TransitionOutcome.committed
  IsLegal-committed l = rw (legal_moves l)

  committed-IsLegal :
      (apply_transition_in_transaction q hash db).0.outcome ≡ TransitionOutcome.committed
      → IsLegal q db
  unfolding apply_transition_in_transaction move_version
  committed-IsLegal h = elim (Option-cases (version_of q.target_object_version_id db)) [
    | inl e ↦ absurd (ground (arith, find-belongs q db u))
    | inr (v, e) ↦ record {
      version = v;
      found = e;
      owned = ground (arith, find-belongs q db u, text_eq_iff v.object_id q.target_object_id);
      status = ground (
        arith,
        exists-movable q db u,
        text_eq_iff v.status q.from_state,
        is_enabled_iff q.from_state q.to_state,
      );
      from = ground (arith, is_enabled_iff q.from_state q.to_state);
      to = ground (arith, is_enabled_iff q.from_state q.to_state);
    }
  ]

  -- With unique keys, a transition is committed exactly if it is legal: from ELIGIBLE_PENDING to
  -- DRAFT, on a version of the target object whose status is ELIGIBLE_PENDING.
  pub committed_iff_legal :
      ((apply_transition_in_transaction q hash db).0.outcome ≡ TransitionOutcome.committed)
      ↔ IsLegal q db
  committed_iff_legal = (committed-IsLegal, IsLegal-committed)

  -- A legal transition moves its version to DRAFT, leaves every other version as it was, and
  -- inserts one transition row.
  pub legal_writes :
      (l : IsLegal q db)
      → let (r, db') = apply_transition_in_transaction q hash db in
        (r ≡ committed_result q db.next_uuid)
        × (version_of q.target_object_version_id db' ≡ some (record l.version { status = "DRAFT" }))
        × ((j : Uuid) → q.target_object_version_id ≢ j → version_of j db' ≡ version_of j db)
        × (db'.transitions ≡ insert (transition_row q hash db.next_uuid) db.transitions)
  legal_writes l =
      let moves = legal_moves l in
      let t = λ (v : ObjectVersion). text_eq v.status q.from_state in
      let i = q.target_object_version_id in
      let hit = (text_eq_iff l.version.status q.from_state).1 (l.status ∙ sym l.from) in
      rw moves (
        refl,
        row-update_self version_key i t (moved q) db.versions l.version (λ v. refl) l.found hit
            ∙ ap (λ s. some (record l.version { status = s })) l.to,
        λ j ne. row-update_ne version_key i j t (moved q) db.versions (λ v. refl) ne,
        refl,
      )
