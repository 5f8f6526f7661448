-- ===== src/VersionCreation/Reuse.antt =====
-- The version that a new run gets: free for it, and the lowest one if several are.
use instructional_agent_mvp.Prelude.{
  ℕ, suc, ◌+◌, ◌<◌, ◌≤◌, ◌≡◌, refl, String, Bool, true, false, ◌&&◌, none, some, List, [], ◌∷◌,
  arith, exists, text_eq_iff, ◌==◌, All, All-map, All-find, Option-cases, inl, inr, row, Unique,
  find-insert, find-fits, row-fresh,
}
use instructional_agent_mvp.Schema.{
  Uuid, is_active, ObjectVersion, AgentRun, ObjectVersionContent, Database,
}
use instructional_agent_mvp.VersionCreation.{
  max_version, versions_of, new_version, lowest, is_reusable, has_content, has_active_run,
  resolve_or_create_object_version,
}

abbrev pub version_key : ObjectVersion → Uuid
version_key v = v.object_version_id

-- The identifiers that the rows mention have been drawn.
pub record IsDrawn (db : Database) : Type 0 where
  pub versions : All (λ v. v.object_version_id < db.next_uuid) db.versions
  pub contents : All (λ c. c.object_version_id < db.next_uuid) db.contents
  pub targets : All (λ r. r.target_object_version_id < db.next_uuid) db.agent_runs

-- A version of the object that waits for its first content, with no run at work on it.
pub record IsFree (o : String) (id : Uuid) (db : Database) : Type 0 where
  pub version : ObjectVersion
  pub found : row version_key id db.versions ≡ some version
  pub owned : version.object_id ≡ o
  pub eligible : version.status ≡ "ELIGIBLE_PENDING"
  pub no_content : has_content id db ≡ false
  pub no_run : has_active_run id db ≡ false

module _ (fits : ObjectVersion → Bool) where
  lowest-row :
      (rows : List ObjectVersion) (v : ObjectVersion)
      → Unique version_key rows
      → lowest fits rows ≡ some v
      → (fits v ≡ true) × (row version_key v.object_version_id rows ≡ some v)
  lowest-row [] v u h = absurd (ground arith)
  lowest-row (x ∷ rows) v u h = elim (Option-cases (lowest fits rows)) [
    | inl e ↦ ground arith
    | inr (w, e) ↦ ground (arith, lowest-row rows w u.1 e, u.0)
  ]

  lowest-none :
      (n : ℕ) (rows : List ObjectVersion)
      → lowest fits rows ≡ none
      → All (λ w. fits w ≡ true → n ≤ w.version_number) rows
  lowest-none n [] h = tt
  lowest-none n (x ∷ rows) h = elim (Option-cases (lowest fits rows)) [
    | inl e ↦ ((λ f. absurd (ground arith)), lowest-none n rows e)
    | inr (w, e) ↦ absurd (ground arith)
  ]

  -- No row that fits has a lower number.
  pub lowest_least :
      (rows : List ObjectVersion) (v : ObjectVersion)
      → lowest fits rows ≡ some v
      → All (λ w. fits w ≡ true → v.version_number ≤ w.version_number) rows
  lowest_least [] v h = tt
  lowest_least (x ∷ rows) v h = elim (Option-cases (lowest fits rows)) [
    | inl e ↦ ((λ f. ground arith), lowest-none v.version_number rows e)
    | inr (w, e) ↦ (
      (λ f. ground arith),
      All-map (λ y. fits y ≡ true → w.version_number ≤ y.version_number)
          (λ y. fits y ≡ true → v.version_number ≤ y.version_number) rows
          (λ y k f. ground (arith, k f)) (lowest_least rows w e),
    )
  ]

no_contents :
    (n : Uuid) (rows : List ObjectVersionContent)
    → All (λ c. c.object_version_id < n) rows
    → exists (λ c. c.object_version_id == n) rows ≡ false
no_contents n [] h = refl
no_contents n (c ∷ rows) h = ground (arith, no_contents n rows h.1)

no_runs :
    (n : Uuid) (rows : List AgentRun)
    → All (λ r. r.target_object_version_id < n) rows
    → exists (λ r. r.target_object_version_id == n && is_active r.status) rows ≡ false
no_runs n [] h = refl
no_runs n (c ∷ rows) h = ground (arith, no_runs n rows h.1)

-- The resolved version, reused or new, is one of the object's, waits in ELIGIBLE_PENDING, has no
-- content and no active run, if the keys are unique and the identifiers in use have been drawn.
pub resolve-IsFree :
    (o : String) (db : Database)
    → Unique version_key db.versions
    → IsDrawn db
    → let (id, db') = resolve_or_create_object_version o db in IsFree o id db'
unfolding resolve_or_create_object_version
resolve-IsFree o db u drawn = elim (Option-cases (lowest (is_reusable o db) db.versions)) [
  | inl e ↦
      rw (e, resolve_or_create_object_version)
        (record {
          version = new_version o (max_version (versions_of o db.versions) + 1) db.next_uuid;
          found = ground (
            arith,
            find-insert (λ v. version_key v == db.next_uuid)
                (new_version o (max_version (versions_of o db.versions) + 1) db.next_uuid)
                db.versions,
            row-fresh version_key db.next_uuid db.versions drawn.versions,
          );
          owned = refl;
          eligible = refl;
          no_content = no_contents db.next_uuid db.contents drawn.contents;
          no_run = no_runs db.next_uuid db.agent_runs drawn.targets;
        })
  | inr (v, e) ↦
      let (fit, found) = lowest-row (is_reusable o db) db.versions v u e in
      rw (e, resolve_or_create_object_version)
        (record {
          version = v;
          found = found;
          owned = ground (arith, fit, text_eq_iff v.object_id o);
          eligible = ground (arith, fit, text_eq_iff v.status "ELIGIBLE_PENDING");
          no_content = ground (arith, fit);
          no_run = ground (arith, fit);
        })
]

-- If the object has a free version, nothing is written, and the version that is taken has a number
-- no greater than that of the free one.
pub resolve_lowest :
    (o : String) (id : Uuid) (db : Database)
    → Unique version_key db.versions
    → (free : IsFree o id db)
    → let (id', db') = resolve_or_create_object_version o db in
      (db' ≡ db)
      × ((v : ObjectVersion) × ((row version_key id' db.versions ≡ some v)
            × (v.version_number ≤ free.version.version_number)))
unfolding resolve_or_create_object_version
resolve_lowest o id db u free =
    let fit : is_reusable o db free.version ≡ true = ground (
      arith,
      find-fits (λ v. version_key v == id) db.versions free.version,
      text_eq_iff free.version.object_id o,
      text_eq_iff free.version.status "ELIGIBLE_PENDING",
      free.found,
      free.owned,
      free.eligible,
      free.no_content,
      free.no_run,
    ) in
    let found = free.found in
    let number = free.version.version_number in
    let fits = is_reusable o db in
    let here = λ (v : ObjectVersion). version_key v == id in
    elim (Option-cases (lowest (is_reusable o db) db.versions)) [
      | inl e ↦ absurd (
          omega (
            arith,
            All-find (λ w. fits w ≡ true → suc number ≤ w.version_number) here db.versions
                free.version (lowest-none fits (suc number) db.versions e) found fit,
          ))
      | inr (v, e) ↦
          rw (e, resolve_or_create_object_version)
            (
              refl,
              (
                v,
                (
                  (lowest-row (is_reusable o db) db.versions v u e).1,
                  All-find (λ w. fits w ≡ true → v.version_number ≤ w.version_number) here
                      db.versions free.version (lowest_least fits db.versions v e) found fit,
                ),
              ),
            )
    ]
