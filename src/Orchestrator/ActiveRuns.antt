-- ===== src/Orchestrator/ActiveRuns.antt =====
-- No version has two active runs, which is the partial unique index of `agent_run`.
use native.Mathlib.Decide.{ℕ_discrete}
use instructional_agent_mvp.Prelude.{
  ◌≤◌, ◌≡◌, refl, subst, String, Bool, true, false, ◌&&◌, List, [], ◌∷◌, arith, exists, insert,
  count, count-insert, text_eq, ◌==◌, Unique, Bool-cases, inl, inr, if◌then◌else◌,
}
use instructional_agent_mvp.Schema.{Uuid, is_active, AgentRun, Database}
use instructional_agent_mvp.Session.{ok, raised, no_result_found, idle}
use instructional_agent_mvp.AgentRunManager.{new_run, create_agent_run}
use instructional_agent_mvp.VersionCreation.{
  lock_instructional_object, resolve_or_create_object_version,
}
use instructional_agent_mvp.VersionCreation.Reuse.{version_key, IsDrawn, resolve-IsFree}
use instructional_agent_mvp.Orchestrator.PhaseA.{Creation, run_request, phase_a_create_run}

abbrev pub is_active_on : Uuid → AgentRun → Bool
is_active_on id r = r.target_object_version_id == id && is_active r.status

abbrev pub OneActive : Database → Type 0
OneActive db = (id : Uuid) → count (is_active_on id) db.agent_runs ≤ 1

-- What phase A writes for an object that is there.
abbrev pub created : Creation → Database → (Uuid × Uuid) × Database
created c db =
    let (version_id, db') = resolve_or_create_object_version c.target_object_id db in
    let (run_id, db'') = create_agent_run (run_request c version_id) db' in
    ((run_id, version_id), db'')

abbrev pub is_there : Creation → Database → Bool
is_there c db = exists (λ o. text_eq o.object_id c.target_object_id) db.objects

-- Phase A creates the run with its version for an object that is there, and raises for any other;
-- it commits neither.
pub phase_a_lem :
    (c : Creation) (db : Database)
    → phase_a_create_run c (idle db []) ≡ (
        if is_there c db
        then (
          ok (created c db).0,
          record (idle db []) { working = (created c db).1; in_transaction = true },
        )
        else (raised no_result_found, record (idle db []) { in_transaction = true }))
unfolding phase_a_create_run lock_instructional_object
phase_a_lem c db = elim (Bool-cases (is_there c db)) [ inl e ↦ rw e refl | inr e ↦ rw e refl ]

count-none : (k : AgentRun → Bool) (rows : List AgentRun) → exists k rows ≡ false → count k rows ≡ 0
count-none k [] h = refl
count-none k (r ∷ rows) h = ground (arith, count-none k rows)

count_new :
    (version_id id : Uuid) (n : AgentRun) (rows : List AgentRun)
    → n.target_object_version_id ≡ version_id
    → exists (is_active_on version_id) rows ≡ false
    → count (is_active_on id) rows ≤ 1
    → count (is_active_on id) (insert n rows) ≤ 1
count_new version_id id n rows e free one = elim (ℕ_discrete version_id id) [
  | yes same ↦
      let none_yet =
        count-none (is_active_on id) rows
          (subst (λ i. exists (is_active_on i) rows ≡ false) same free) in
      ground (arith, count-insert (is_active_on id) n rows, none_yet)
  | no other ↦ ground (arith, count-insert (is_active_on id) n rows)
]

pub same_runs :
    (o : String) (db : Database)
    → (resolve_or_create_object_version o db).1.agent_runs ≡ db.agent_runs
unfolding resolve_or_create_object_version
same_runs o db = ground arith

-- What phase A writes leaves every version with at most one active run, if that held before.
pub created-OneActive :
    (c : Creation) (db : Database)
    → Unique version_key db.versions
    → IsDrawn db
    → OneActive db
    → OneActive (created c db).1
unfolding create_agent_run
created-OneActive c db u drawn one id =
    let (version_id, db') = resolve_or_create_object_version c.target_object_id db in
    let free = resolve-IsFree c.target_object_id db u drawn in
    let runs = db'.agent_runs in
    let n = new_run (run_request c version_id) db'.next_uuid in
    count_new version_id id n runs refl free.no_run (rw (same_runs c.target_object_id db) (one id))
