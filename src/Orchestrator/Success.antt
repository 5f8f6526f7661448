-- ===== src/Orchestrator/Success.antt =====
-- What `_phase_c_finalize` of src/persistence/repositories/orchestrator.py writes in the one
-- transaction of a success.
use instructional_agent_mvp.Prelude.{◌≡◌, refl, sym, subst, Bool, true, some, List, insert, Unique}
use instructional_agent_mvp.Schema.{succeeded, AgentRun, ObjectVersionContent, Database}
use instructional_agent_mvp.Session.{Session, Result, ok, idle}
use instructional_agent_mvp.Session.Laws.{turn}
use instructional_agent_mvp.Hashing.{Hashing}
use instructional_agent_mvp.WorkflowTransition.Effects.{version_key, version_of, IsLegal}
use instructional_agent_mvp.AgentRunManager.{finished}
use instructional_agent_mvp.AgentRunManager.Invariant.{run_of, Keys}
use instructional_agent_mvp.AgentRunManager.Fencing.{IsOwner}
use instructional_agent_mvp.Orchestrator.PhaseC.{
  Finalization, FinalClock, content_row, final_transition, phase_c_finalize,
}
use instructional_agent_mvp.Orchestrator.Finalized.{finalize_committed, finalized_lem}

module _ (h : Hashing) (clock : FinalClock) (f : Finalization) (r : AgentRun)
    (content : ObjectVersionContent) (complete : content_row f ≡ some content)
    (o : IsOwner f.worker_id f.generation clock.tested r) (schedule : List (Database → Database))
    (db : Database) (k : Keys (turn schedule db))
    (u : Unique version_key (turn schedule db).versions)
    (found : run_of f.logical_run_id (turn schedule db) ≡ some r)
    (l : IsLegal (final_transition h f r) (turn schedule db)) where
  -- The owner's complete output with a legal transition: the run ends as succeeded, its version is
  -- in DRAFT, and the content is inserted, all stored by one commit.
  pub finalize_success :
      let (answer, s) = phase_c_finalize h clock f (idle db schedule) in
      (answer ≡ ok true)
      × (run_of f.logical_run_id s.stored ≡ some (finished succeeded r))
      × (version_of f.target_object_version_id s.stored
          ≡ some (record l.version { status = "DRAFT" }))
      × (s.stored.contents ≡ insert content (turn schedule db).contents)
  finalize_success =
      let w = finalized_lem h clock f r content complete o schedule db k u found l in
      subst
        (λ (x : Result Bool × Session).
          (x.0 ≡ ok true)
          × (run_of f.logical_run_id x.1.stored ≡ some (finished succeeded r))
          × (version_of f.target_object_version_id x.1.stored
              ≡ some (record l.version { status = "DRAFT" }))
          × (x.1.stored.contents ≡ insert content (turn schedule db).contents))
        (sym (finalize_committed h clock f r content complete o schedule db k u found l))
        (refl, w.0, w.1.0, w.1.1)
