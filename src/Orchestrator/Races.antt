-- ===== src/Orchestrator/Races.antt =====
-- A key that is free when `request_producer_execution` of
-- src/persistence/repositories/orchestrator.py reads it: the call creates the run, or loses the race
-- for the key to another one while it assembles its context.
use instructional_agent_mvp.Prelude.{
  ℕ, ◌≡◌, ◌∙◌, refl, true, String, ap, sym, subst, none, some, List, insert,
}
use instructional_agent_mvp.Schema.{Uuid, producer_execution, IdempotencyOperation, Database}
use instructional_agent_mvp.Session.{Session, Result, ok, idle, reading}
use instructional_agent_mvp.Session.Laws.{turn, later, retry_each_returns, retry_each_continues}
use instructional_agent_mvp.Hashing.{Hashing}
use instructional_agent_mvp.Idempotency.{find_operation}
use instructional_agent_mvp.ContextEngine.Resolvers.{postgres_adapters}
use instructional_agent_mvp.ContextEngine.Package.{package_result}
use instructional_agent_mvp.ContextEngine.Operation.{Interruption, assemble_context}
use instructional_agent_mvp.VersionCreation.{resolve_or_create_object_version}
use instructional_agent_mvp.AgentRunManager.{create_agent_run, new_run}
use instructional_agent_mvp.Orchestrator.PhaseA.{run_request}
use instructional_agent_mvp.Orchestrator.ActiveRuns.{is_there, same_runs}
use instructional_agent_mvp.Orchestrator.Request.{
  ProducerRequest, compute_producer_request_identity_hash, Resolution, running, context_request,
  committed_row, creation, resolve_round, resolve_run,
}
use instructional_agent_mvp.Orchestrator.Resolved.{IsDecided, round_context, loop_taken}
use instructional_agent_mvp.Orchestrator.Competition.{
  new_run_id, won, compete_wins, compete_loses, won-find,
}

module _ (h : Hashing) (q : ProducerRequest) (i : ℕ → ℕ → Interruption) (db db' : Database)
    (schedule rest : List (Database → Database)) (package_id : Uuid) (package_hash : String)
    (free : find_operation producer_execution q.idempotency_key (turn schedule db) ≡ none)
    (assembled : assemble_context h postgres_adapters
        (context_request q)
        (i 4)
        (idle (turn schedule db) (later schedule))
      ≡ (ok (package_result package_id package_hash), idle db' rest))
    (there : is_there (creation q package_id) (turn rest db') ≡ true) where
  abbrev identity : String
  identity = compute_producer_request_identity_hash h q

  stored_runs :
      (now : Database)
      → let run_id = new_run_id q identity package_id now in
        let version_id = (resolve_or_create_object_version q.target_object_id now).0 in
        (won q identity package_id now).agent_runs
        ≡ insert (new_run (run_request (creation q package_id) version_id) run_id) now.agent_runs
  unfolding create_agent_run
  stored_runs now =
      ap
        (insert (
          new_run
            (run_request (creation q package_id)
              (resolve_or_create_object_version q.target_object_id now).0)
            (new_run_id q identity package_id now)))
        (same_runs q.target_object_id now)

  wins :
      find_operation producer_execution q.idempotency_key (turn rest db') ≡ none
      → let now = turn rest db' in
        resolve_run h q i (idle db schedule) ≡ (
          ok (running (some (new_run_id q identity package_id now))),
          idle (won q identity package_id now) (later rest),
        )
  unfolding resolve_run
  wins still_free =
      retry_each_returns 4 (λ n. resolve_round h q identity (i n)) (idle db schedule) _
        (round_context h q (i 4) db db' schedule rest (package_result package_id package_hash) free
            assembled
          ∙ compete_wins q identity package_id db' rest there still_free)

  -- A free key whose context has been assembled, and that is still free in the transaction after
  -- that: the call goes on with a new run, and that transaction stores the run, on the assembled
  -- package and the resolved version of the object, together with the row of the key.
  pub resolve_wins :
      let now = turn rest db' in
      let run_id = new_run_id q identity package_id now in
      let version_id = (resolve_or_create_object_version q.target_object_id now).0 in
      find_operation producer_execution q.idempotency_key now ≡ none
      → let (r, session) = resolve_run h q i (idle db schedule) in
        (r ≡ ok (running (some run_id)))
        × ((find_operation producer_execution q.idempotency_key session.stored
              ≡ some (committed_row q identity run_id))
            × (session.stored.agent_runs
                ≡ insert
                    (new_run (run_request (creation q package_id) version_id) run_id)
                    now.agent_runs))
  resolve_wins still_free =
      let now = turn rest db' in
      let run_id = new_run_id q identity package_id now in
      let version_id = (resolve_or_create_object_version q.target_object_id now).0 in
      subst
        (λ (x : Result Resolution × Session).
          (x.0 ≡ ok (running (some run_id)))
          × ((find_operation producer_execution q.idempotency_key x.1.stored
                ≡ some (committed_row q identity run_id))
              × (x.1.stored.agent_runs
                  ≡ insert (new_run (run_request (creation q package_id) version_id) run_id)
                      now.agent_runs)))
        (sym (wins still_free))
        (refl, (won-find q identity package_id now still_free, stored_runs now))

  -- A free key that another call takes while this one assembles its context: the run and the
  -- version of this call are rolled back, the next round reads the row of the other one twice and
  -- decides by it, and the call has stored nothing but its context. The transaction of the last
  -- read is left open.
  pub resolve_loses :
      (o o' o'' : IdempotencyOperation) (r : Resolution)
      → find_operation producer_execution q.idempotency_key (turn rest db') ≡ some o
      → let now = turn (later rest) (turn rest db') in
        let last = turn (later (later rest)) now in
        find_operation producer_execution q.idempotency_key now ≡ some o'
        → find_operation producer_execution q.idempotency_key last ≡ some o''
        → IsDecided (compute_producer_request_identity_hash h q) o'' r
        → resolve_run h q i (idle db schedule) ≡ (ok r, reading last (later (later (later rest))))
  unfolding resolve_run
  resolve_loses o o' o'' r taken seen again d =
      retry_each_continues 4 (λ n. resolve_round h q identity (i n)) (idle db schedule)
        (round_context h q (i 4) db db' schedule rest (package_result package_id package_hash) free
            assembled
          ∙ compete_loses q identity package_id db' rest o there taken)
      ∙ loop_taken h q 3 i (turn rest db') (later rest) o' o'' r seen again d
