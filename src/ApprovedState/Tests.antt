-- ===== src/ApprovedState/Tests.antt =====
-- The theorems on approvals at concrete requests.
use instructional_agent_mvp.Prelude.{◌≡◌, ◌≢◌, ◌↔◌, refl, String, none, [], ◌∷◌, arith, text_eq_iff}
use instructional_agent_mvp.Schema.{approved_state_commit, claimed, Database}
use instructional_agent_mvp.Session.{ok, idle, reading, retry}
use instructional_agent_mvp.Hashing.{join}
use instructional_agent_mvp.Idempotency.{find_operation, operation_row, finish_operation, reserve}
use instructional_agent_mvp.ApprovedState.{
  CommitRequest, committed, committed_result, commit_approved_state, owner_statements,
  compute_idempotency_payload_hash, idempotency_conflict, outcome_only,
}
use instructional_agent_mvp.ApprovedState.Effects.{IsAcceptable, committed_iff_IsAcceptable}
use instructional_agent_mvp.ApprovedState.Rounds.{commit_conflict}
use instructional_agent_mvp.ApprovedState.Written.{KeepsCommits}
use instructional_agent_mvp.ApprovedState.Replay.{
  commit_success, commit_failure, commit_again, second_commit,
}
use instructional_agent_mvp.Examples.{plain, course, version_of, pointer_to}

-- The first approval of the lesson.
abbrev first : CommitRequest
first = record {
  object_id = "lesson";
  object_version_id = 0;
  expected_previous_approved_version_id = none;
  idempotency_key = "k1";
}

first-IsAcceptable : IsAcceptable first course
first-IsAcceptable = record {
  version = version_of 0 "lesson" 1 "ELIGIBLE_PENDING";
  found = refl;
  owned = refl;
  pointer = pointer_to "lesson" none;
  pointed_to = refl;
  expected = refl;
}

commit_success_example :
    (commit_approved_state plain first (idle course [])).0 ≡ ok (committed_result first 3)
commit_success_example =
    (commit_success plain first [] course refl (refl, (refl, (refl, tt))) (refl, (refl, (refl, tt)))
      first-IsAcceptable).0

-- The lesson's version under the wrong object.
abbrev stray : CommitRequest
stray = record first { object_id = "task" }

stray_unacceptable : ¬ IsAcceptable stray course
stray_unacceptable a = ground (arith, a.found, a.owned)

commit_failure_example : (commit_approved_state plain stray (idle course [])).1.stored ≡ course
commit_failure_example =
    (commit_failure plain stray [] course refl (refl, (refl, (refl, tt))) (refl, (refl, (refl, tt)))
      stray_unacceptable).1

committed_iff_IsAcceptable_example :
    ((owner_statements plain first "h" course).0.outcome ≡ committed) ↔ IsAcceptable first course
committed_iff_IsAcceptable_example =
    committed_iff_IsAcceptable plain first "h" course (refl, (refl, (refl, tt)))
      (refl, (refl, (refl, tt)))

keeps_all : (d : Database) → KeepsCommits d d
keeps_all d = record { operations = λ kind key o e. e; commits = λ id c e. e }

commit_again_example :
    commit_approved_state plain first (
      idle
        (commit_approved_state plain first (idle course [])).1.stored
        ((λ d. d) ∷ (λ d. d) ∷ (λ d. d) ∷ []))
    ≡ (
      (commit_approved_state plain first (idle course [])).0,
      reading (commit_approved_state plain first (idle course [])).1.stored [],
    )
commit_again_example =
    commit_again plain first course refl (refl, (refl, (refl, tt))) (refl, (refl, (refl, tt)))
      first-IsAcceptable (λ d. d) (λ d. d) (λ d. d) tt keeps_all keeps_all keeps_all

-- A rival of the first approval, under another key.
abbrev rival : CommitRequest
rival = record first { idempotency_key = "k2" }

rival_free :
    find_operation approved_state_commit "k2"
      (commit_approved_state plain first (idle course [])).1.stored
    ≡ none
unfolding commit_approved_state compute_idempotency_payload_hash owner_statements finish_operation
    retry reserve join
rival_free = refl

second_commit_example :
    (commit_approved_state plain rival
      (idle (commit_approved_state plain first (idle course [])).1.stored [])).1.stored
    ≡ (commit_approved_state plain first (idle course [])).1.stored
second_commit_example =
    (second_commit plain first course refl (refl, (refl, (refl, tt))) (refl, (refl, (refl, tt)))
      first-IsAcceptable rival refl refl (λ e. cc e) rival_free).1

-- A key that another payload has taken.
abbrev used : Database
used = record course { operations = operation_row approved_state_commit "k1" "other" claimed ∷ [] }

other_payload : ◌≢◌ {A = String} "other" (compute_idempotency_payload_hash plain first)
unfolding compute_idempotency_payload_hash join
other_payload e = ground (arith, text_eq_iff "other" "lesson|id|NULL")

commit_conflict_example :
    commit_approved_state plain first (idle used [])
    ≡ (ok (outcome_only idempotency_conflict), idle used [])
commit_conflict_example =
    commit_conflict plain first [] used (operation_row approved_state_commit "k1" "other" claimed)
      (operation_row approved_state_commit "k1" "other" claimed) refl refl other_payload
