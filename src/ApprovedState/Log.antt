-- ===== src/ApprovedState/Log.antt =====
-- The approved state of every object is the end of its log of commits, and the log is a chain.
use instructional_agent_mvp.Prelude.{
  ◌≡◌, refl, ◌∙◌, String, inl, inr, Bool-cases, exists, Option, none, some, List, [], ◌∷◌, arith,
  insert, text_eq, text_eq_iff, if◌then◌else◌, find-update, find-insert, Option-cases, find-fits,
}
use instructional_agent_mvp.Schema.{Uuid, ApprovedStateCommit, Database}
use instructional_agent_mvp.Hashing.{Hashing}
use instructional_agent_mvp.Idempotency.{finish_operation}
use instructional_agent_mvp.ApprovedState.{
  CommitRequest, current_approved, is_pointer_of, is_as_expected, pointed, insert_pointer,
  new_pointer, commit_row, approve,
}
use instructional_agent_mvp.ApprovedState.Effects.{IsAcceptable, pointer_of, is_not_distinct_iff}

-- The version of the last commit of an object, `since` if there is none.
abbrev pub last_since : String → Option Uuid → List ApprovedStateCommit → Option Uuid
last_since o since [] = since
last_since o since (c ∷ rows) =
    last_since o (if text_eq c.object_id o then some c.object_version_id else since) rows

abbrev pub last_approved : String → List ApprovedStateCommit → Option Uuid
last_approved o = last_since o none

-- Each commit took over from the one before it on its object. `earlier` are those before, the
-- latest first.
abbrev approved_before : String → List ApprovedStateCommit → Option Uuid
approved_before o [] = none
approved_before o (c ∷ earlier) =
    if text_eq c.object_id o then some c.object_version_id else approved_before o earlier

abbrev pub IsChain : List ApprovedStateCommit → List ApprovedStateCommit → Type 0
IsChain earlier [] = Unit
IsChain earlier (c ∷ rows) =
    (c.actual_previous_approved_version_id ≡ approved_before c.object_id earlier)
    × IsChain (c ∷ earlier) rows

pub record IsLogged (db : Database) : Type 0 where
  pub state : (o : String) → current_approved o db ≡ last_approved o db.commits
  pub chain : IsChain [] db.commits

last_since-insert :
    (o : String) (since : Option Uuid) (n : ApprovedStateCommit) (rows : List ApprovedStateCommit)
    → last_since o since (insert n rows)
      ≡ (if text_eq n.object_id o then some n.object_version_id else last_since o since rows)
last_since-insert o since n [] = refl
last_since-insert o since n (c ∷ rows) =
    last_since-insert o (if text_eq c.object_id o then some c.object_version_id else since) n rows

-- Read forwards or backwards, the log ends in the same version.
IsChain-insert :
    (n : ApprovedStateCommit) (earlier rows : List ApprovedStateCommit)
    → IsChain earlier rows
    → n.actual_previous_approved_version_id
      ≡ last_since n.object_id (approved_before n.object_id earlier) rows
    → IsChain earlier (insert n rows)
IsChain-insert n earlier [] h e = (e, tt)
IsChain-insert n earlier (c ∷ rows) h e = (h.0, IsChain-insert n (c ∷ earlier) rows h.1 e)

current-inserted :
    (o j : String) (db : Database)
    → pointer_of o db.pointers ≡ none
    → current_approved j (record db { pointers = insert (new_pointer o) db.pointers })
      ≡ current_approved j db
unfolding current_approved
current-inserted o j db e =
    ground (arith, find-insert (is_pointer_of j) (new_pointer o) db.pointers, text_eq_iff o j)

module _ (h : Hashing) (q : CommitRequest) (hash : String) (db : Database)
    (a : IsAcceptable q db) where
  -- An approval moves its object's pointer to its version, and no other pointer.
  pub current-approve :
      (o : String)
      → current_approved o (approve h q hash db).1
        ≡ (if text_eq q.object_id o then some q.object_version_id else current_approved o db)
  unfolding current_approved finish_operation
  current-approve o = elim (Option-cases (pointer_of o db.pointers)) [
    | inl e ↦ ground (
      arith,
      find-update (is_pointer_of o) (is_as_expected q) (pointed q) db.pointers (λ p. refl),
      text_eq_iff q.object_id o,
      a.pointed_to,
    )
    | inr (p, e) ↦ ground (
      arith,
      find-update (is_pointer_of o) (is_as_expected q) (pointed q) db.pointers (λ p. refl),
      find-fits (is_pointer_of o) db.pointers p,
      text_eq_iff q.object_id o,
      text_eq_iff p.object_id o,
      text_eq_iff p.object_id q.object_id,
      is_not_distinct_iff p.current_approved_version_id q.expected_previous_approved_version_id,
      a.pointed_to,
      a.expected,
    )
  ]

  commits-approve :
      (approve h q hash db).1.commits ≡ insert (commit_row q hash db.next_uuid) db.commits
  unfolding finish_operation
  commits-approve = refl

  -- The pointer and the log move together, and the log stays a chain.
  pub approve-IsLogged : IsLogged db → IsLogged (approve h q hash db).1
  unfolding current_approved
  approve-IsLogged l =
      let n = commit_row q hash db.next_uuid in
      let before = l.state q.object_id in
      record {
        state = λ o.
            rw
              (current-approve o, commits-approve, last_since-insert o none n db.commits, l.state o)
              refl;
        chain = rw commits-approve (
            IsChain-insert n [] db.commits l.chain
              (ground (arith, l.state q.object_id, a.pointed_to, a.expected)));
      }

-- A new pointer is at NULL, where the log of its object is.
pub insert_pointer-IsLogged :
    (o : String) (db : Database) → IsLogged db → IsLogged (insert_pointer o db).1
unfolding insert_pointer
insert_pointer-IsLogged o db l = elim (Option-cases (pointer_of o db.pointers)) [
  | inl e ↦ elim (Bool-cases (exists (λ x. text_eq x.object_id o) db.objects)) [
    | inl there ↦
        rw (e, there, insert_pointer)
          (record { state = λ j. current-inserted o j db e ∙ l.state j; chain = l.chain })
    | inr missing ↦ rw (e, missing, insert_pointer) l
  ]
  | inr (p, e) ↦ rw (e, insert_pointer) l
]
