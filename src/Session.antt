-- ===== src/Session.antt =====
-- A SQLAlchemy session over the database, as the repositories use it. `working` is what the
-- session's own transaction sees, `stored` what has been committed. A transaction begins by itself
-- with the first statement after a commit or a rollback; what other sessions have committed by then
-- is the next entry of `schedule`, so that any interleaving of whole transactions is a schedule.
pub mod Laws
pub mod Ends
use instructional_agent_mvp.Prelude.{
  ℕ, zero, suc, Bool, true, false, Option, none, some, List, [], ◌∷◌, if◌then◌else◌,
}
use instructional_agent_mvp.Schema.{Database}

pub record Session : Type 0 where
  pub stored : Database
  pub working : Database
  pub in_transaction : Bool
  pub schedule : List (Database → Database)

-- The exceptions that the repositories raise or let through.
pub data Error : Type 0 where
  contention open_transaction no_result_found value_error key_error operational_error : Error
  type_error attribute_error index_error integrity_error object_deleted : Error

pub data Result {ℓ} (A : Type ℓ) : Type ℓ where
  ok : A → Result A
  raised : Error → Result A

abbrev pub Action : Type 0 → Type 0
Action A = Session → Result A × Session

abbrev pub pure : {A : Type 0} → A → Action A
pure a s = (ok a, s)

abbrev pub raise : {A : Type 0} → Error → Action A
raise e s = (raised e, s)

-- What follows a call: the rest of the block, or nothing after an exception.
abbrev pub follow : {A B : Type 0} → (A → Action B) → Result A × Session → Result B × Session
follow f (ok a, s) = f a s
follow f (raised e, s) = (raised e, s)

infixl 5 ◌>>=◌ ◌>>◌
abbrev pub ◌>>=◌ : {A B : Type 0} → Action A → (A → Action B) → Action B
◌>>=◌ m f s = follow f (m s)

abbrev pub ◌>>◌ : {A B : Type 0} → Action A → Action B → Action B
m >> k = m >>= λ _. k

-- The others' turn, and then this session's transaction on what is stored.
abbrev pub next_turn : List (Database → Database) → Database → Session
next_turn [] db = record { stored = db; working = db; in_transaction = true; schedule = [] }
next_turn (others ∷ rest) db = record {
  stored = others db;
  working = others db;
  in_transaction = true;
  schedule = rest;
}

abbrev pub begin : Session → Session
begin s = if s.in_transaction then s else next_turn s.schedule s.stored

-- `session.execute(...)` or `session.add(...)`: a statement on what the transaction sees.
abbrev pub execute : {A : Type 0} → (Database → A × Database) → Action A
execute statement s =
    let s' = begin s in let (a, db) = statement s'.working in (ok a, record s' { working = db })

abbrev pub query : {A : Type 0} → (Database → A) → Action A
query read = execute (λ db. (read db, db))

abbrev pub commit : Action (Unit {0})
commit s =
    (ok tt, if s.in_transaction then record s { stored = s.working; in_transaction = false } else s)

abbrev pub rollback : Action (Unit {0})
rollback s =
    (ok tt, if s.in_transaction then record s { working = s.stored; in_transaction = false } else s)

-- What an exception leaves of its transaction's work. A flush that fails on a constraint undoes it,
-- though the transaction is only over with the rollback of the session; no code here goes on then.
abbrev pub left_by : Error → Database → Database → Database
left_by integrity_error before after = before
left_by e before after = after

abbrev pub let_through : {A : Type 0} → Error → Action A
let_through e s = (raised e, record s { working = left_by e s.stored s.working })

-- Reading an attribute of a row that was loaded before a rollback: the rollback has expired it, and
-- a SELECT by its primary key loads it again, in a transaction that it begins.
abbrev or_deleted : {A : Type 0} → Option A → Action A
or_deleted none = raise object_deleted
or_deleted (some a) = pure a

abbrev pub refresh : {A : Type 0} → (Database → Option A) → Action A
refresh read = query read >>= or_deleted

-- A session outside of any transaction.
abbrev pub idle : Database → List (Database → Database) → Session
idle db schedule = record { stored = db; working = db; in_transaction = false; schedule = schedule }

-- A session in a transaction that has only read.
abbrev pub reading : Database → List (Database → Database) → Session
reading db schedule = record (idle db schedule) { in_transaction = true }

-- What follows a round of a loop: `none` is `continue`.
abbrev pub follow_round : {A : Type 0} → Action A → Result (Option A) × Session → Result A × Session
follow_round again (ok none, s) = again s
follow_round again (ok (some a), s) = (ok a, s)
follow_round again (raised e, s) = (raised e, s)

-- `for _ in range(n)` over a round that returns a result or continues; after the last round it
-- raises.
unfoldable pub retry : {A : Type 0} → ℕ → Action (Option A) → Action A
retry zero body s = raise contention s
retry (suc n) body s = follow_round (retry n body) (body s)

-- The same loop over rounds that differ, numbered down to 0.
unfoldable pub retry_each : {A : Type 0} → ℕ → (ℕ → Action (Option A)) → Action A
retry_each zero body s = raise contention s
retry_each (suc n) body s = follow_round (retry_each n body) (body n s)
