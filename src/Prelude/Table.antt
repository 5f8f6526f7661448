-- ===== src/Prelude/Table.antt =====
-- A table is the list of its rows in the order of insertion. The statements that the repositories
-- send are these functions of it, and the laws say what a query reads after a write.
use Prim.Native.Nat.{ℕ, suc}
use mathlib.Core.Bool.{Bool, true, false}
use mathlib.Core.Option.{Option, none, some}
use mathlib.Core.List.{List, [], ◌∷◌, ◌++◌}
use instructional_agent_mvp.Prelude.Tests.{if◌then◌else◌}

module _ {ℓ} {A : Type ℓ} where
  -- `select(...).where(p)` read by `scalar_one_or_none()` or `first()`.
  abbrev pub find : (A → Bool) → List A → Option A
  find p [] = none
  find p (r ∷ rows) = if p r then some r else find p rows

  -- `select(...).where(p)`: the rows that fit.
  abbrev pub select : (A → Bool) → List A → List A
  select p [] = []
  select p (r ∷ rows) = if p r then r ∷ select p rows else select p rows

  -- `select(...).where(p).exists()`.
  abbrev pub exists : (A → Bool) → List A → Bool
  exists p [] = false
  exists p (r ∷ rows) = if p r then true else exists p rows

  -- `update(...).where(p).values(f)`.
  abbrev pub update : (A → Bool) → (A → A) → List A → List A
  update p f [] = []
  update p f (r ∷ rows) = (if p r then f r else r) ∷ update p f rows

  -- `session.add(row)` and `INSERT`.
  abbrev pub insert : A → List A → List A
  insert r rows = rows ++ r ∷ []

  abbrev pub length : List A → ℕ
  length [] = 0
  length (r ∷ rows) = suc (length rows)

  -- How many rows fit.
  abbrev pub count : (A → Bool) → List A → ℕ
  count p rows = length (select p rows)

  abbrev pub All {κ} : (A → Type κ) → List A → Type κ
  All P [] = Unit
  All P (r ∷ rows) = P r × All P rows
