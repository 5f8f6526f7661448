-- ===== src/Session/Laws.antt =====
-- How a loop of rounds goes on: by what its first round gives.
use instructional_agent_mvp.Prelude.{ℕ, suc, ◌≡◌, Option, none, some, List, [], ◌∷◌}
use instructional_agent_mvp.Schema.{Database}
use instructional_agent_mvp.Session.{
  Session, Error, ok, raised, Action, retry, retry_each, next_turn,
}

-- What a transaction that begins now sees, and the turns that are left then.
abbrev pub turn : List (Database → Database) → Database → Database
turn schedule db = (next_turn schedule db).working

abbrev pub later : List (Database → Database) → List (Database → Database)
later [] = []
later (others ∷ rest) = rest

module _ {A : Type 0} (n : ℕ) (body : Action (Option A)) (s : Session) {s' : Session} where
  pub retry_returns : (a : A) → body s ≡ (ok (some a), s') → retry (suc n) body s ≡ (ok a, s')
  unfolding retry
  retry_returns a e = rw (e, retry)

  pub retry_continues : body s ≡ (ok none, s') → retry (suc n) body s ≡ retry n body s'
  unfolding retry
  retry_continues e = rw (e, retry)

  pub retry_raises : (x : Error) → body s ≡ (raised x, s') → retry (suc n) body s ≡ (raised x, s')
  unfolding retry
  retry_raises x e = rw (e, retry)

-- The same for a loop whose rounds differ.
module _ {A : Type 0} (n : ℕ) (body : ℕ → Action (Option A)) (s : Session) {s' : Session} where
  pub retry_each_returns :
      (a : A) → body n s ≡ (ok (some a), s') → retry_each (suc n) body s ≡ (ok a, s')
  unfolding retry_each
  retry_each_returns a e = rw (e, retry_each)

  pub retry_each_continues :
      body n s ≡ (ok none, s') → retry_each (suc n) body s ≡ retry_each n body s'
  unfolding retry_each
  retry_each_continues e = rw (e, retry_each)

  pub retry_each_raises :
      (x : Error) → body n s ≡ (raised x, s') → retry_each (suc n) body s ≡ (raised x, s')
  unfolding retry_each
  retry_each_raises x e = rw (e, retry_each)
