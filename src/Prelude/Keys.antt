-- ===== src/Prelude/Keys.antt =====
-- Tables with a primary key: an UPDATE under the key writes one row or none.
use Prim.Native.Nat.{ℕ, ◌<◌}
use mathlib.Core.Path.{◌≡◌, refl}
use mathlib.Core.Logic.{◌≢◌}
use mathlib.Core.Bool.{Bool, true, ◌&&◌}
use mathlib.Core.Option.{Option, none, some}
use mathlib.Core.List.{List, [], ◌∷◌}
use native.Mathlib.Omega.{arith}
use instructional_agent_mvp.Prelude.Tests.{if◌then◌else◌, ◌==◌}
use instructional_agent_mvp.Prelude.Table.{find, update, insert, All}
use instructional_agent_mvp.Prelude.Rows.{find-insert, find-update}

module _ {ℓ} {A : Type ℓ} (key : A → ℕ) where
  -- The row with a key.
  abbrev pub row : ℕ → List A → Option A
  row i = find (λ r. key r == i)

  -- No two rows share a key.
  abbrev pub Unique : List A → Type ℓ
  Unique [] = Unit
  Unique (r ∷ rows) = (row (key r) rows ≡ none) × Unique rows

  pub update-none :
      (p : A → Bool) (f : A → A) (rows : List A) → find p rows ≡ none → update p f rows ≡ rows
  update-none p f [] h = refl
  update-none p f (r ∷ rows) h = ground (arith, update-none p f rows)

  -- A key above all others is free.
  pub row-fresh : (i : ℕ) (rows : List A) → All (λ r. key r < i) rows → row i rows ≡ none
  row-fresh i [] h = refl
  row-fresh i (r ∷ rows) h = ground (arith, row-fresh i rows h.1)

  pub insert-Unique :
      (n : A) (rows : List A) → Unique rows → row (key n) rows ≡ none → Unique (insert n rows)
  insert-Unique n [] u h = (refl, tt)
  insert-Unique n (r ∷ rows) u h = (
    ground (arith, u.0, find-insert (λ x. key x == key r) n rows),
    insert-Unique n rows u.1 (ground arith),
  )

  pub update-Unique :
      (p : A → Bool) (f : A → A) (rows : List A)
      → ((r : A) → key (f r) ≡ key r)
      → Unique rows
      → Unique (update p f rows)
  update-Unique p f [] same u = tt
  update-Unique p f (r ∷ rows) same u = (
    ground (
      arith,
      u.0,
      same r,
      find-update (λ x. key x == key r) p f rows (λ x. ground (arith, same x)),
    ),
    update-Unique p f rows same u.1,
  )

  -- A condition on the key and on the row is the condition on the row with the key.
  pub find-row :
      (i : ℕ) (q : A → Bool) (rows : List A)
      → Unique rows
      → find (λ r. key r == i && q r) rows
        ≡ elim (row i rows) [ none ↦ none | some r ↦ if q r then some r else none ]
  find-row i q [] u = refl
  find-row i q (r ∷ rows) u = ground (arith, find-row i q rows u.1)

  pub find-row-some :
      (i : ℕ) (q : A → Bool) (rows : List A) (r : A)
      → Unique rows
      → find (λ x. key x == i && q x) rows ≡ some r
      → (row i rows ≡ some r) × (q r ≡ true)
  find-row-some i q rows r u h = ground (arith, find-row i q rows u)

  -- Such an UPDATE writes the row that fits, and no row with another key.
  pub row-update_self :
      (i : ℕ) (q : A → Bool) (f : A → A) (rows : List A) (r : A)
      → ((x : A) → key (f x) ≡ key x)
      → row i rows ≡ some r
      → q r ≡ true
      → row i (update (λ x. key x == i && q x) f rows) ≡ some (f r)
  row-update_self i q f [] r same h e = ground arith
  row-update_self i q f (x ∷ rows) r same h e =
      ground (arith, same x, row-update_self i q f rows r same)

  pub row-update_ne :
      (i j : ℕ) (q : A → Bool) (f : A → A) (rows : List A)
      → ((x : A) → key (f x) ≡ key x)
      → i ≢ j
      → row j (update (λ x. key x == i && q x) f rows) ≡ row j rows
  row-update_ne i j q f [] same h = refl
  row-update_ne i j q f (x ∷ rows) same h =
      ground (arith, same x, row-update_ne i j q f rows same h)
