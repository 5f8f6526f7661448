-- ===== src/Prelude/Rows.antt =====
-- What a query reads after a statement has written.
use Prim.Native.Nat.{suc, ◌+◌, ◌≤◌}
use mathlib.Core.Path.{◌≡◌, refl, ap}
use mathlib.Core.Bool.{Bool, true, not}
use mathlib.Core.Option.{Option, none, some}
use mathlib.Core.Option
use mathlib.Core.List.{List, [], ◌∷◌}
use native.Mathlib.Omega.{arith}
use instructional_agent_mvp.Prelude.Tests.{is_none, if◌then◌else◌}
use instructional_agent_mvp.Prelude.Table.{find, select, exists, update, insert, length, count, All}

module _ {ℓ} {A : Type ℓ} where
  -- A row that is looked up by columns which the write leaves alone is found as written.
  pub find-update :
      (k p : A → Bool) (f : A → A) (rows : List A)
      → ((r : A) → k (f r) ≡ k r)
      → find k (update p f rows) ≡ Option.map (λ r. if p r then f r else r) (find k rows)
  find-update k p f [] same = refl
  find-update k p f (r ∷ rows) same = ground (arith, same r, find-update k p f rows same)

  -- The rows selected by such columns are those selected before, each as written.
  pub select-update :
      (k p : A → Bool) (f : A → A) (rows : List A)
      → ((r : A) → k (f r) ≡ k r)
      → select k (update p f rows) ≡ update p f (select k rows)
  select-update k p f [] same = refl
  select-update k p f (r ∷ rows) same = ground (arith, same r, select-update k p f rows same)

  pub find-insert :
      (k : A → Bool) (n : A) (rows : List A)
      → find k (insert n rows)
        ≡ elim (find k rows) [ some r ↦ some r | none ↦ if k n then some n else none ]
  find-insert k n [] = refl
  find-insert k n (r ∷ rows) = ground (arith, find-insert k n rows)

  pub select-insert :
      (k : A → Bool) (n : A) (rows : List A)
      → select k (insert n rows) ≡ (if k n then insert n (select k rows) else select k rows)
  select-insert k n [] = refl
  select-insert k n (r ∷ rows) = ground (arith, select-insert k n rows)

  pub find-fits : (k : A → Bool) (rows : List A) (r : A) → find k rows ≡ some r → k r ≡ true
  find-fits k [] r h = ground arith
  find-fits k (x ∷ rows) r h = ground (arith, find-fits k rows r)

  pub exists-find : (k : A → Bool) (rows : List A) → exists k rows ≡ not (is_none (find k rows))
  exists-find k [] = refl
  exists-find k (r ∷ rows) = ground (arith, exists-find k rows)

  pub length-insert : (n : A) (rows : List A) → length (insert n rows) ≡ suc (length rows)
  length-insert n [] = refl
  length-insert n (r ∷ rows) = ap suc (length-insert n rows)

  pub length-update :
      (p : A → Bool) (f : A → A) (rows : List A) → length (update p f rows) ≡ length rows
  length-update p f [] = refl
  length-update p f (r ∷ rows) = ap suc (length-update p f rows)

  pub count-insert :
      (k : A → Bool) (n : A) (rows : List A)
      → count k (insert n rows) ≡ count k rows + (if k n then 1 else 0)
  count-insert k n [] = ground arith
  count-insert k n (r ∷ rows) = ground (arith, count-insert k n rows)

  -- A write that changes no row that fits leaves the count alone.
  pub count-update :
      (k p : A → Bool) (f : A → A) (rows : List A)
      → ((r : A) → k (f r) ≡ k r)
      → count k (update p f rows) ≡ count k rows
  count-update k p f [] same = refl
  count-update k p f (r ∷ rows) same = ground (arith, same r, count-update k p f rows same)

  pub count-le-length : (k : A → Bool) (rows : List A) → count k rows ≤ length rows
  count-le-length k [] = omega arith
  count-le-length k (r ∷ rows) = ground (arith, count-le-length k rows)

module _ {ℓ κ} {A : Type ℓ} (P : A → Type κ) where
  pub All-insert : (n : A) (rows : List A) → All P rows → P n → All P (insert n rows)
  All-insert n [] h p = (p, tt)
  All-insert n (r ∷ rows) h p = (h.0, All-insert n rows h.1 p)

  pub All-update :
      (p : A → Bool) (f : A → A) (rows : List A)
      → ((r : A) → P r → P (if p r then f r else r))
      → All P rows
      → All P (update p f rows)
  All-update p f [] step h = tt
  All-update p f (r ∷ rows) step h = (step r h.0, All-update p f rows step h.1)

  pub All-find : (k : A → Bool) (rows : List A) (r : A) → All P rows → find k rows ≡ some r → P r
  All-find k [] r h e = ground arith
  All-find k (x ∷ rows) r h e = ground (arith, All-find k rows r h.1)

pub All-map {ℓ κ μ} :
    {A : Type ℓ} (P : A → Type κ) (Q : A → Type μ) (rows : List A)
    → ((r : A) → P r → Q r)
    → All P rows
    → All Q rows
All-map P Q [] f h = tt
All-map P Q (r ∷ rows) f h = (f r h.0, All-map P Q rows f h.1)
