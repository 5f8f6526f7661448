-- ===== src/Sorting.antt =====
-- Python's order on `str`, by code points, on tuples of them, and `sorted(..., key=...)`, which is
-- stable. src/persistence/repositories/context_engine.py sorts by them before it hashes.
pub mod Laws
use Prim.Native.Nat.{compare, Ordering}
use Prim.Native.Char.{code}
use Prim.Native.String.{String}
use mathlib.Core.Bool.{Bool, true, false}
use mathlib.Core.List.{List, [], ◌∷◌}
use instructional_agent_mvp.Prelude.{if◌then◌else◌}

-- `s <= t`.
abbrev pub text_le : String → String → Bool
text_le String.[] t = true
text_le (String.◌∷◌ c s) String.[] = false
text_le (String.◌∷◌ c s) (String.◌∷◌ d t) = elim (compare (code c) (code d)) [
  | Ordering.lt ↦ true
  | Ordering.eq ↦ text_le s t
  | Ordering.gt ↦ false
]

module _ {ℓ κ} {A : Type ℓ} {K : Type κ} (le : K → K → Bool) (key : A → K) where
  -- Before the first entry that is not smaller.
  unfoldable pub put : A → List A → List A
  put x [] = x ∷ []
  put x (y ∷ l) = if le (key x) (key y) then x ∷ y ∷ l else y ∷ put x l

  unfoldable pub sorted : List A → List A
  unfolding put
  sorted [] = []
  sorted (x ∷ l) = put x (sorted l)

-- The order on tuples: by the first part, and by the second one where the first parts are equal.
abbrev pub lex {ℓ κ} :
    {A : Type ℓ} {B : Type κ} → (A → A → Bool) → (B → B → Bool) → A × B → A × B → Bool
lex le le' (a, b) (a', b') = if le a a' then (if le a' a then le' b b' else true) else false
