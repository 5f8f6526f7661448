-- ===== src/Sorting/Laws.antt =====
-- `sorted` does not depend on the order of entries whose keys differ.
use Prim.Native.String.{String}
use text.Mathlib.TextEquality.{Char-path}
use instructional_agent_mvp.Prelude.{
  ◌≡◌, ◌≢◌, refl, ap, ◌∙◌, Bool, true, ◌⊎◌, inl, inr, List, [], ◌∷◌, arith,
}
use instructional_agent_mvp.Sorting.{text_le, put, sorted, lex}

-- A total order by a Boolean test.
pub record IsOrder {κ} {K : Type κ} (le : K → K → Bool) : Type κ where
  pub total : (a b : K) → (le a b ≡ true) ⊎ (le b a ≡ true)
  pub trans : (a b c : K) → le a b ≡ true → le b c ≡ true → le a c ≡ true
  pub antisym : (a b : K) → le a b ≡ true → le b a ≡ true → a ≡ b

-- The entries of one list in another order, in which those with one key keep theirs.
pub data Reordered {ℓ κ} {A : Type ℓ} {K : Type κ} (key : A → K)
    : List A → List A → Type (ℓ ⊔ κ) where
  same : (l : List A) → Reordered key l l
  keep : (x : A) (l m : List A) → Reordered key l m → Reordered key (x ∷ l) (x ∷ m)
  swap : (x y : A) (l : List A) → key x ≢ key y → Reordered key (x ∷ y ∷ l) (y ∷ x ∷ l)
  next : (l m n : List A) → Reordered key l m → Reordered key m n → Reordered key l n

module _ {ℓ κ} {A : Type ℓ} {K : Type κ} (le : K → K → Bool) (key : A → K) (o : IsOrder le) where
  put_comm :
      (x y : A) (l : List A)
      → key x ≢ key y
      → put le key x (put le key y l) ≡ put le key y (put le key x l)
  unfolding put
  put_comm x y [] h = ground (arith, o.total (key x) (key y), o.antisym (key x) (key y))
  put_comm x y (z ∷ l) h = ground (
    arith,
    put_comm x y l h,
    o.total (key x) (key y),
    o.antisym (key x) (key y),
    o.trans (key x) (key y) (key z),
    o.trans (key y) (key x) (key z),
    o.trans (key x) (key z) (key y),
    o.trans (key y) (key z) (key x),
    o.total (key x) (key z),
    o.total (key y) (key z),
  )

  pub sorted-Reordered : (l m : List A) → Reordered key l m → sorted le key l ≡ sorted le key m
  unfolding sorted
  sorted-Reordered _ _ (Reordered.same l) = refl
  sorted-Reordered _ _ (Reordered.keep x l m r) = ap (put le key x) (sorted-Reordered l m r)
  sorted-Reordered _ _ (Reordered.swap x y l h) = put_comm x y (sorted le key l) h
  sorted-Reordered _ _ (Reordered.next l m n r s) = sorted-Reordered l m r ∙ sorted-Reordered m n s

text_le_total : (s t : String) → (text_le s t ≡ true) ⊎ (text_le t s ≡ true)
text_le_total String.[] t = inl refl
text_le_total (String.◌∷◌ c s) String.[] = inr refl
text_le_total (String.◌∷◌ c s) (String.◌∷◌ d t) = ground (arith, text_le_total s t)

text_le_trans : (s t u : String) → text_le s t ≡ true → text_le t u ≡ true → text_le s u ≡ true
text_le_trans String.[] t u h k = refl
text_le_trans (String.◌∷◌ c s) String.[] u h k = cc
text_le_trans (String.◌∷◌ c s) (String.◌∷◌ d t) String.[] h k = cc
text_le_trans (String.◌∷◌ c s) (String.◌∷◌ d t) (String.◌∷◌ e u) h k =
    ground (arith, text_le_trans s t u)

text_le_antisym : (s t : String) → text_le s t ≡ true → text_le t s ≡ true → s ≡ t
text_le_antisym String.[] String.[] h k = refl
text_le_antisym String.[] (String.◌∷◌ d t) h k = cc
text_le_antisym (String.◌∷◌ c s) String.[] h k = cc
text_le_antisym (String.◌∷◌ c s) (String.◌∷◌ d t) h k = λ i.
    String.◌∷◌ (Char-path c d (ground arith) i)
      (text_le_antisym s t (ground arith) (ground arith) i)

pub text_le-IsOrder : IsOrder text_le
text_le-IsOrder = record { total = text_le_total; trans = text_le_trans; antisym = text_le_antisym }

pub lex-IsOrder {ℓ κ} :
    {A : Type ℓ} {B : Type κ} (le : A → A → Bool) (le' : B → B → Bool)
    → IsOrder le
    → IsOrder le'
    → IsOrder (lex le le')
lex-IsOrder le le' o o' = record {
  total = λ (a, b) (a', b'). ground (arith, o.total a a', o'.total b b');
  trans = λ (a, b) (a', b') (a'', b''). λ h k.
      ground (arith, o.trans a a' a'', o.trans a'' a a', o.trans a' a'' a, o'.trans b b' b'');
  antisym = λ (a, b) (a', b'). λ h k. ground (arith, o.antisym a a', o'.antisym b b');
}
