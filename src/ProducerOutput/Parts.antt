-- ===== src/ProducerOutput/Parts.antt =====
-- What the tests of `validate_structural` read: sets of keys, texts, lists of texts and objects.
use instructional_agent_mvp.Prelude.{
  ◌≡◌, refl, String, true, false, Option, none, some, inl, inr, List, [], ◌∷◌, arith, text_eq_iff,
  text_eq_refl, All, Option-cases,
}
use instructional_agent_mvp.Schema.{
  contains, Json, null, text, array, object, Items, nil, cons, Fields,
}
use instructional_agent_mvp.ProducerOutput.{
  is_blank, without, is_empty, text_items, equals_text, equals_type, texts_of, list_of_texts,
  filled_text, is_object, text_or_none,
}

module _ (m : List String) where
  pub contains-without :
      (l : List String) (k : String)
      → is_empty (without l m) ≡ true
      → contains l k ≡ true
      → contains m k ≡ true
  contains-without [] k e h = absurd (ground arith)
  contains-without (x ∷ l) k e h = ground (arith, contains-without l k, text_eq_iff x k)

  -- A set difference is empty if every member of the one is a member of the other.
  pub without-empty :
      (l : List String)
      → ((k : String) → contains l k ≡ true → contains m k ≡ true)
      → is_empty (without l m) ≡ true
  without-empty [] h = refl
  without-empty (x ∷ l) h =
      ground (arith, text_eq_refl x, h x, without-empty l (λ k e. h k (ground arith)))

  pub without-All :
      (l : List String) → is_empty (without l m) ≡ true → All (λ r. contains m r ≡ true) l
  without-All [] e = tt
  without-All (x ∷ l) e = (ground arith, without-All l (ground arith))

  pub All-without :
      (l : List String) → All (λ r. contains m r ≡ true) l → is_empty (without l m) ≡ true
  All-without [] a = refl
  All-without (x ∷ l) a = ground (arith, a.0, All-without l a.1)

-- Reading a list of texts.
pub texts_of-text_items : (l : List String) → texts_of (text_items l) ≡ some l
texts_of-text_items [] = refl
texts_of-text_items (t ∷ l) = rw (texts_of-text_items l) refl

pub texts_of-some : (i : Items) (l : List String) → texts_of i ≡ some l → i ≡ text_items l
texts_of-some nil l e = ground arith
texts_of-some (cons (text t) rest) l e = elim (Option-cases (texts_of rest)) [
  | inl e' ↦ absurd (ground arith)
  | inr (l', e') ↦ ground (arith, texts_of-some rest l' e')
]
texts_of-some (cons _ rest) l e = absurd (ground arith)

pub equals_text-some : (v : Option Json) (t : String) → equals_text v t ≡ true → v ≡ some (text t)
equals_text-some (some (text s)) t e = ground (arith, text_eq_iff s t)
equals_text-some _ t e = absurd (ground arith)

pub equals_type-some :
    (v : Option Json) (t : Option String) → equals_type v t ≡ true → v ≡ some (text_or_none t)
equals_type-some (some null) none e = refl
equals_type-some v (some t) e = equals_text-some v t e
equals_type-some _ none e = absurd (ground arith)

pub equals_type_self : (t : Option String) → equals_type (some (text_or_none t)) t ≡ true
equals_type_self none = refl
equals_type_self (some t) = text_eq_refl t

pub filled_text-some :
    (v : Option Json) (t : String)
    → filled_text v ≡ some t
    → (v ≡ some (text t)) × (is_blank t ≡ false)
filled_text-some (some (text s)) t e = ground arith
filled_text-some _ t e = absurd (ground arith)

pub list_of_texts-some :
    (v : Option Json) (l : List String) → list_of_texts v ≡ some l → v ≡ some (array (text_items l))
list_of_texts-some (some (array i)) l e = ground (arith, texts_of-some i l e)
list_of_texts-some _ l e = absurd (ground arith)

pub is_object-some : (v : Option Json) → is_object v ≡ true → (m : Fields) × (v ≡ some (object m))
is_object-some (some (object m)) e = (m, refl)
is_object-some _ e = absurd (ground arith)
