-- ===== src/ProducerOutput.antt =====
-- src/persistence/repositories/producer_output_schema.py
pub mod Parts
pub mod Valid
mod Tests
use Prim.Native.Char.{Char, code}
use Prim.Native.String.{◌++◌ as cat}
use instructional_agent_mvp.Prelude.{
  ℕ, suc, String, Bool, true, false, ◌&&◌, ◌||◌, not, Option, none, some, List, [], ◌∷◌, leb, ltb,
  ◌==◌, text_eq, select, map, if◌then◌else◌,
}
use instructional_agent_mvp.Schema.{
  contains, Json, null, text, array, object, Items, nil, cons, Fields, end, field, get_field,
}
use instructional_agent_mvp.Sorting.{text_le, sorted}

abbrev pub producer_output_schema_version : String
producer_output_schema_version = "producer-output-v1"

abbrev pub required_fields : List String
required_fields =
    "schema_version" ∷ "object_type" ∷ "title" ∷ "body" ∷ "learning_outcome_refs" ∷ "metadata" ∷ []

abbrev pub max_title_length : ℕ
max_title_length = 300

pub record StructuralValidationResult : Type 0 where
  pub is_valid : Bool
  pub reason : Option String

abbrev pub valid : StructuralValidationResult
valid = record { is_valid = true; reason = none }

abbrev pub invalid : String → StructuralValidationResult
invalid reason = record { is_valid = false; reason = some reason }

-- The characters that `str.strip()` takes off.
abbrev pub is_space : Char → Bool
is_space c =
    let n = code c in
    (leb 9 n && leb n 13)
    || (leb 28 n && leb n 32)
    || n == 133
    || n == 160
    || n == 5760
    || (leb 8192 n && leb n 8202)
    || n == 8232
    || n == 8233
    || n == 8239
    || n == 8287
    || n == 12288

-- `not s.strip()`.
unfoldable pub is_blank : String → Bool
is_blank String.[] = true
is_blank (String.◌∷◌ c s) = is_space c && is_blank s

-- `len(s)`.
unfoldable pub len : String → ℕ
len String.[] = 0
len (String.◌∷◌ c s) = suc (len s)

abbrev pub keys : Fields → List String
keys end = []
keys (field k v rest) = k ∷ keys rest

-- `set - set`, and `sorted` of it.
abbrev pub without : List String → List String → List String
without l m = select (λ k. not (contains m k)) l

abbrev pub is_empty : List String → Bool
is_empty [] = true
is_empty (k ∷ rest) = false

abbrev pub text_items : List String → Items
text_items [] = nil
text_items (t ∷ rest) = cons (text t) (text_items rest)

-- `value == text`, on a value of any type.
abbrev pub equals_text : Option Json → String → Bool
equals_text (some (text s)) t = text_eq s t
equals_text _ t = false

-- A text or None, as JSON.
abbrev pub text_or_none : Option String → Json
text_or_none none = null
text_or_none (some t) = text t

-- `value == expected`, where what is expected is a text or None.
abbrev pub equals_type : Option Json → Option String → Bool
equals_type (some null) none = true
equals_type v none = false
equals_type v (some t) = equals_text v t

-- The texts of a list, if it holds nothing else.
abbrev pub texts_of : Items → Option (List String)
texts_of nil = some []
texts_of (cons (text t) rest) = elim (texts_of rest) [ none ↦ none | some l ↦ some (t ∷ l) ]
texts_of (cons _ rest) = none

-- A list of texts, or None for a value of another type.
abbrev pub list_of_texts : Option Json → Option (List String)
list_of_texts (some (array items)) = texts_of items
list_of_texts _ = none

abbrev pub is_object : Option Json → Bool
is_object (some (object fields)) = true
is_object _ = false

-- A text that is not blank, or None.
abbrev pub filled_text : Option Json → Option String
filled_text (some (text t)) = if is_blank t then none else some t
filled_text _ = none

-- `repr` is that of Python, on the values that the messages show.
module _ (repr : Json → String) where
  abbrev repr_list : List String → String
  repr_list l = repr (array (text_items l))

  abbrev repr_value : Option Json → String
  repr_value none = ""
  repr_value (some v) = repr v

  abbrev pub check_metadata : Fields → StructuralValidationResult
  check_metadata fields =
      if is_object (get_field "metadata" fields) then valid else invalid "metadata no es un objeto"

  abbrev pub check_allowed : Fields → List String → List String → StructuralValidationResult
  check_allowed fields allowed refs =
      let invalid_refs = without refs allowed in
      if is_empty invalid_refs
      then check_metadata fields
      else invalid (
          cat "learning_outcome_refs referencia objetos fuera del ContextPackage: "
            (repr_list invalid_refs))

  abbrev pub check_refs : Fields → List String → StructuralValidationResult
  check_refs fields allowed = elim (list_of_texts (get_field "learning_outcome_refs" fields)) [
    | none ↦ invalid "learning_outcome_refs no es una lista de strings"
    | some refs ↦ check_allowed fields allowed refs
  ]

  abbrev pub check_body : Fields → List String → StructuralValidationResult
  check_body fields allowed = elim (filled_text (get_field "body" fields)) [
    | none ↦ invalid "body vacio o de tipo incorrecto"
    | some body ↦ check_refs fields allowed
  ]

  abbrev pub check_title : Fields → List String → StructuralValidationResult
  check_title fields allowed = elim (filled_text (get_field "title" fields)) [
    | none ↦ invalid "title vacio o de tipo incorrecto"
    | some title ↦
        if ltb max_title_length (len title)
        then invalid "title excede la longitud maxima permitida"
        else check_body fields allowed
  ]

  abbrev pub check_object_type : Fields → Option String → List String → StructuralValidationResult
  check_object_type fields expected allowed =
      let value = get_field "object_type" fields in
      if equals_type value expected
      then check_title fields allowed
      else invalid (
          cat "object_type no coincide con InstructionalObject.object_type ya declarado: esperado "
            (cat (repr (text_or_none expected)) (cat ", recibido " (repr_value value))))

  abbrev pub check_schema_version :
      Fields → Option String → List String → StructuralValidationResult
  check_schema_version fields expected allowed =
      let value = get_field "schema_version" fields in
      if equals_text value producer_output_schema_version
      then check_object_type fields expected allowed
      else invalid (
          cat "schema_version no coincide: esperado " (
            cat (repr (text producer_output_schema_version))
              (cat ", recibido " (repr_value value))))

  abbrev pub check_keys : Fields → Option String → List String → StructuralValidationResult
  check_keys fields expected allowed =
      let extra_keys = without (keys fields) required_fields in
      let missing_keys = without required_fields (keys fields) in
      if not (is_empty extra_keys)
      then invalid (
          cat "campos no declarados en el schema: "
            (repr_list (sorted text_le (λ (k : String). k) extra_keys)))
      else if not (is_empty missing_keys)
      then invalid (
          cat "campos requeridos ausentes: "
            (repr_list (sorted text_le (λ (k : String). k) missing_keys)))
      else check_schema_version fields expected allowed

  unfoldable pub validate_structural :
      Json → Option String → List String → StructuralValidationResult
  validate_structural (object fields) expected allowed = check_keys fields expected allowed
  validate_structural _ expected allowed = invalid "output no es un objeto JSON"
