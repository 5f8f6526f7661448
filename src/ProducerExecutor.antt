-- ===== src/ProducerExecutor.antt =====
-- src/persistence/repositories/producer_executor.py: the contract with a producer, the references
-- that a package allows, the scripted adapter, and how an answer of the provider's client is read.
pub mod Allowed
mod Tests
use Prim.Native.String.{◌++◌ as cat}
use instructional_agent_mvp.Prelude.{
  ℕ, zero, suc, ◌-◌, String, Bool, Option, none, some, List, [], ◌∷◌, ◌==◌, ltb, length, insert,
  text_eq, if◌then◌else◌,
}
use instructional_agent_mvp.Schema.{
  Uuid, Json, null, bool, num, text, array, object, Items, nil, cons, Fields, end, get_field,
}
use instructional_agent_mvp.Session.{
  Result, ok, raised, key_error, type_error, attribute_error, index_error,
}

pub record ExecutionContract : Type 0 where
  pub execution_contract_version : String
  pub role : String
  pub task_type : String
  pub context_package_id : Uuid
  pub context_package_hash : String
  pub provider : String
  pub model_identifier : String
  pub instructions_version : String
  pub output_schema_version : String
  pub provider_timeout_seconds : ℕ
  pub expected_object_type : Option String

pub record ProducerExecutionResult {ℓ} (R : Type ℓ) : Type ℓ where
  pub raw_response : Option R
  pub parsed_output : Option Fields
  pub technical_error : Option String

-- What follows a value of an entry of the set.
abbrev pub add_id : Option Json → Result (List String) → Result (List String)
add_id none rest = raised key_error
add_id (some (array items)) rest = raised type_error
add_id (some (object fields)) rest = raised type_error
add_id (some (text id)) (ok l) = ok (id ∷ l)
add_id v rest = rest

-- `o.get("object_type") == "LEARNING_OUTCOME"`.
abbrev pub is_outcome : Option Json → Bool
is_outcome (some (text t)) = text_eq t "LEARNING_OUTCOME"
is_outcome v = Bool.false

-- The texts in the set: an entry of another type is equal to no reference. The exceptions are
-- those of an entry that is no dict, has no identifier, or has one that cannot be hashed.
abbrev pub outcome_ids : Items → Result (List String)
outcome_ids nil = ok []
outcome_ids (cons (object o) rest) =
    if is_outcome (get_field "object_type" o)
    then add_id (get_field "object_id" o) (outcome_ids rest)
    else outcome_ids rest
outcome_ids (cons v rest) = raised attribute_error

-- The argument is read from a JSONB column: a value that is no list is iterated as Python does.
unfoldable pub compute_allowed_learning_outcome_ids : Json → Result (List String)
compute_allowed_learning_outcome_ids (array approved_objects) = outcome_ids approved_objects
compute_allowed_learning_outcome_ids (object end) = ok []
compute_allowed_learning_outcome_ids (object fields) = raised attribute_error
compute_allowed_learning_outcome_ids (text t) =
    if text_eq t "" then ok [] else raised attribute_error
compute_allowed_learning_outcome_ids v = raised type_error

-- A scripted response: an exception, by its `str`, or what is answered, or called for.
pub data Script : Type 0 where
  failure : String → Script
  response : Option Fields → Script

pub record FakeProducerAdapter : Type 0 where
  pub responses : List Script
  pub call_count : ℕ
  pub received_execution_contracts : List ExecutionContract
  pub received_context_packages : List Json

abbrev pub unparseable {ℓ} : {R : Type ℓ} → Option R → ProducerExecutionResult R
unparseable raw = record {
  raw_response = raw;
  parsed_output = none;
  technical_error = some "respuesta no parseable";
}

abbrev pub answered {ℓ} : {R : Type ℓ} → R → Fields → ProducerExecutionResult R
answered raw output = record {
  raw_response = some raw;
  parsed_output = some output;
  technical_error = none;
}

abbrev pub play : Script → ProducerExecutionResult Fields
play (failure message) = record {
  raw_response = none;
  parsed_output = none;
  technical_error = some message;
}
play (response none) = unparseable none
play (response (some fields)) = answered fields fields

-- `self._responses[min(count, len - 1)]`: the last one again once they have run out.
unfoldable pub scripted : ℕ → List Script → Result Script
scripted n [] = raised index_error
scripted n (s ∷ []) = ok s
scripted zero (s ∷ t ∷ rest) = ok s
scripted (suc n) (s ∷ t ∷ rest) = scripted n (t ∷ rest)

abbrev pub received : ExecutionContract → Json → FakeProducerAdapter → FakeProducerAdapter
received contract payload a = record a {
  received_execution_contracts = insert contract a.received_execution_contracts;
  received_context_packages = insert payload a.received_context_packages;
}

-- `FakeProducerAdapter.execute`. It may sleep, which changes nothing.
unfoldable pub fake_execute :
    ExecutionContract
    → Json
    → FakeProducerAdapter
    → Result (ProducerExecutionResult Fields) × FakeProducerAdapter
fake_execute contract payload a =
    let a' = received contract payload a in
    elim (scripted a.call_count a.responses) [
      | raised e ↦ (raised e, a')
      | ok s ↦ (ok (play s), record a' { call_count = suc a.call_count })
    ]

-- A response of the provider's client, as far as it is read: the texts of its blocks, if it has
-- blocks at all.
pub record Response : Type 0 where
  pub content : Option (List (Option String))

-- The texts that are neither None nor empty.
abbrev pub parts : List (Option String) → List String
parts [] = []
parts (none ∷ rest) = parts rest
parts (some t ∷ rest) = if text_eq t "" then parts rest else t ∷ parts rest

abbrev pub concat : List String → String
concat [] = ""
concat (t ∷ rest) = cat t (concat rest)

abbrev text_of : List String → Option String
text_of [] = none
text_of (t ∷ rest) = some (concat (t ∷ rest))

unfoldable pub extract_response_text : Response → Option String
extract_response_text r = elim r.content [ none ↦ none | some blocks ↦ text_of (parts blocks) ]

-- `json.loads` is a parameter, whose `none` is a ValueError.
unfoldable pub extract_structured_output : (String → Option Json) → Response → Option Fields
extract_structured_output loads r = elim (extract_response_text r) [
  | none ↦ none
  | some t ↦ elim (loads t) [ some (object fields) ↦ some fields | _ ↦ none ]
]

-- What `client.messages.create` does: it raises, with a `str`, or responds.
pub data Call : Type 0 where
  failed_call : String → Call
  responded : Response → Call

-- `AnthropicProducerAdapter.execute`, after the prompt has been sent.
unfoldable pub read_call : (String → Option Json) → Call → ProducerExecutionResult Response
read_call loads (failed_call message) = record {
  raw_response = none;
  parsed_output = none;
  technical_error = some message;
}
read_call loads (responded r) = elim (extract_structured_output loads r) [
  | none ↦ unparseable (some r)
  | some fields ↦ answered r fields
]
