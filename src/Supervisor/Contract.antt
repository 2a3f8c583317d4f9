-- ===== src/Supervisor/Contract.antt =====
-- agents/supervisors/provisioning/graph/graph.py and prompts/system.py: the fences around the texts
-- that go to a worker, and the payload that comes back, checked before anything is done with it.
use agentic_netops.Json.{Fields, Json, obj}
use agentic_netops.Prelude.{
  List, Option, String, [], false, has_text, if◌then◌else◌, inl, inr, none, some, str_eq, ◌∷◌, ◌⊎◌,
}
use agentic_netops.Prelude.Regex.{format, join}
use agentic_netops.Prelude.Text.{strip}
use agentic_netops.Supervisor.{Outside, Part, data_part, text_part}
use agentic_netops.Intent.{Cause, ServiceIntent}
use agentic_netops.Intent.Validate.{validate_all_or_nothing}
use agentic_netops.Interpretation.{Interpretation, value}

-- `DATA_BLOCK_OPEN.format(...)`, the text and `DATA_BLOCK_CLOSE.format(...)`
fence : String → String → String → String
unfolding format
fence kind text nonce = format (
    "<<<DATA " ∷ kind ∷ " nonce=" ∷ nonce ∷ " >>>\n" ∷ text ∷ "\n<<<END_DATA " ∷ kind ∷ " nonce="
    ∷ nonce ∷ " >>>" ∷ [])

-- `wrap_user_text`
unfoldable pub wrap_user_text : String → String → String
unfolding fence
wrap_user_text text nonce = fence "user_text" text nonce

-- `wrap_worker_text`
unfoldable pub wrap_worker_text : String → String → String
unfolding fence
wrap_worker_text text nonce = fence "worker_text" text nonce

texts_of : List Part → List String
texts_of [] = []
texts_of (data_part d ∷ ps) = texts_of ps
texts_of (text_part t ∷ ps) = t ∷ texts_of ps

unfoldable pub first_data : List Part → Option Fields
first_data [] = none
first_data (data_part d ∷ ps) = some d
first_data (text_part t ∷ ps) = first_data ps

object_of : Option Json → Option Fields
object_of (some (obj fs)) = some fs
object_of _ = none

module _ (out : Outside) where
  pub marked : Option String → Option Fields
  unfolding object_of strip
  marked none = none
  marked (some json_text) = object_of (out.loads (strip json_text))

  -- The payload of the marker comment in a text.
  marker_payload : String → String → Option Fields
  unfolding marked format
  marker_payload marker text =
      marked (out.regex.group (format ("<!--\\s*" ∷ marker ∷ "\\s*:\\s*(.*?)-->" ∷ [])) text)

  -- `extract_payload_and_text`: a data part is the payload, and without one the marker's object is.
  unfoldable pub extract_payload_and_text : String → List Part → Option Fields × String
  unfolding first_data texts_of marker_payload join
  extract_payload_and_text marker ps =
      let text = join "\n" (texts_of ps) in
      elim (first_data ps) [ some d ↦ (some d, text) | none ↦ (marker_payload marker text, text) ]

  -- `validate_mapper_payload`
  unfoldable pub validate_mapper_payload : Option Fields → String ⊎ Interpretation
  validate_mapper_payload none =
      inl "no structured payload found (neither a DataPart nor a well-formed MAPPED_JSON marker)"
  validate_mapper_payload (some payload) = out.validate_interpretation (obj payload)

  unfoldable pub matched : Interpretation → ServiceIntent → String ⊎ ServiceIntent
  unfolding value format
  matched interpretation intent =
      if str_eq intent.type (value interpretation.service_type)
      then inr intent
      else inl (
          format (
            "type mismatch between stages: interpretation service_type="
            ∷ value interpretation.service_type
            ∷ ", allocator returned type='"
            ∷ intent.type
            ∷ "' (data-model.md §3 contract violation)"
            ∷ []))

  unfoldable pub whole_intent :
      Interpretation → ServiceIntent → Option (List Cause) → String ⊎ ServiceIntent
  unfolding matched
  whole_intent interpretation intent (some causes) = inl (out.cause_text causes)
  whole_intent interpretation intent none = matched interpretation intent

  unfoldable pub checked_intent : Interpretation → String ⊎ ServiceIntent → String ⊎ ServiceIntent
  unfolding whole_intent validate_all_or_nothing
  checked_intent interpretation (inl error) = inl error
  checked_intent interpretation (inr intent) =
      whole_intent interpretation intent (validate_all_or_nothing out.surroundings false intent)

  -- `validate_allocator_payload`
  unfoldable pub validate_allocator_payload :
      Option Fields → Interpretation → String ⊎ ServiceIntent
  unfolding checked_intent
  validate_allocator_payload none interpretation =
      inl
        "no structured payload found (neither a DataPart nor a well-formed DEPLOYMENT_JSON marker)"
  validate_allocator_payload (some payload) interpretation =
      checked_intent interpretation (out.validate_intent (obj payload))

  -- `redact_model_response(worker_text.split("<!--")[0].strip()) or default`
  unfoldable pub summary_or : String → String → String
  unfolding strip
  summary_or default worker_text =
      let summary = out.redact_model_response (strip (out.before_comment worker_text)) in
      if has_text summary then summary else default
