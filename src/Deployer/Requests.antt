-- ===== src/Deployer/Requests.antt =====
-- agents/provisioning/deployer/submit.py: `parse_deployment_envelope`. The fence around a worker's
-- text, the JSON parser and the digest of a bare intent are outside.
use agentic_netops.Deployer.{
  Context, Reason, TransactionError, context_missing, context_not_object, intent_not_object,
  plain_error, request_validation,
}
use agentic_netops.Deployer.Manifest.{validate_context}
use agentic_netops.Deployer.Transaction.{Envelope}
use agentic_netops.Json.{Fields, Json, Python, get, has_key, obj, text_or}
use agentic_netops.Prelude.{
  Bool, List, Option, String, [], append, has_text, if◌then◌else◌, none, refl, some, str_eq, true,
  ◌&&◌, ◌||◌, ◌∷◌, ◌≡◌,
}
use agentic_netops.Prelude.Text.{lower, strip}

pub record Parsing : Type 0 where
  -- The text inside the nonce fence, or the text itself if it has none.
  pub unfenced : String → String
  -- `json.loads`; `none` if it raises.
  pub loads : String → Option Json
  -- The first 32 characters of the SHA-256 digest of an intent's canonical JSON.
  pub digest32 : Fields → String

-- What a text is: no submission at all, a malformed one, or a submission.
pub data Parsed : Type 0 where
  no_submission : Parsed
  malformed : TransactionError → Parsed
  submission : Envelope → Parsed

abbrev bad_request : Reason → Parsed
bad_request reason = malformed (plain_error request_validation reason none)

module _ ⦃py : Python⦄ where
  -- `str(raw_context.get(k) or "").strip()`
  unfoldable pub context_text : String → Fields → String
  context_text k fs = strip (text_or "" (get k fs))

  -- The names of the context that are missing.
  unfoldable pub missing_names : Fields → List String → List String
  missing_names fs [] = []
  missing_names fs (k ∷ ks) =
      let rest = missing_names fs ks in if has_text (context_text k fs) then rest else k ∷ rest

  unfoldable pub context_of : Fields → Context
  unfolding context_text
  context_of fs = record {
    correlation_id = context_text "correlationId" fs;
    thread_id = context_text "threadId" fs;
    principal = context_text "principal" fs;
  }

  -- `context.validate()`, and the envelope
  unfoldable pub if_valid_context : Option Reason → Envelope → Parsed
  if_valid_context (some reason) envelope = bad_request reason
  if_valid_context none envelope = submission envelope

  unfoldable pub with_context : Fields → Fields → List String → Parsed
  unfolding if_valid_context
  with_context intent raw (k ∷ ks) = bad_request (context_missing (k ∷ ks))
  with_context intent raw [] =
      if_valid_context (validate_context (context_of raw))
        (record { intent = intent; context = context_of raw })

  -- The production envelope.
  unfoldable pub enveloped : Json → Json → Parsed
  unfolding with_context missing_names
  enveloped (obj intent) (obj raw) =
      with_context intent raw (missing_names raw ("correlationId" ∷ "threadId" ∷ "principal" ∷ []))
  enveloped (obj intent) _ = bad_request context_not_object
  enveloped _ _ = bad_request intent_not_object

  -- `_bare_intent_context`
  unfoldable pub bare_intent_context : Parsing → Fields → Context
  bare_intent_context parsing intent = record {
    correlation_id = parsing.digest32 intent;
    thread_id = append "bare-intent:" (text_or "unknown" (get "serviceId" intent));
    principal = "compat-direct";
  }

  unfoldable pub is_envelope : Fields → Bool
  is_envelope fs =
      str_eq (lower (strip (text_or "" (get "action" fs)))) "submit"
      || (has_key "intent" fs && has_key "context" fs)

  unfoldable pub is_bare_intent : Fields → Bool
  is_bare_intent fs = has_key "serviceId" fs && (has_key "type" fs && has_key "tenant" fs)

  unfoldable pub parse_loaded : Parsing → Option Json → Parsed
  unfolding enveloped bare_intent_context is_envelope is_bare_intent
  parse_loaded parsing (some (obj fs)) =
      if is_envelope fs
      then enveloped (get "intent" fs) (get "context" fs)
      else if is_bare_intent fs
      then submission (record { intent = fs; context = bare_intent_context parsing fs })
      else no_submission
  parse_loaded parsing _ = no_submission

  -- `parse_deployment_envelope`
  unfoldable pub parse_deployment_envelope : Parsing → String → Parsed
  unfolding parse_loaded
  parse_deployment_envelope parsing text =
      parse_loaded parsing (parsing.loads (parsing.unfenced text))

  -- A refusal of the request, or a submission with a context that the deployer accepts.
  abbrev pub HasValidContext : Parsed → Type 0
  HasValidContext (submission envelope) = validate_context envelope.context ≡ none
  HasValidContext (malformed e) = e.phase ≡ request_validation
  HasValidContext no_submission = ⊥

  if_valid_context-HasValidContext :
      (verdict : Option Reason) (envelope : Envelope)
      → validate_context envelope.context ≡ verdict
      → HasValidContext (if_valid_context verdict envelope)
  unfolding if_valid_context
  if_valid_context-HasValidContext (some reason) envelope e = refl
  if_valid_context-HasValidContext none envelope e = e

  with_context-HasValidContext :
      (intent raw : Fields) (missing : List String)
      → HasValidContext (with_context intent raw missing)
  unfolding with_context
  with_context-HasValidContext intent raw (k ∷ ks) = refl
  with_context-HasValidContext intent raw [] =
      if_valid_context-HasValidContext (validate_context (context_of raw))
        (record { intent = intent; context = context_of raw }) refl

  enveloped-HasValidContext : (intent raw : Json) → HasValidContext (enveloped intent raw)
  unfolding enveloped
  enveloped-HasValidContext (obj intent) (obj raw) =
      with_context-HasValidContext intent raw
        (missing_names raw ("correlationId" ∷ "threadId" ∷ "principal" ∷ []))
  enveloped-HasValidContext (obj intent) raw = refl
  enveloped-HasValidContext intent raw = refl

  -- A text that holds an object in the envelope's form is never taken for something else: it is
  -- either refused with an error of the request's validation, or it is a submission whose
  -- correlation id is 32 hexadecimal characters and whose thread and principal are not blank.
  pub parse_deployment_envelope_valid :
      (parsing : Parsing) (text : String) (fs : Fields)
      → parsing.loads (parsing.unfenced text) ≡ some (obj fs)
      → is_envelope fs ≡ true
      → HasValidContext (parse_deployment_envelope parsing text)
  unfolding parse_deployment_envelope parse_loaded
  parse_deployment_envelope_valid parsing text fs e form =
      rw (e, form) (enveloped-HasValidContext (get "intent" fs) (get "context" fs))
