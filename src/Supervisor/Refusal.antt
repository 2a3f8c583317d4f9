-- ===== src/Supervisor/Refusal.antt =====
-- agents/supervisors/provisioning/graph/graph.py: the endings that every node shares: the audit event,
-- the refusal, the rejection of a payload and the bounded exit.
use agentic_netops.Json.{Fields}
use agentic_netops.Prelude.{
  Bool, List, String, [], append, false, has_text, if◌then◌else◌, none, or_else, some, ◌∷◌,
}
use agentic_netops.Prelude.Regex.{format}
use agentic_netops.Supervisor.Patterns.{default_suggestion}
use agentic_netops.Supervisor.{
  Done, Effect, EventType, GraphState, Outside, audited, failed, finish, refuse_event, say,
}

abbrev refusal_explanation : String
refusal_explanation =
    "This tier never opens a device session, issues a device command, or writes device configuration. Every change to the fabric flows only through declarative service intent submitted to the cluster API, which the control plane reconciles."

-- `_build_refusal_message`
build_refusal_message : String → String → String → String
unfolding format
build_refusal_message reason advice correlation_id = format (
    "I can't do that. " ∷ reason ∷ ". " ∷ refusal_explanation ∷ " Try instead: " ∷ advice
    ∷ " (correlation id: " ∷ correlation_id ∷ ")" ∷ [])

-- The writes that end a request: the status, the reason and the advice, and no open question.
unfoldable pub ended : GraphState → String → String → String → GraphState
unfolding say
ended s reason advice text = record s {
  next_node = finish;
  workflow_status = failed;
  refusal_reason = some reason;
  suggestion = some advice;
  awaiting_confirmation = false;
  pending_action = none;
  messages = say s text;
}

module _ (out : Outside) where
  -- The correlation id, or a fresh one for a state that has none.
  unfoldable pub correlation : GraphState → String
  correlation s = if has_text s.correlation_id then s.correlation_id else out.nonce

  -- `state.get("principal") or "operator"`
  unfoldable pub principal_of : GraphState → String
  principal_of s = if has_text s.principal then s.principal else "operator"

  -- `_audit`: the event that is handed to the audit sink
  unfoldable pub audit : GraphState → EventType → List Fields → String → Effect
  unfolding correlation principal_of
  audit s event_type resources reason = audited (record {
    event_type = event_type;
    correlation_id = correlation s;
    thread_id = out.thread_id;
    principal = principal_of s;
    at = out.now;
    resources = resources;
    reason = out.redact_reason reason;
  })

  -- `_refuse`
  unfoldable pub refuse : GraphState → String → String → String → Done GraphState
  unfolding audit ended build_refusal_message format
  refuse s reason advice stage = (
    ended s reason advice (build_refusal_message reason advice s.correlation_id),
    audit s refuse_event [] (format (stage ∷ ": " ∷ reason ∷ [])) ∷ [],
  )

  -- `redact_model_response(worker_text)[:400]`, where the text is not empty
  worker_summary : (String → String) → String → String
  unfolding format
  worker_summary first_400 worker_text =
      if has_text worker_text
      then format
          ("\n[worker summary: " ∷ first_400 (out.redact_model_response worker_text) ∷ "]" ∷ [])
      else ""

  -- `_reject_out_of_contract`
  unfoldable pub reject_out_of_contract : GraphState → String → String → String → Done GraphState
  unfolding audit ended worker_summary format
  reject_out_of_contract s stage error worker_text =
      let reason = format (stage ∷ " payload out of contract: " ∷ error ∷ []) in
      let text = out.redact_model_response (
        format (
          "The " ∷ stage
          ∷ " stage returned a payload that fails schema validation, so it was rejected before any "
          ∷ "further routing or cluster submission — nothing was applied: " ∷ error
          ∷ ". (correlation id: " ∷ s.correlation_id ∷ ")" ∷ [])) in
      (
        ended s reason default_suggestion (append text (worker_summary out.first_400 worker_text)),
        audit s refuse_event [] reason ∷ [],
      )

  -- `_deadline_exceeded`
  unfoldable pub deadline_exceeded : GraphState → Bool
  deadline_exceeded s =
      if has_text s.deadline then or_else (out.expired s.deadline) false else false

  -- `_bounded_exit`
  unfoldable pub bounded_exit : GraphState → String → Done GraphState
  unfolding audit ended format
  bounded_exit s why =
      let reason = format ("request bound reached (" ∷ why ∷ "); no further action taken" ∷ []) in
      (
        ended s reason default_suggestion (
            format (
              "This request hit its bound (" ∷ why
              ∷ ") and was stopped without further action. Please rephrase and resend. (correlation id: "
              ∷ s.correlation_id ∷ ")" ∷ [])),
        audit s refuse_event [] reason ∷ [],
      )
