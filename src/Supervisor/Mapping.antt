-- ===== src/Supervisor/Mapping.antt =====
-- agents/supervisors/provisioning/graph/graph.py: `_mapper_node`.
use agentic_netops.Interpretation.{Interpretation, Transport, srv6}
use agentic_netops.Json.{Fields, obj}
use agentic_netops.Prelude.{
  List, Option, String, [], contains, if◌then◌else◌, inl, inr, is_empty, none, not, some, true,
  ◌&&◌, ◌∷◌, ◌⊎◌,
}
use agentic_netops.Prelude.Regex.{format, join}
use agentic_netops.Supervisor.{
  Done, Effect, GraphState, Outside, WorkerReply, called, clarify, confirm_1, finish, mapped,
  mapper_worker, parts, reflection, say, worker_unavailable,
}
use agentic_netops.Supervisor.Contract.{
  extract_payload_and_text, summary_or, validate_mapper_payload, wrap_user_text,
}
use agentic_netops.Supervisor.Detect.{names_srv6}
use agentic_netops.Supervisor.Entry.{user_message}
use agentic_netops.Supervisor.Guard.{srv6_guard_refusal}
use agentic_netops.Supervisor.Patterns.{default_suggestion}
use agentic_netops.Supervisor.Questions.{clarification_prompt, redact_unsupplied, srv6_questions}
use agentic_netops.Supervisor.Refusal.{refuse, reject_out_of_contract}
use agentic_netops.Supervisor.Wording.{srv6_r3_reason, srv6_r4_reason, srv6_r5_reason}

-- An effect that comes before those of a node's ending.
unfoldable pub after : Effect → Done GraphState → Done GraphState
after e (s, es) = (s, e ∷ es)

abbrev mapper_unavailable : String
mapper_unavailable =
    "The mapper worker is currently unavailable, so the request was not processed (nothing was submitted). Please try again in a moment — your thread is kept."

-- The node ends its turn with a message and changes nothing else.
unfoldable pub told : GraphState → String → Done GraphState
unfolding say
told s text = (record s { next_node = finish; messages = say s text }, [])

module _ (out : Outside) where
  property_reason : List String → String
  unfolding format join
  property_reason properties =
      if contains properties "srv6TransportConflict"
      then srv6_r3_reason
      else if contains properties "srv6UnsupportedConstruct"
      then srv6_r5_reason
      else format (
          "unsupported properties: " ∷ join ", " properties ∷ " (no equivalent in the fabric)" ∷ [])

  unfoldable pub clarification : GraphState → Interpretation → Done GraphState
  unfolding say redact_unsupplied clarification_prompt srv6_questions
  clarification s i = (
    record s {
      next_node = finish;
      workflow_status = mapped;
      mapped_parameters = some (
          out.canonical_json
            (obj (redact_unsupplied (out.dump_interpretation i) i.missing_fields)));
      missing_fields = some i.missing_fields;
      awaiting_confirmation = true;
      pending_action = some clarify;
      messages = say s (
          clarification_prompt i.missing_fields
            (srv6_questions out.spine_nodes out.capability i.missing_fields));
    },
    [],
  )

  -- The first confirmation point.
  unfoldable pub interpretation_ready : GraphState → String → Interpretation → Done GraphState
  unfolding say summary_or
  interpretation_ready s worker_text i = (
    record s {
      next_node = reflection;
      workflow_status = mapped;
      mapped_parameters = some (out.canonical_json (obj (out.dump_interpretation i)));
      awaiting_confirmation = true;
      pending_action = some confirm_1;
      messages = say s (summary_or out "Interpretation ready." worker_text);
    },
    [],
  )

  unfoldable pub guarded : GraphState → String → Interpretation → Option String → Done GraphState
  unfolding refuse interpretation_ready
  guarded s worker_text i none = interpretation_ready s worker_text i
  guarded s worker_text i (some why) = refuse out s why default_suggestion "supervisor"

  unfoldable pub guard_of : Interpretation → Option Transport → Option String
  unfolding srv6_guard_refusal
  guard_of i (some srv6) = srv6_guard_refusal out.decimal out.inventory out.capability i
  guard_of i _ = none

  -- A valid interpretation: a refusal, a question or the first confirmation point.
  unfoldable pub interpreted : GraphState → String → Interpretation → Done GraphState
  unfolding refuse property_reason clarification guarded guard_of
  interpreted s worker_text i =
      if not (is_empty i.unsupported_properties)
      then refuse out s (property_reason i.unsupported_properties) default_suggestion "mapper"
      else if not (is_empty i.missing_fields)
      then clarification s i
      else guarded s worker_text i (guard_of i i.transport)

  unfoldable pub judged : GraphState → String → String ⊎ Interpretation → Done GraphState
  unfolding interpreted reject_out_of_contract
  judged s worker_text (inl error) = reject_out_of_contract out s "mapper" error worker_text
  judged s worker_text (inr i) = interpreted s worker_text i

  unfoldable pub mapper_replied : GraphState → Option Fields × String → Done GraphState
  unfolding judged validate_mapper_payload
  mapper_replied s (payload, worker_text) =
      judged s worker_text (validate_mapper_payload out payload)

  unfoldable pub after_mapper : GraphState → WorkerReply → Done GraphState
  unfolding told mapper_replied extract_payload_and_text
  after_mapper s worker_unavailable = told s mapper_unavailable
  after_mapper s (parts ps) = mapper_replied s (extract_payload_and_text out "MAPPED_JSON" ps)

  unfoldable pub call_mapper : GraphState → String → Done GraphState
  unfolding after after_mapper
  call_mapper s fenced =
      after (called mapper_worker fenced) (after_mapper s (out.call mapper_worker fenced))

  unfoldable pub map_message : GraphState → Option String → Done GraphState
  unfolding reject_out_of_contract refuse names_srv6 call_mapper wrap_user_text
  map_message s none = reject_out_of_contract out s "mapper" "no user message to map" ""
  map_message s (some text) =
      if names_srv6 out.regex text && not out.capability.available
      then refuse out s srv6_r4_reason default_suggestion "supervisor"
      else call_mapper s (wrap_user_text (out.redact_prompt text) out.nonce)

  -- `_mapper_node`
  unfoldable pub mapper_node : GraphState → Done GraphState
  unfolding map_message user_message
  mapper_node s = map_message s (user_message s)
