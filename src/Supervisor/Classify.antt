-- ===== src/Supervisor/Classify.antt =====
-- agents/supervisors/provisioning/graph/graph.py: `_start_provisioning` and `_classify_and_route`.
use agentic_netops.Prelude.{Option, String, [], false, none, some}
use agentic_netops.Supervisor.{
  Done, GraphState, Outside, RequestClassification, failed, finish, general_info, informational,
  mapper, provisionable, received_request, say, unsupported,
}
use agentic_netops.Supervisor.Contract.{wrap_user_text}
use agentic_netops.Supervisor.Detect.{fallback_classification, parse_classification}
use agentic_netops.Supervisor.Patterns.{default_suggestion}
use agentic_netops.Supervisor.Refusal.{refuse}

-- `_start_provisioning`: a clean transaction, on a fresh or a reused thread
unfoldable pub start_provisioning : GraphState → GraphState
start_provisioning s = record s {
  next_node = mapper;
  classification = some provisionable;
  workflow_status = received_request;
  tool_action = none;
  tool_request = none;
  tool_result = none;
  awaiting_confirmation = false;
  pending_action = none;
  mapped_parameters = none;
  missing_fields = none;
  allocated_resources = none;
  submitted_resources = none;
  submitted_correlation_id = none;
  convergence = none;
  claimed_ids = [];
  confirmation_1 = none;
  confirmation_2 = none;
  refusal_reason = none;
  suggestion = none;
}

unfoldable pub informed : GraphState → GraphState
informed s = record s { next_node = general_info; classification = some informational }

abbrev pub outside_contract : String
outside_contract =
    "the request is outside the declarative service contract; supported constructs are: vlan, mac-vrf, ip-vrf, acl, each provisioned declaratively and only after the two explicit confirmations"

module _ (out : Outside) where
  -- The class that the model named, if its reply names one.
  unfoldable pub by_class : GraphState → Option RequestClassification → Done GraphState
  unfolding start_provisioning informed refuse say
  by_class s (some provisionable) = (start_provisioning s, [])
  by_class s (some informational) = (informed s, [])
  by_class s (some unsupported) = refuse out s outside_contract default_suggestion "supervisor"
  by_class s none = (
    record s {
      next_node = general_info;
      classification = none;
      messages =
          say s
            "I could not classify that request. Please rephrase it as a service request (type, the two endpoints, and the tenant) or as a question.";
    },
    [],
  )

  -- The model is unavailable: only an unambiguous message is routed.
  unfoldable pub by_fallback : GraphState → Option RequestClassification → Done GraphState
  unfolding start_provisioning informed say
  by_fallback s (some provisionable) = (start_provisioning s, [])
  by_fallback s (some informational) = (informed s, [])
  by_fallback s _ = (
    record s {
      next_node = finish;
      classification = none;
      workflow_status = failed;
      refusal_reason = some out.provider_unavailable;
      suggestion = some "Configure the llm-provider Secret and retry the request.";
      messages = say s out.provider_unavailable;
    },
    [],
  )

  unfoldable pub after_model : GraphState → String → Option String → Done GraphState
  unfolding by_class by_fallback fallback_classification parse_classification
  after_model s text none = by_fallback s (fallback_classification out.regex text)
  after_model s text (some content) = by_class s (parse_classification out.regex content)

  -- `_classify_and_route`
  unfoldable pub classify_and_route : GraphState → String → Done GraphState
  unfolding after_model wrap_user_text
  classify_and_route s text =
      after_model s text (out.model (wrap_user_text (out.redact_prompt text) out.nonce))
