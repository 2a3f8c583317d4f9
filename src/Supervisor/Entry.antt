-- ===== src/Supervisor/Entry.antt =====
-- agents/supervisors/provisioning/graph/graph.py: `_supervisor_node`, the entry of every turn.
use agentic_netops.Json.{Fields, Json, Python, end, field, get, is_true, obj, put, str, text_of}
use agentic_netops.Prelude.{
  Bool, List, Option, String, [], has_text?, if◌then◌else◌, leb, length, none, not, or_else, some,
  true, ◌&&◌, ◌∷◌,
}
use agentic_netops.Prelude.Regex.{format, join, text_leb}
use agentic_netops.Prelude.Sort.{sort}
use agentic_netops.Prelude.Text.{lower, strip}
use agentic_netops.Supervisor.{
  Done, GraphState, Message, Outside, Pending, assistant, confirm_remove, deployer, finish,
  general_info, human, max_iterations, remove_tool, say, status_tool,
}
use agentic_netops.Supervisor.Classify.{classify_and_route, start_provisioning}
use agentic_netops.Supervisor.Confirm.{answer_pending}
use agentic_netops.Supervisor.Detect.{
  DetectionHit, detect_deployment_status_query, detect_direct_device, detect_provisioning_request,
  detect_unsupported_feature, find_constructs,
}
use agentic_netops.Supervisor.Patterns.{default_suggestion}
use agentic_netops.Supervisor.Refusal.{bounded_exit, deadline_exceeded, refuse}

unfoldable pub last_human : Option String → List Message → Option String
last_human last [] = last
last_human last (human text ∷ ms) = last_human (some text) ms
last_human last (assistant text ∷ ms) = last_human last ms

-- The last message of the operator.
unfoldable pub user_message : GraphState → Option String
unfolding last_human
user_message s = last_human none s.messages

-- `pending_action`, where an answer is awaited
unfoldable pub awaited : GraphState → Option Pending
awaited s = if s.awaiting_confirmation then s.pending_action else none

unfoldable pub tool_turn : GraphState → String → Done GraphState
tool_turn s req =
    (record s { next_node = deployer; tool_action = some status_tool; tool_request = some req }, [])

unfoldable pub removal_turn : GraphState → String → Done GraphState
unfolding say
removal_turn s req = (
  record s {
    next_node = finish;
    tool_action = some remove_tool;
    tool_request = some req;
    awaiting_confirmation = true;
    pending_action = some confirm_remove;
    messages =
        say s
          "Remove this service? Reply 'confirm' to delete by correlation id, or 'decline' to cancel.";
  },
  [],
)

-- `{"action": action, key: v}`
tool_fields : String → String → String → Fields
tool_fields action key v = field "action" (str action) (field key (str v) end)

module _ ⦃py : Python⦄ where
  with_service : Option Json → Fields → Fields
  unfolding get put is_true text_of
  with_service (some (obj allocated_)) request =
      if is_true (get "serviceId" allocated_)
      then put "serviceId" (str (text_of (get "serviceId" allocated_))) request
      else request
  with_service _ request = request

  module _ (out : Outside) where
    -- The request for the status of the thread's own transaction.
    status_request : GraphState → String → String
    unfolding with_service tool_fields
    status_request s correlation_ = out.canonical_json (
        obj (
          with_service
            (out.loads
              (if has_text? s.allocated_resources then or_else s.allocated_resources "" else "{}"))
            (tool_fields "status" "correlationId" correlation_)))

    -- The detectors of what may not be provisioned, the mixed request, and the classifier.
    unfoldable pub by_detectors :
        GraphState → String → Option DetectionHit → Option DetectionHit → Done GraphState
    unfolding refuse detect_provisioning_request detect_deployment_status_query start_provisioning
        classify_and_route
    by_detectors s text (some hit) _ = refuse out s hit.reason hit.advice "supervisor"
    by_detectors s text none (some hit) = refuse out s hit.reason hit.advice "supervisor"
    by_detectors s text none none =
        if detect_provisioning_request out.regex text
          && detect_deployment_status_query out.regex text
        then (start_provisioning s, [])
        else classify_and_route out s text

    unfoldable pub fresh_request : GraphState → String → Done GraphState
    unfolding by_detectors detect_direct_device detect_unsupported_feature
    fresh_request s text =
        by_detectors s text (detect_direct_device out.regex text)
          (detect_unsupported_feature out.regex text)

    unfoldable pub by_correlation : GraphState → String → Option String → Done GraphState
    unfolding removal_turn tool_fields answer_pending fresh_request awaited lower strip
    by_correlation s text (some cid) =
        removal_turn s (out.canonical_json (obj (tool_fields "remove" "correlationId" cid)))
    by_correlation s text none =
        answer_pending out s text (strip (lower text)) (fresh_request s text) (awaited s)

    unfoldable pub by_removal : GraphState → String → Option String → Done GraphState
    unfolding by_correlation removal_turn tool_fields lower strip
    by_removal s text (some sid) =
        removal_turn s (out.canonical_json (obj (tool_fields "remove" "serviceId" sid)))
    by_removal s text none = by_correlation s text (
        out.regex.group "remove .*?correlation[- ]id[:\\s]+(?P<cid>[a-f0-9]{16,32})"
          (strip (lower text)))

    unfoldable pub by_status : GraphState → String → Option String → Done GraphState
    unfolding by_removal tool_turn tool_fields lower strip
    by_status s text (some sid) =
        tool_turn s (out.canonical_json (obj (tool_fields "status" "serviceId" sid)))
    by_status s text none =
        by_removal s text
          (out.regex.group "remove (?:service |)(?P<sid>[a-z0-9-]{6,15})" (strip (lower text)))

    -- Whether the operator asks for the outcome of what this thread submitted.
    unfoldable pub asks_outcome : GraphState → String → Bool
    unfolding detect_deployment_status_query detect_provisioning_request
    asks_outcome s text =
        has_text? s.submitted_resources
        && (has_text? s.submitted_correlation_id
            && (detect_deployment_status_query out.regex text
                && not (detect_provisioning_request out.regex text)))

    unfoldable pub by_outcome : GraphState → String → Done GraphState
    unfolding asks_outcome tool_turn status_request by_status lower strip
    by_outcome s text =
        if asks_outcome s text
        then tool_turn s (status_request s (or_else s.submitted_correlation_id ""))
        else by_status s text
            (out.regex.group "status of (?:service |)(?P<sid>[a-z0-9-]{6,15})" (strip (lower text)))

    one_construct : List String → String
    unfolding format join text_leb
    one_construct constructs = format (
        "one construct per request; you named: "
        ∷ join ", " (sort text_leb constructs)
        ∷ ". Supported constructs: vlan, mac-vrf, ip-vrf, acl"
        ∷ [])

    unfoldable pub answer_message : GraphState → Option String → Done GraphState
    unfolding find_constructs refuse one_construct by_outcome
    answer_message s none = (record s { next_node = general_info }, [])
    answer_message s (some text) =
        let constructs = find_constructs out.regex text in
        if leb 2 (length constructs)
        then refuse out s (one_construct constructs) default_suggestion "supervisor"
        else by_outcome s text

    -- `_supervisor_node`
    unfoldable pub supervisor_node : GraphState → Done GraphState
    unfolding deadline_exceeded bounded_exit answer_message user_message
    supervisor_node s =
        if deadline_exceeded out s
        then bounded_exit out s "wall-clock deadline exceeded"
        else if not s.awaiting_confirmation && leb max_iterations s.iteration_count
        then bounded_exit out s "iteration bound 3 reached"
        else answer_message s (user_message s)
