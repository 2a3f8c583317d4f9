-- ===== src/Supervisor/Tools.antt =====
-- agents/supervisors/provisioning/graph/graph.py: `_deployer_node`, on a state that carries a request
-- for a status or a removal.
use agentic_netops.Json.{Fields, Json, Python, get, has_key, obj, text_or}
use agentic_netops.Prelude.{
  Option, String, [], append, has_text?, if◌then◌else◌, none, or_else, some, str_eq, ◌||◌,
}
use agentic_netops.Prelude.Text.{strip}
use agentic_netops.Supervisor.{
  Done, GraphState, Outside, ToolAction, WorkerReply, WorkflowStatus, called, completed,
  deployer_worker, failed, finish, parts, provisioning, say, status_tool, worker_unavailable,
}
use agentic_netops.Supervisor.Contract.{extract_payload_and_text, summary_or, wrap_worker_text}
use agentic_netops.Supervisor.Mapping.{after, told}
use agentic_netops.Supervisor.Patterns.{default_suggestion}
use agentic_netops.Supervisor.Refusal.{reject_out_of_contract}
use agentic_netops.Supervisor.Rendering.{status_summary}

-- `_STATUS_PHASE_TO_WORKFLOW.get(phase)`
unfoldable pub status_phase_to_workflow : String → Option WorkflowStatus
status_phase_to_workflow phase =
    if str_eq phase "Deployed"
    then some completed
    else if str_eq phase "Failed"
    then some failed
    else if str_eq phase "Converging"
    then some provisioning
    else if str_eq phase "NotFound"
    then some failed
    else none

unfoldable pub resolved : String → Option WorkflowStatus → GraphState → GraphState
resolved summary none s = s
resolved summary (some failed) s = record s {
  workflow_status = failed;
  refusal_reason = some (append "deployer resolved the deployment status: " summary);
  suggestion = some default_suggestion;
}
resolved summary (some w) s = record s { workflow_status = w }

module _ ⦃py : Python⦄ (out : Outside) where
  unfoldable pub tool_answer : GraphState → Fields → String → GraphState
  unfolding say
  tool_answer s payload summary = record s {
    next_node = finish;
    tool_result = some (out.canonical_json (obj payload));
    messages = say s summary;
  }

  unfoldable pub plain_answer : GraphState → Fields → String → Done GraphState
  unfolding tool_answer summary_or
  plain_answer s payload worker_text =
      (tool_answer s payload (summary_or out "Tools result." worker_text), [])

  -- A status report is rendered, and its phase becomes the thread's status.
  unfoldable pub status_answer : GraphState → Fields → Fields → Done GraphState
  unfolding tool_answer resolved status_phase_to_workflow status_summary text_or get strip
  status_answer s payload report =
      let summary = out.redact_model_response (strip (status_summary report)) in
      (
        resolved summary (status_phase_to_workflow (text_or "" (get "phase" report)))
            (tool_answer s payload summary),
        [],
      )

  unfoldable pub answer_tool : GraphState → Fields → String → ToolAction → Json → Done GraphState
  unfolding status_answer plain_answer
  answer_tool s payload worker_text status_tool (obj report) = status_answer s payload report
  answer_tool s payload worker_text _ _ = plain_answer s payload worker_text

  unfoldable pub no_report : GraphState → String → Done GraphState
  unfolding reject_out_of_contract
  no_report s worker_text =
      reject_out_of_contract out s "deployer" "no contract tools report" worker_text

  unfoldable pub tool_replied : GraphState → ToolAction → Option Fields × String → Done GraphState
  unfolding answer_tool no_report has_key get
  tool_replied s t (none, worker_text) = no_report s worker_text
  tool_replied s t (some payload, worker_text) =
      if has_key "status" payload || has_key "removed" payload
      then answer_tool s payload worker_text t (get "status" payload)
      else no_report s worker_text

  unfoldable pub after_tool : GraphState → ToolAction → WorkerReply → Done GraphState
  unfolding told tool_replied extract_payload_and_text
  after_tool s t worker_unavailable =
      told s "The deployer worker is currently unavailable; please try again later."
  after_tool s t (parts ps) = tool_replied s t (extract_payload_and_text out "SUBMISSION_JSON" ps)

  -- The request that is sent, in its fence.
  unfoldable pub tool_text : GraphState → String
  unfolding wrap_worker_text
  tool_text s =
      wrap_worker_text
        (out.redact_prompt (if has_text? s.tool_request then or_else s.tool_request "" else "{}"))
        out.nonce

  unfoldable pub run_tool : GraphState → ToolAction → Done GraphState
  unfolding after after_tool tool_text
  run_tool s t =
      after (called deployer_worker (tool_text s))
        (after_tool s t (out.call deployer_worker (tool_text s)))
