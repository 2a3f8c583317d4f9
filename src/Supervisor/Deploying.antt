-- ===== src/Supervisor/Deploying.antt =====
-- agents/supervisors/provisioning/graph/graph.py: `_deployer_node`, the preconditions of a submission
-- and its call.
use agentic_netops.Intent.{ServiceIntent}
use agentic_netops.Json.{Json, Python, end, field, obj, str}
use agentic_netops.Prelude.{
  Option, String, [], append, has_text, if◌then◌else◌, inl, inr, none, not, some, ◌∷◌, ◌⊎◌,
}
use agentic_netops.Prelude.Regex.{format}
use agentic_netops.Supervisor.{
  Done, GraphState, Outside, ToolAction, WorkerReply, called, deployer_worker, parts, status_value,
  worker_unavailable,
}
use agentic_netops.Supervisor.Contract.{extract_payload_and_text, wrap_worker_text}
use agentic_netops.Supervisor.Mapping.{after, told}
use agentic_netops.Supervisor.Patterns.{default_suggestion}
use agentic_netops.Supervisor.Refusal.{correlation, principal_of, refuse}
use agentic_netops.Supervisor.Submission.{
  decided_text, is_approved, is_confirmed, submission_replied,
}
use agentic_netops.Supervisor.Tools.{run_tool}

abbrev deployer_unavailable : String
deployer_unavailable =
    "The deployer worker is currently unavailable; nothing was submitted. Please confirm again to retry — your thread is kept."

unfoldable pub submit_context : String → String → String → Json
submit_context id thread_id principal = obj (
    field "correlationId" (str id)
      (field "threadId" (str thread_id) (field "principal" (str principal) end)))

-- The correlation id that a node gives a state without one lasts as long as the node.
unfoldable pub with_id : String → Done GraphState → Done GraphState
with_id id (s, es) = (record s { correlation_id = id }, es)

module _ ⦃py : Python⦄ (out : Outside) where
  unfoldable pub after_submission : GraphState → WorkerReply → Done GraphState
  unfolding told submission_replied extract_payload_and_text
  after_submission s worker_unavailable = told s deployer_unavailable
  after_submission s (parts ps) =
      submission_replied out s (extract_payload_and_text out "SUBMISSION_JSON" ps)

  -- The envelope that is sent, in its fence.
  unfoldable pub submission_text : GraphState → Json → String
  unfolding wrap_worker_text submit_context correlation principal_of
  submission_text s intent_ =
      wrap_worker_text
        (out.redact_prompt (
          out.canonical_json (
            obj (
              field "action" (str "submit") (
                field "intent" intent_ (
                  field "context"
                    (submit_context (correlation out s) out.thread_id (principal_of out s))
                    end))))))
        out.nonce

  unfoldable pub submit : GraphState → Json → Done GraphState
  unfolding after after_submission submission_text with_id correlation
  submit s intent_ = after (called deployer_worker (submission_text s intent_)) (
      with_id s.correlation_id (
        after_submission (record s { correlation_id = correlation out s })
          (out.call deployer_worker (submission_text s intent_))))

  unfoldable pub refuse_submission : GraphState → String → Done GraphState
  unfolding refuse
  refuse_submission s why =
      refuse out s (append "submission precondition failed: " why) default_suggestion "deployer"

  unfoldable pub invalid_intent : GraphState → String → Done GraphState
  unfolding refuse_submission format
  invalid_intent s reason = refuse_submission s (
      format
        ("the allocated intent is not a valid normalized service intent (" ∷ reason ∷ ")" ∷ []))

  unfoldable pub submit_valid : GraphState → Json → String ⊎ ServiceIntent → Done GraphState
  unfolding submit invalid_intent
  submit_valid s intent_ (inl reason) = invalid_intent s reason
  submit_valid s intent_ (inr intent) = submit s intent_

  unfoldable pub submit_loaded : GraphState → String → Option Json → Done GraphState
  unfolding submit_valid invalid_intent
  submit_loaded s text none = invalid_intent s (out.loads_error text)
  submit_loaded s text (some intent_) = submit_valid s intent_ (out.validate_intent intent_)

  unfoldable pub submit_allocated : GraphState → Option String → Done GraphState
  unfolding submit_loaded refuse_submission
  submit_allocated s none = refuse_submission s "no allocated normalized intent to submit"
  submit_allocated s (some text) =
      if has_text text
      then submit_loaded s text (out.loads text)
      else refuse_submission s "no allocated normalized intent to submit"

  -- The preconditions, in order, and then the call.
  unfoldable pub submission : GraphState → Done GraphState
  unfolding submit_allocated refuse_submission is_approved is_confirmed decided_text status_value
      format
  submission s =
      if not (is_approved s.workflow_status)
      then refuse_submission s (
          format (
            "workflow_status is '"
            ∷ status_value s.workflow_status
            ∷ "', not APPROVED — nothing can be submitted"
            ∷ []))
      else if not (is_confirmed s.confirmation_2)
      then refuse_submission s (
          format (
            "confirmation_2.decided is '"
            ∷ decided_text s.confirmation_2
            ∷ "', not 'confirm' — nothing can be submitted"
            ∷ []))
      else submit_allocated s s.allocated_resources

  unfoldable pub by_tool : GraphState → Option ToolAction → Done GraphState
  unfolding submission run_tool
  by_tool s none = submission s
  by_tool s (some t) = run_tool out s t

  -- `_deployer_node`: a request for a tool comes before a submission.
  unfoldable pub deployer_node : GraphState → Done GraphState
  unfolding by_tool
  deployer_node s = by_tool s s.tool_action
