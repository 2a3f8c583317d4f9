-- ===== src/Supervisor/Delivering.antt =====
-- agents/supervisors/provisioning/graph/graph.py: `_deployer_node` leaves the decisions of the operator
-- alone.
use agentic_netops.Json.{
  Fields, Json, Python, arr, bool, get, has_key, null, num, obj, str, text_or,
}
use agentic_netops.Prelude.{
  List, Option, String, [], arith, if-Both, none, refl, some, subst, sym, ◌||◌, ◌∙◌, ◌≡◌, ◌≢◌,
}
use agentic_netops.Supervisor.{
  Effect, GraphState, Outside, ToolAction, WorkerReply, WorkflowStatus, allocated, approved,
  completed, configured, failed, mapped, parts, provisioning, received_request, remove_tool,
  status_tool, status_unknown, validated, verified, worker_unavailable,
}
use agentic_netops.Supervisor.Steady.{
  IsExit, Steady, Waits, after-Steady, reject-Steady, told-Steady,
}
use agentic_netops.Supervisor.Tools.{
  after_tool, answer_tool, no_report, plain_answer, resolved, run_tool, status_answer,
  status_phase_to_workflow, tool_answer, tool_replied,
}
use agentic_netops.Prelude.Text.{strip}
use agentic_netops.Supervisor.Rendering.{status_summary}

-- Any status but the approval may be written.
relabelled-Steady :
    {Q : Type 0} (s t u : GraphState) (es fs : List Effect)
    → u.next_node ≡ t.next_node
    → u.iteration_count ≡ t.iteration_count
    → u.confirmation_1 ≡ t.confirmation_1
    → u.confirmation_2 ≡ t.confirmation_2
    → u.pending_action ≡ t.pending_action
    → ¬ (u.workflow_status ≡ approved)
    → Steady Q s (t, es)
    → Steady Q s (u, fs)
relabelled-Steady s t u es fs n c f g p h k = record {
  exit = subst IsExit (sym n) k.exit;
  count = c ∙ k.count;
  first = f ∙ k.first;
  second = g ∙ k.second;
  approval = λ e. absurd (h e);
  awaits = λ e. k.awaits (sym p ∙ e);
}

resolved-Steady :
    {Q : Type 0} (s t : GraphState) (summary : String) (w : Option WorkflowStatus)
    (es : List Effect)
    → w ≢ some approved
    → Steady Q s (t, es)
    → Steady Q s (resolved summary w t, es)
unfolding resolved
resolved-Steady s t summary none es h k = k
resolved-Steady s t summary (some approved) es h k = absurd (h refl)
resolved-Steady s t summary (some failed) es h k =
    relabelled-Steady s t _ es es refl refl refl refl refl (λ e. ground arith) k
resolved-Steady s t summary (some received_request) es h k =
    relabelled-Steady s t _ es es refl refl refl refl refl (λ e. ground arith) k
resolved-Steady s t summary (some validated) es h k =
    relabelled-Steady s t _ es es refl refl refl refl refl (λ e. ground arith) k
resolved-Steady s t summary (some mapped) es h k =
    relabelled-Steady s t _ es es refl refl refl refl refl (λ e. ground arith) k
resolved-Steady s t summary (some allocated) es h k =
    relabelled-Steady s t _ es es refl refl refl refl refl (λ e. ground arith) k
resolved-Steady s t summary (some provisioning) es h k =
    relabelled-Steady s t _ es es refl refl refl refl refl (λ e. ground arith) k
resolved-Steady s t summary (some configured) es h k =
    relabelled-Steady s t _ es es refl refl refl refl refl (λ e. ground arith) k
resolved-Steady s t summary (some verified) es h k =
    relabelled-Steady s t _ es es refl refl refl refl refl (λ e. ground arith) k
resolved-Steady s t summary (some completed) es h k =
    relabelled-Steady s t _ es es refl refl refl refl refl (λ e. ground arith) k
resolved-Steady s t summary (some status_unknown) es h k =
    relabelled-Steady s t _ es es refl refl refl refl refl (λ e. ground arith) k

status_phase_to_workflow-ne-approved :
    (phase : String) → status_phase_to_workflow phase ≢ some approved
unfolding status_phase_to_workflow
status_phase_to_workflow-ne-approved phase = ground arith

module _ ⦃py : Python⦄ (out : Outside) where
  tool_answer-Steady :
      (s : GraphState) (payload : Fields) (summary : String)
      → Steady (Waits s) s (tool_answer out s payload summary, [])
  unfolding tool_answer
  tool_answer-Steady s payload summary = record {
    exit = tt;
    count = refl;
    first = refl;
    second = refl;
    approval = λ e. e;
    awaits = λ e. e;
  }

  answered-Steady :
      (s : GraphState) (payload : Fields) (phase summary : String)
      → Steady (Waits s) s (
        resolved summary (status_phase_to_workflow phase) (tool_answer out s payload summary),
        [],
      )
  answered-Steady s payload phase summary =
      resolved-Steady s (tool_answer out s payload summary) summary (status_phase_to_workflow phase)
        [] (status_phase_to_workflow-ne-approved phase) (tool_answer-Steady s payload summary)

  answer_tool-Steady :
      (s : GraphState) (payload : Fields) (worker_text : String) (t : ToolAction) (r : Json)
      → Steady (Waits s) s (answer_tool out s payload worker_text t r)
  unfolding answer_tool status_answer plain_answer
  answer_tool-Steady s payload worker_text status_tool (obj report) =
      answered-Steady s payload (text_or "" (get "phase" report))
        (out.redact_model_response (strip (status_summary report)))
  answer_tool-Steady s payload worker_text status_tool null = tool_answer-Steady s payload _
  answer_tool-Steady s payload worker_text status_tool (bool b) = tool_answer-Steady s payload _
  answer_tool-Steady s payload worker_text status_tool (num n) = tool_answer-Steady s payload _
  answer_tool-Steady s payload worker_text status_tool (str t) = tool_answer-Steady s payload _
  answer_tool-Steady s payload worker_text status_tool (arr xs) = tool_answer-Steady s payload _
  answer_tool-Steady s payload worker_text remove_tool r = tool_answer-Steady s payload _

  no_report-Steady :
      (s : GraphState) (worker_text : String) → Steady (Waits s) s (no_report out s worker_text)
  unfolding no_report
  no_report-Steady s worker_text = reject-Steady out s _ _ worker_text

  tool_replied-Steady :
      (s : GraphState) (t : ToolAction) (r : Option Fields × String)
      → Steady (Waits s) s (tool_replied out s t r)
  unfolding tool_replied
  tool_replied-Steady s t (none, worker_text) = no_report-Steady s worker_text
  tool_replied-Steady s t (some payload, worker_text) =
      if-Both (Steady (Waits s) s) (has_key "status" payload || has_key "removed" payload)
        (answer_tool-Steady s payload worker_text t (get "status" payload))
        (no_report-Steady s worker_text)

  after_tool-Steady :
      (s : GraphState) (t : ToolAction) (r : WorkerReply)
      → Steady (Waits s) s (after_tool out s t r)
  unfolding after_tool
  after_tool-Steady s t worker_unavailable = told-Steady s _ (λ e. e)
  after_tool-Steady s t (parts ps) = search tool_replied-Steady

  pub run_tool-Steady : (s : GraphState) (t : ToolAction) → Steady (Waits s) s (run_tool out s t)
  unfolding run_tool
  run_tool-Steady s t = search (after-Steady, after_tool-Steady)
