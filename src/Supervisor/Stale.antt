-- ===== src/Supervisor/Stale.antt =====
-- agents/supervisors/provisioning/graph/graph.py: what a thread carries from one turn to the next and
-- the nodes do not expect.
use agentic_netops.Json.{Fields, Json, Python, arr, bool, get, has_key, null, num, obj, str}
use agentic_netops.Prelude.{
  List, Option, String, arith, false, has_text, if-Both, if-When, leb, none, not, refl, some, true,
  ◌&&◌, ◌||◌, ◌∷◌, ◌≡◌, ◌≤◌,
}
use agentic_netops.Supervisor.{
  Done, Effect, GraphState, Outside, ToolAction, WorkerReply, called, deployer_worker, failed,
  finish, max_iterations, parts, remove_tool, status_tool, worker_unavailable,
}
use agentic_netops.Supervisor.Confirm.{second_confirmed}
use agentic_netops.Supervisor.Contract.{extract_payload_and_text, wrap_worker_text}
use agentic_netops.Supervisor.Deploying.{by_tool, deployer_node}
use agentic_netops.Supervisor.Entry.{supervisor_node}
use agentic_netops.Supervisor.Mapping.{after, told}
use agentic_netops.Supervisor.Refusal.{
  audit, bounded_exit, deadline_exceeded, ended, reject_out_of_contract,
}
use agentic_netops.Supervisor.Silent.{Audits}
use agentic_netops.Supervisor.Tools.{
  after_tool, answer_tool, no_report, plain_answer, run_tool, status_answer, tool_replied,
  tool_text,
}
use agentic_netops.Supervisor.Turn.{seeded}

module _ ⦃py : Python⦄ where
  -- The only call of a worker is the first effect, which sends this text to the deployer.
  abbrev pub OnlySends : String → List Effect → Type 0
  OnlySends text (called deployer_worker sent ∷ es) = (sent ≡ text) × Audits es
  OnlySends text es = ⊥

  answer_tool-Audits :
      (out : Outside) (s : GraphState) (payload : Fields) (worker_text : String) (t : ToolAction)
      (r : Json)
      → Audits (answer_tool out s payload worker_text t r).1
  unfolding answer_tool status_answer plain_answer
  answer_tool-Audits out s payload worker_text status_tool (obj report) = tt
  answer_tool-Audits out s payload worker_text status_tool null = tt
  answer_tool-Audits out s payload worker_text status_tool (bool b) = tt
  answer_tool-Audits out s payload worker_text status_tool (num n) = tt
  answer_tool-Audits out s payload worker_text status_tool (str x) = tt
  answer_tool-Audits out s payload worker_text status_tool (arr xs) = tt
  answer_tool-Audits out s payload worker_text remove_tool r = tt

  no_report-Audits :
      (out : Outside) (s : GraphState) (worker_text : String)
      → Audits (no_report out s worker_text).1
  unfolding no_report reject_out_of_contract audit
  no_report-Audits out s worker_text = tt

  tool_replied-Audits :
      (out : Outside) (s : GraphState) (t : ToolAction) (r : Option Fields × String)
      → Audits (tool_replied out s t r).1
  unfolding tool_replied
  tool_replied-Audits out s t (none, worker_text) = no_report-Audits out s worker_text
  tool_replied-Audits out s t (some payload, worker_text) =
      if-Both (λ (d : Done GraphState). Audits d.1)
        (has_key "status" payload || has_key "removed" payload)
        (answer_tool-Audits out s payload worker_text t (get "status" payload))
        (no_report-Audits out s worker_text)

  after_tool-Audits :
      (out : Outside) (s : GraphState) (t : ToolAction) (r : WorkerReply)
      → Audits (after_tool out s t r).1
  unfolding after_tool told
  after_tool-Audits out s t worker_unavailable = tt
  after_tool-Audits out s t (parts ps) =
      tool_replied-Audits out s t (extract_payload_and_text out "SUBMISSION_JSON" ps)

  tool_text-eq :
      (out : Outside) (s : GraphState) (request : String)
      → s.tool_request ≡ some request
      → has_text request ≡ true
      → tool_text out s ≡ wrap_worker_text (out.redact_prompt request) out.nonce
  unfolding tool_text
  tool_text-eq out s request e given = rw (e, given) refl

  run_tool-OnlySends :
      (out : Outside) (s : GraphState) (t : ToolAction) (request : String)
      → s.tool_request ≡ some request
      → has_text request ≡ true
      → OnlySends (wrap_worker_text (out.redact_prompt request) out.nonce) (run_tool out s t).1
  unfolding run_tool after
  run_tool-OnlySends out s t request e given = (
    tool_text-eq out s request e given,
    after_tool-Audits out s t (out.call deployer_worker (tool_text out s)),
  )

  by_tool-OnlySends :
      (out : Outside) (s : GraphState) (o : Option ToolAction) (t : ToolAction) (request : String)
      → o ≡ some t
      → s.tool_request ≡ some request
      → has_text request ≡ true
      → OnlySends (wrap_worker_text (out.redact_prompt request) out.nonce) (by_tool out s o).1
  unfolding by_tool
  by_tool-OnlySends out s none t request a e given = absurd (ground arith)
  by_tool-OnlySends out s (some u) t request a e given = run_tool-OnlySends out s u request e given

  -- When a status or a removal was asked for earlier on the thread, the confirmation of a deployment
  -- leads to one call of a worker: the deployer is sent the old request, redacted and in its fence,
  -- and so the allocated intent is not submitted.
  pub second_confirmed-Sends :
      (out later : Outside) (s : GraphState) (t : ToolAction) (request : String)
      → s.tool_action ≡ some t
      → s.tool_request ≡ some request
      → has_text request ≡ true
      → OnlySends
          (wrap_worker_text (later.redact_prompt request) later.nonce)
          (deployer_node later (second_confirmed out s).0).1
  unfolding second_confirmed deployer_node
  second_confirmed-Sends out later s t request a e given =
      by_tool-OnlySends later (second_confirmed out s).0 s.tool_action t request a e given

  pub record IsExhausted (s : GraphState) (d : Done GraphState) : Type 0 where
    pub ended_here : d.0.next_node ≡ finish
    pub status : d.0.workflow_status ≡ failed
    pub count : d.0.iteration_count ≡ s.iteration_count

  bounded_exit-IsExhausted :
      (out : Outside) (s t : GraphState) (why : String)
      → t.iteration_count ≡ s.iteration_count
      → IsExhausted s (bounded_exit out t why)
  unfolding bounded_exit ended
  bounded_exit-IsExhausted out s t why c = record { ended_here = refl; status = refl; count = c }

  -- A thread that awaits no answer and whose count of iterations has reached three ends every later turn
  -- as failed at once, with the count unchanged: the seed of a turn does not reset it.
  pub supervisor_node-IsExhausted :
      (out : Outside) (prompt correlation_id principal deadline : String) (s : GraphState)
      → s.awaiting_confirmation ≡ false
      → 3 ≤ s.iteration_count
      → IsExhausted s (supervisor_node out (seeded prompt correlation_id principal deadline s))
  unfolding supervisor_node seeded
  supervisor_node-IsExhausted out prompt correlation_id principal deadline s a c =
      let t = seeded prompt correlation_id principal deadline s in
      if-Both (IsExhausted s) (deadline_exceeded out t) (bounded_exit-IsExhausted out s t _ refl) (
        if-When (IsExhausted s)
          (not s.awaiting_confirmation && leb max_iterations s.iteration_count)
          (λ e. bounded_exit-IsExhausted out s t _ refl) (λ e. absurd (ground (arith, a, c, e))))
