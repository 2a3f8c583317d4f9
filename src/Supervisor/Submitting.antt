-- ===== src/Supervisor/Submitting.antt =====
-- agents/supervisors/provisioning/graph/graph.py: a submission by `_deployer_node` leaves the decisions
-- of the operator alone.
use agentic_netops.Intent.{ServiceIntent}
use agentic_netops.Json.{num, Fields, Json, Python, arr, bool, null, obj, str}
use agentic_netops.Prelude.{
  List, Option, String, arith, has_text, if-Both, inl, inr, is_empty, none, not, refl, some, ◌&&◌,
  ◌⊎◌,
}
use agentic_netops.Supervisor.{
  Done, Effect, GraphState, Outside, ToolAction, WorkerReply, called, deployer_worker, parts,
  worker_unavailable,
}
use agentic_netops.Supervisor.Convergence.{
  by_convergence, converged, not_converged, not_observed, still_converging, with_outcome,
}
use agentic_netops.Supervisor.Delivering.{run_tool-Steady}
use agentic_netops.Supervisor.Deploying.{
  after_submission, by_tool, deployer_node, invalid_intent, refuse_submission, submission,
  submission_text, submit, submit_allocated, submit_loaded, submit_valid, with_id,
}
use agentic_netops.Supervisor.Refusal.{correlation}
use agentic_netops.Supervisor.Steady.{
  Steady, Waits, after-Steady, ended-Steady, refuse-Steady, reject-Steady, told-Steady,
}
use agentic_netops.Supervisor.Submission.{
  by_failed, by_submitted, carried, is_approved, is_confirmed, no_submission, submission_replied,
  submitted, transaction_failed,
}

module _ ⦃py : Python⦄ (out : Outside) where
  by_convergence-Steady :
      (s : GraphState) (resources : List Fields) (c : Json) (id names : String)
      (observations : List Fields) (es : List Effect)
      → Steady
          (Waits s)
          s
          (by_convergence out (carried out s resources c) id names observations, es)
  unfolding by_convergence carried converged not_converged still_converging not_observed
  by_convergence-Steady s resources c id names observations es =
      if-Both (λ t. Steady (Waits s) s (t, es))
        (not (is_empty (with_outcome "failed" observations)))
        (record {
          exit = tt;
          count = refl;
          first = refl;
          second = refl;
          approval = λ e. ground arith;
          awaits = λ e. e;
        })
        (if-Both (λ t. Steady (Waits s) s (t, es))
          (not (is_empty (with_outcome "ready" observations))
            && is_empty (with_outcome "timeout" observations))
          (record {
            exit = tt;
            count = refl;
            first = refl;
            second = refl;
            approval = λ e. ground arith;
            awaits = λ e. ground arith;
          })
          (if-Both (λ t. Steady (Waits s) s (t, es))
            (not (is_empty (with_outcome "timeout" observations)))
            (record {
              exit = tt;
              count = refl;
              first = refl;
              second = refl;
              approval = λ e. ground arith;
              awaits = λ e. e;
            })
            (record {
              exit = tt;
              count = refl;
              first = refl;
              second = refl;
              approval = λ e. ground arith;
              awaits = λ e. e;
            })))

  submitted-Steady :
      (s : GraphState) (c : Json) (worker_text : String) (r : String ⊎ List Fields)
      → Steady (Waits s) s (submitted out s c worker_text r)
  unfolding submitted
  submitted-Steady s c worker_text (inl error) = reject-Steady out s _ _ worker_text
  submitted-Steady s c worker_text (inr resources) = search by_convergence-Steady

  no_submission-Steady :
      (s : GraphState) (worker_text : String) → Steady (Waits s) s (no_submission out s worker_text)
  unfolding no_submission
  no_submission-Steady s worker_text = reject-Steady out s _ _ worker_text

  by_submitted-Steady :
      (s : GraphState) (payload : Fields) (worker_text : String) (r : Json)
      → Steady (Waits s) s (by_submitted out s payload worker_text r)
  unfolding by_submitted
  by_submitted-Steady s payload worker_text (arr xs) = search submitted-Steady
  by_submitted-Steady s payload worker_text null = no_submission-Steady s worker_text
  by_submitted-Steady s payload worker_text (bool b) = no_submission-Steady s worker_text
  by_submitted-Steady s payload worker_text (num n) = no_submission-Steady s worker_text
  by_submitted-Steady s payload worker_text (str t) = no_submission-Steady s worker_text
  by_submitted-Steady s payload worker_text (obj fs) = no_submission-Steady s worker_text

  by_failed-Steady :
      (s : GraphState) (payload : Fields) (worker_text : String) (r : Json)
      → Steady (Waits s) s (by_failed out s payload worker_text r)
  unfolding by_failed transaction_failed
  by_failed-Steady s payload worker_text (obj failure) = ended-Steady s _ _ _ _
  by_failed-Steady s payload worker_text null = search by_submitted-Steady
  by_failed-Steady s payload worker_text (bool b) = search by_submitted-Steady
  by_failed-Steady s payload worker_text (num n) = search by_submitted-Steady
  by_failed-Steady s payload worker_text (str t) = search by_submitted-Steady
  by_failed-Steady s payload worker_text (arr xs) = search by_submitted-Steady

  submission_replied-Steady :
      (s : GraphState) (r : Option Fields × String)
      → Steady (Waits s) s (submission_replied out s r)
  unfolding submission_replied
  submission_replied-Steady s (none, worker_text) = no_submission-Steady s worker_text
  submission_replied-Steady s (some payload, worker_text) = search by_failed-Steady

  after_submission-Steady :
      (s : GraphState) (r : WorkerReply) → Steady (Waits s) s (after_submission out s r)
  unfolding after_submission
  after_submission-Steady s worker_unavailable = told-Steady s _ (λ e. e)
  after_submission-Steady s (parts ps) = search submission_replied-Steady

  -- The correlation id plays no part.
  with_id-Steady :
      (s : GraphState) (id back : String) (d : Done GraphState)
      → Steady (Waits s) (record s { correlation_id = id }) d
      → Steady (Waits s) s (with_id back d)
  unfolding with_id
  with_id-Steady s id back (t, es) h = record {
    exit = h.exit;
    count = h.count;
    first = h.first;
    second = h.second;
    approval = h.approval;
    awaits = h.awaits;
  }

  submit-Steady : (s : GraphState) (j : Json) → Steady (Waits s) s (submit out s j)
  unfolding submit
  submit-Steady s j = after-Steady s (called deployer_worker (submission_text out s j)) _ (
      with_id-Steady s (correlation out s) s.correlation_id _ (
        after_submission-Steady (record s { correlation_id = correlation out s })
          (out.call deployer_worker (submission_text out s j))))

  refuse_submission-Steady :
      (s : GraphState) (why : String) → Steady (Waits s) s (refuse_submission out s why)
  unfolding refuse_submission
  refuse_submission-Steady s why = refuse-Steady out s _ _ "deployer"

  invalid_intent-Steady :
      (s : GraphState) (why : String) → Steady (Waits s) s (invalid_intent out s why)
  unfolding invalid_intent
  invalid_intent-Steady s why = refuse_submission-Steady s _

  submit_valid-Steady :
      (s : GraphState) (j : Json) (r : String ⊎ ServiceIntent)
      → Steady (Waits s) s (submit_valid out s j r)
  unfolding submit_valid
  submit_valid-Steady s j (inl reason) = invalid_intent-Steady s reason
  submit_valid-Steady s j (inr intent) = submit-Steady s j

  submit_loaded-Steady :
      (s : GraphState) (text : String) (r : Option Json)
      → Steady (Waits s) s (submit_loaded out s text r)
  unfolding submit_loaded
  submit_loaded-Steady s text none = search invalid_intent-Steady
  submit_loaded-Steady s text (some j) = search submit_valid-Steady

  submit_allocated-Steady :
      (s : GraphState) (r : Option String) → Steady (Waits s) s (submit_allocated out s r)
  unfolding submit_allocated
  submit_allocated-Steady s none =
      refuse_submission-Steady s "no allocated normalized intent to submit"
  submit_allocated-Steady s (some text) =
      if-Both (Steady (Waits s) s) (has_text text) (search submit_loaded-Steady)
        (refuse_submission-Steady s "no allocated normalized intent to submit")

  submission-Steady : (s : GraphState) → Steady (Waits s) s (submission out s)
  unfolding submission
  submission-Steady s =
      if-Both (Steady (Waits s) s) (not (is_approved s.workflow_status))
        (search refuse_submission-Steady)
        (if-Both (Steady (Waits s) s) (not (is_confirmed s.confirmation_2))
          (search refuse_submission-Steady) (submit_allocated-Steady s s.allocated_resources))

  by_tool-Steady : (s : GraphState) (t : Option ToolAction) → Steady (Waits s) s (by_tool out s t)
  unfolding by_tool
  by_tool-Steady s none = submission-Steady s
  by_tool-Steady s (some t) = run_tool-Steady out s t

  pub deployer_node-Steady : (s : GraphState) → Steady (Waits s) s (deployer_node out s)
  unfolding deployer_node
  deployer_node-Steady s = by_tool-Steady s s.tool_action
