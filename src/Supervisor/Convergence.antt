-- ===== src/Supervisor/Convergence.antt =====
-- agents/supervisors/provisioning/graph/graph.py: `_deployer_node`, the outcome of a submission, by the
-- observations of the report.
use agentic_netops.Json.{Fields, Python, get, is_text}
use agentic_netops.Prelude.{
  List, String, [], false, if◌then◌else◌, is_empty, length, none, not, some, when, ◌&&◌, ◌++◌, ◌∷◌,
}
use agentic_netops.Prelude.Regex.{format}
use agentic_netops.Supervisor.{GraphState, Outside, completed, failed, provisioning, say}
use agentic_netops.Supervisor.Rendering.{describe_convergence}

-- `[c for c in convergence if c.get("outcome") == outcome]`
pub with_outcome : String → List Fields → List Fields
unfolding is_text get
with_outcome outcome [] = []
with_outcome outcome (o ∷ os) =
    when (is_text outcome (get "outcome" o)) o ++ with_outcome outcome os

abbrev failed_advice : String
failed_advice =
    "Inspect the resource's Ready condition, correct the intent, and submit a fresh request; the submitted objects were not rolled back."

module _ ⦃py : Python⦄ (out : Outside) where
  unfoldable pub converged : GraphState → String → List Fields → GraphState
  unfolding describe_convergence say format
  converged t id ready = record t {
    workflow_status = completed;
    awaiting_confirmation = false;
    pending_action = none;
    messages = say t (
        out.redact_model_response (
          format (
            "Deployed. "
            ∷ out.decimal (length ready)
            ∷ " resource(s) reached Ready on the fabric: "
            ∷ describe_convergence ready
            ∷ ". (correlation id: "
            ∷ id
            ∷ ")"
            ∷ [])));
  }

  unfoldable pub not_converged : GraphState → String → String → List Fields → GraphState
  unfolding describe_convergence say format
  not_converged t id names failed_ = record t {
    workflow_status = failed;
    refusal_reason = some (
        format (
          "deployer submitted "
          ∷ names
          ∷ " but convergence failed: "
          ∷ describe_convergence failed_
          ∷ []));
    suggestion = some failed_advice;
    messages = say t (
        out.redact_model_response (
          format (
            "Deployment failed. "
            ∷ names
            ∷ " was submitted, but it did not converge: "
            ∷ describe_convergence failed_
            ∷ ". The submitted objects remain on the cluster — nothing was rolled back, because "
            ∷ "the apply itself succeeded. (correlation id: "
            ∷ id
            ∷ ")"
            ∷ [])));
  }

  unfoldable pub still_converging : GraphState → String → String → List Fields → GraphState
  unfolding describe_convergence say format
  still_converging t id names timed_out = record t {
    workflow_status = provisioning;
    messages = say t (
        out.redact_model_response (
          format (
            "Submitted "
            ∷ names
            ∷ ", still converging when the deployer's watch bound expired: "
            ∷ describe_convergence timed_out
            ∷ ". Nothing failed — ask \"what is the status of the deployment?\" on this thread and "
            ∷ "I will resolve the current condition from the cluster. (correlation id: "
            ∷ id
            ∷ ")"
            ∷ [])));
  }

  unfoldable pub not_observed : GraphState → String → String → GraphState
  unfolding say format
  not_observed t id names = record t {
    workflow_status = provisioning;
    messages = say t (
        format (
          "Submission report received: " ∷ names
          ∷ ". No convergence observation was reported, so the outcome is not yet known — ask for "
          ∷ "the status of the deployment to resolve it. (correlation id: " ∷ id ∷ ")" ∷ []));
  }

  -- The outcome of a submission, by the observations that the report holds.
  unfoldable pub by_convergence : GraphState → String → String → List Fields → GraphState
  unfolding converged not_converged still_converging not_observed with_outcome
  by_convergence t id names observations =
      if not (is_empty (with_outcome "failed" observations))
      then not_converged t id names (with_outcome "failed" observations)
      else if not (is_empty (with_outcome "ready" observations))
          && is_empty (with_outcome "timeout" observations)
      then converged t id (with_outcome "ready" observations)
      else if not (is_empty (with_outcome "timeout" observations))
      then still_converging t id names (with_outcome "timeout" observations)
      else not_observed t id names
