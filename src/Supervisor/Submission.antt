-- ===== src/Supervisor/Submission.antt =====
-- agents/supervisors/provisioning/graph/graph.py: `_deployer_node`, the submission of an allocated
-- intent: its preconditions, the call, and the outcome that the report names.
use agentic_netops.Json.{
  Fields, Items, Json, Python, arr, dicts_of, get, is_true, item, nil, obj, text_of, text_or,
}
use agentic_netops.Prelude.{
  Bool, List, Option, String, [], append, false, if◌then◌else◌, inl, inr, none, some, suc, true, ℕ,
  ◌∷◌, ◌⊎◌,
}
use agentic_netops.Prelude.Regex.{format}
use agentic_netops.Supervisor.{
  Decision, Done, GraphState, Outside, WorkflowStatus, approved, confirm, decline, finish,
  refuse_event, submit_event,
}
use agentic_netops.Supervisor.Patterns.{default_suggestion}
use agentic_netops.Supervisor.Refusal.{audit, ended, reject_out_of_contract}
use agentic_netops.Supervisor.Rendering.{resource_names}
use agentic_netops.Supervisor.Convergence.{by_convergence}

unfoldable pub is_approved : WorkflowStatus → Bool
is_approved approved = true
is_approved _ = false

-- `confirmation_2.get("decided") == "confirm"`
unfoldable pub is_confirmed : Option Decision → Bool
is_confirmed none = false
is_confirmed (some d) = elim d.decided [ confirm ↦ true | decline ↦ false ]

unfoldable pub decided_text : Option Decision → String
decided_text none = "None"
decided_text (some d) = elim d.decided [ confirm ↦ "confirm" | decline ↦ "decline" ]

unfoldable pub items_of : Json → Items
items_of (arr xs) = xs
items_of _ = nil

-- `len(xs)`, of the list that a report holds
item_count : Items → ℕ
item_count nil = 0
item_count (item x xs) = suc (item_count xs)

resource_items : List Fields → Items
resource_items [] = nil
resource_items (r ∷ rs) = item (obj r) (resource_items rs)

from_first : Fields → String ⊎ List Fields → String ⊎ List Fields
from_first r (inl error) = inl error
from_first r (inr rs) = inr (r ∷ rs)

module _ ⦃py : Python⦄ (out : Outside) where
  -- The resources of a report, or the errors of the first that is no resource.
  read_resources : Items → String ⊎ List Fields
  unfolding from_first
  read_resources nil = inr []
  read_resources (item x xs) = elim (out.validate_resource x) [
    | inl error ↦ inl error
    | inr r ↦ from_first r (read_resources xs)
  ]

  unfoldable pub carried : GraphState → List Fields → Json → GraphState
  unfolding resource_items items_of
  carried s resources convergence_ = record s {
    next_node = finish;
    submitted_resources = some (out.canonical_json (arr (resource_items resources)));
    submitted_correlation_id = some s.correlation_id;
    convergence = some (out.canonical_json (arr (items_of convergence_)));
  }

  unfoldable pub submitted : GraphState → Json → String → String ⊎ List Fields → Done GraphState
  unfolding reject_out_of_contract audit by_convergence carried resource_names dicts_of
  submitted s convergence_ worker_text (inl error) =
      reject_out_of_contract out s "deployer" (append "submission report resources invalid: " error)
        worker_text
  submitted s convergence_ worker_text (inr resources) = (
    by_convergence out (carried s resources convergence_) s.correlation_id
        (resource_names resources) (dicts_of convergence_),
    audit out s submit_event resources "deployer submission report" ∷ [],
  )

  failure_text : GraphState → Fields → String
  unfolding text_or get is_true resource_names items_of item_count dicts_of format text_of
  failure_text s failure = format (
      "The deployment failed during the "
      ∷ text_or "transaction" (get "phase" failure)
      ∷ " phase"
      ∷ (if is_true (get "resource" failure)
          then format (" (" ∷ text_of (get "resource" failure) ∷ ")" ∷ [])
          else "")
      ∷ ": "
      ∷ text_or "deployment transaction failed" (get "message" failure)
      ∷ ". Nothing is reported as submitted."
      ∷ (if is_true (get "rolledBack" failure)
          then format (
              " "
              ∷ out.decimal (item_count (items_of (get "rolledBack" failure)))
              ∷ " resource(s) were rolled back."
              ∷ [])
          else "")
      ∷ (if is_true (get "survivors" failure)
          then format (
              " Resources that could not be deleted (rollback survivors): "
              ∷ resource_names (dicts_of (get "survivors" failure))
              ∷ "."
              ∷ [])
          else "")
      ∷ " (correlation id: "
      ∷ s.correlation_id
      ∷ ")"
      ∷ [])

  -- A transaction failure that the deployer names.
  unfoldable pub transaction_failed : GraphState → Fields → Done GraphState
  unfolding audit ended failure_text text_or get format
  transaction_failed s failure =
      let during = format (
        text_or "transaction" (get "phase" failure)
        ∷ ": "
        ∷ text_or "deployment transaction failed" (get "message" failure)
        ∷ []) in
      (
        ended s (append "deployer transaction failure during " during) default_suggestion
            (out.redact_model_response (failure_text s failure)),
        audit out s refuse_event [] (append "deployer reported transaction failure during " during)
            ∷ [],
      )

  unfoldable pub no_submission : GraphState → String → Done GraphState
  unfolding reject_out_of_contract
  no_submission s worker_text =
      reject_out_of_contract out s "deployer"
        "no contract submission report (expected {submitted: [ResourceRef...]}); nothing was submitted"
        worker_text

  unfoldable pub by_submitted : GraphState → Fields → String → Json → Done GraphState
  unfolding submitted read_resources no_submission get
  by_submitted s payload worker_text (arr xs) =
      submitted s (get "convergence" payload) worker_text (read_resources xs)
  by_submitted s payload worker_text _ = no_submission s worker_text

  unfoldable pub by_failed : GraphState → Fields → String → Json → Done GraphState
  unfolding transaction_failed by_submitted get
  by_failed s payload worker_text (obj failure) = transaction_failed s failure
  by_failed s payload worker_text _ = by_submitted s payload worker_text (get "submitted" payload)

  unfoldable pub submission_replied : GraphState → Option Fields × String → Done GraphState
  unfolding by_failed no_submission get
  submission_replied s (none, worker_text) = no_submission s worker_text
  submission_replied s (some payload, worker_text) =
      by_failed s payload worker_text (get "failed" payload)
