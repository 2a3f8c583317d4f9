-- ===== src/Deployer.antt =====
-- agents/provisioning/deployer: submission of translated manifests. This file has what the phases of
-- a deployment share: references, errors, the request's context and the cluster's interface.
pub mod Manifest
pub mod Order
pub mod Preflight
pub mod Apply
pub mod Watch
pub mod Transaction
pub mod Status
pub mod Verdicts
pub mod Outcomes
pub mod Survivors
pub mod Rollback
pub mod Untouched
pub mod Stamped
pub mod Accepted
pub mod Bindings
pub mod Free
pub mod Held
pub mod Exclusive
pub mod Requests
pub mod Client
pub mod Complete
use agentic_netops.Prelude.{
  ℕ, ◌+◌, String, Bool, true, false, Option, none, some, List, [], ◌∷◌, ◌&&◌, ◌||◌, not, ◌==◌, leb,
  str_eq, has_text, if◌then◌else◌,
}
use agentic_netops.Prelude.Text.{strip}
use agentic_netops.Json.{Json, Fields}

-- agents/common/schemas/refs.py: `ResourceRef`
pub record ResourceRef : Type 0 where
  pub api_version : String
  pub kind : String
  pub namespace : String
  pub name : String
  pub uid : Option String
  pub ready : Option Bool

pub data Phase : Type 0 where
  request_validation translation manifest_validation pre_flight dry_run apply_phase rollback_phase :
      Phase

-- What an error's message says, with the values that it quotes.
pub data Reason : Type 0 where
  bad_correlation_id thread_required principal_required bad_intent : Reason
  intent_not_object context_not_object : Reason
  context_missing : List String → Reason
  translator_failed translator_rejected : Reason
  not_an_object outside_allow_list metadata_not_object bad_name spec_not_object : Reason
  duplicate_resource labels_not_objects empty_bundle : Reason
  networks_unreadable : String → Reason
  port_bound : String → String → String → String → Reason
  api_failed : String → Reason
  rollback_incomplete : String → Reason
  rollback_failed : String → Reason
  rollback_unreadable : String → Reason

-- `DeploymentTransactionError`. The resource is the kind and the name that its text joins.
pub record TransactionError : Type 0 where
  pub phase : Phase
  pub reason : Reason
  pub resource : Option (Json × Json)
  pub rolled_back : List ResourceRef
  pub survivors : List ResourceRef

-- A call returns, raises a `DeploymentTransactionError`, or raises another exception.
pub data Outcome (A : Type 0) : Type 0 where
  ok : A → Outcome A
  failed : TransactionError → Outcome A
  crashed : Outcome A

-- The reply of the cluster's API: a value, or an exception with its text.
pub data Reply (A : Type 0) : Type 0 where
  answer : A → Reply A
  raised : String → Reply A

-- The interface `IntentAPI`, over an abstract cluster.
pub record IntentApi (C : Type 0) : Type 0 where
  pub dry_run_apply : Fields → C → Reply Fields × C
  pub apply : Fields → C → Reply Fields × C
  pub get : ResourceRef → C → Reply (Option Fields) × C
  pub list_by_correlation : String → C → Reply (List Fields) × C
  pub list_networks : C → Reply (List Fields) × C
  pub delete : ResourceRef → C → Reply Bool × C

pub record Context : Type 0 where
  pub correlation_id : String
  pub thread_id : String
  pub principal : String

abbrev pub plain_error : Phase → Reason → Option (Json × Json) → TransactionError
plain_error phase reason resource = record {
  phase = phase;
  reason = reason;
  resource = resource;
  rolled_back = [];
  survivors = [];
}

abbrev pub intent_namespace : String
intent_namespace = "agentic-netops-intent"

abbrev pub correlation_label : String
correlation_label = "agentic-netops.io/correlation-id"
