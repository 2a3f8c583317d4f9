-- ===== src/Supervisor.antt =====
-- agents/supervisors/provisioning/graph/graph.py, graph/shared.py and agents/common/audit.py: the state
-- of the provisioning graph, what its nodes do besides writing the state, and what they call.
pub mod Patterns
pub mod Detect
pub mod Wording
pub mod Questions
pub mod Contract
pub mod Refusal
pub mod Classify
pub mod Confirm
pub mod Entry
pub mod Mapping
pub mod Guard
pub mod Servable
pub mod Allocation
pub mod Rendering
pub mod Tools
pub mod Convergence
pub mod Submission
pub mod Deploying
pub mod Turn
pub mod Silent
pub mod Bounded
pub mod Steady
pub mod Working
pub mod Delivering
pub mod Submitting
pub mod Consent
pub mod Answers
pub mod Thread
pub mod Stale
pub mod Sound
pub mod Submittable
pub mod Preconditions
use agentic_netops.Capability.{SiteInventory, Srv6Capability}
use agentic_netops.Intent.{Cause, ServiceIntent, Surroundings}
use agentic_netops.Interpretation.{Interpretation}
use agentic_netops.Json.{Fields, Json, Python}
use agentic_netops.Prelude.{Bool, List, Option, String, [], ℕ, ◌++◌, ◌∷◌, ◌⊎◌}
use agentic_netops.Prelude.Regex.{Regex}

-- `NodeStates`, and the end of the graph
pub data Node : Type 0 where
  supervisor mapper allocator deployer reflection general_info finish : Node

-- `NetworkProvisioningStatus`
pub data WorkflowStatus : Type 0 where
  received_request validated mapped allocated approved provisioning : WorkflowStatus
  configured verified completed failed status_unknown : WorkflowStatus

-- `RequestClassification`
pub data RequestClassification : Type 0 where
  provisionable informational unsupported : RequestClassification

-- The values that the nodes give `pending_action`.
pub data Pending : Type 0 where
  confirm_1 confirm_2 confirm_remove clarify : Pending

-- The values that the nodes give `tool_action`.
pub data ToolAction : Type 0 where
  status_tool remove_tool : ToolAction

pub data Decided : Type 0 where
  confirm decline : Decided

-- `Decision`
pub record Decision : Type 0 where
  pub decided : Decided
  pub at : String
  pub principal : String

pub data Message : Type 0 where
  human assistant : String → Message

-- `GraphState`. Every text in JSON is kept as the text.
pub record GraphState : Type 0 where
  pub messages : List Message
  pub next_node : Node
  pub iteration_count : ℕ
  pub awaiting_confirmation : Bool
  pub mapped_parameters : Option String
  pub allocated_resources : Option String
  pub missing_fields : Option (List String)
  pub pending_action : Option Pending
  pub correlation_id : String
  pub workflow_status : WorkflowStatus
  pub claimed_ids : List Fields
  pub deadline : String
  pub principal : String
  pub confirmation_1 : Option Decision
  pub confirmation_2 : Option Decision
  pub refusal_reason : Option String
  pub suggestion : Option String
  pub classification : Option RequestClassification
  pub tool_action : Option ToolAction
  pub tool_request : Option String
  pub tool_result : Option String
  pub convergence : Option String
  pub submitted_resources : Option String
  pub submitted_correlation_id : Option String

pub data EventType : Type 0 where
  confirm_event decline_event submit_event refuse_event : EventType

-- `AuditEvent`
pub record AuditEvent : Type 0 where
  pub event_type : EventType
  pub correlation_id : String
  pub thread_id : String
  pub principal : String
  pub at : String
  pub resources : List Fields
  pub reason : String

pub data Worker : Type 0 where
  mapper_worker allocator_worker deployer_worker : Worker

-- What a node does besides writing the state.
pub data Effect : Type 0 where
  audited : AuditEvent → Effect
  called : Worker → String → Effect

-- One part of a worker's answer.
pub data Part : Type 0 where
  data_part : Fields → Part
  text_part : String → Part

-- The answer of a worker: `WorkerUnavailableError`, or its parts.
pub data WorkerReply : Type 0 where
  worker_unavailable : WorkerReply
  parts : List Part → WorkerReply

-- What one run of a node reads from outside the graph: the regular expressions of `re`; whether
-- the time that a deadline names has passed (`none` is a `ValueError`); the time, a fresh nonce and
-- the thread; the reply of the language model (`none` if the call raises); the redaction of
-- agents/common/redaction.py; the workers; `json.loads` (`none` where it raises), the text of its
-- error, compact `json.dumps` and `canonical_json`; pydantic's validation of a model, with the text
-- of its errors, and its writing of a model; the text of the causes of an intent; the capability
-- and the inventory of the site; the names in FABRIC_SPINE_NODES; a number in
-- decimal, the text before the first "<!--", and the first 400 characters of a text.
pub record Outside : Type 0 where
  pub regex : Regex
  pub expired : String → Option Bool
  pub now : String
  pub nonce : String
  pub thread_id : String
  pub model : String → Option String
  pub provider_unavailable : String
  pub redact_prompt : String → String
  pub redact_model_response : String → String
  pub redact_reason : String → String
  pub call : Worker → String → WorkerReply
  pub loads : String → Option Json
  pub loads_error : String → String
  pub dumps : Json → String
  pub canonical_json : Json → String
  pub validate_interpretation : Json → String ⊎ Interpretation
  pub validate_interpretation_json : String → String ⊎ Interpretation
  pub dump_interpretation : Interpretation → Fields
  pub validate_intent : Json → String ⊎ ServiceIntent
  pub dump_intent : ServiceIntent → Fields
  pub validate_resource : Json → String ⊎ Fields
  pub cause_text : List Cause → String
  pub surroundings : Surroundings
  pub capability : Srv6Capability
  pub inventory : SiteInventory
  pub spine_nodes : List String
  pub decimal : ℕ → String
  pub before_comment : String → String
  pub first_400 : String → String

-- What a node returns: the state with its writes merged in, and what it did.
abbrev pub Done : Type 0 → Type 0
Done A = A × List Effect

-- `add_messages`, for messages that are new
pub say : GraphState → String → List Message
say s text = s.messages ++ (assistant text ∷ [])

abbrev pub max_iterations : ℕ
max_iterations = 3

pub status_value : WorkflowStatus → String
status_value received_request = "RECEIVED_REQUEST"
status_value validated = "VALIDATED"
status_value mapped = "MAPPED"
status_value allocated = "ALLOCATED"
status_value approved = "APPROVED"
status_value provisioning = "PROVISIONING"
status_value configured = "CONFIGURED"
status_value verified = "VERIFIED"
status_value completed = "COMPLETED"
status_value failed = "FAILED"
status_value status_unknown = "STATUS_UNKNOWN"

pub class_value : RequestClassification → String
class_value provisionable = "provisionable"
class_value informational = "informational"
class_value unsupported = "unsupported"
