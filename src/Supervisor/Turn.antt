-- ===== src/Supervisor/Turn.antt =====
-- agents/supervisors/provisioning/graph/graph.py: `_general_response_node`, `_reflection_node` and the
-- edges of `build_graph`; agents/supervisors/provisioning/main.py: the state that a turn starts with.
use agentic_netops.Json.{Python}
use agentic_netops.Prelude.{
  Bool, List, Option, String, [], false, has_text?, if◌then◌else◌, leb, none, some, suc, true, zero,
  ℕ, ◌++◌, ◌+◌, ◌∷◌,
}
use agentic_netops.Prelude.Regex.{format}
use agentic_netops.Supervisor.{
  Done, Effect, GraphState, Node, Outside, Pending, WorkflowStatus, allocated, allocator, approved,
  clarify, completed, confirm_1, confirm_2, deployer, failed, finish, general_info, human, mapped,
  mapper, max_iterations, provisioning, received_request, reflection, say, status_value, supervisor,
}
use agentic_netops.Supervisor.Allocation.{allocator_node}
use agentic_netops.Supervisor.Deploying.{deployer_node}
use agentic_netops.Supervisor.Entry.{awaited, supervisor_node}
use agentic_netops.Supervisor.Mapping.{mapper_node}
use agentic_netops.Supervisor.Refusal.{bounded_exit, deadline_exceeded}

abbrev capability_text : String
capability_text =
    "I provision declarative network services on the SONiC EVPN/VXLAN fabric: vlan (local L2), mac-vrf (L2 over EVPN), ip-vrf (routed instance) and acl (filter bound to service ports), each between two or more attachment points for a named tenant. "

-- The status that a general answer leaves.
unfoldable pub kept_status : WorkflowStatus → WorkflowStatus
kept_status failed = failed
kept_status provisioning = provisioning
kept_status mapped = mapped
kept_status allocated = allocated
kept_status approved = approved
kept_status _ = completed

in_flight_text : WorkflowStatus → Option String → String
in_flight_text provisioning submitted_ =
    if has_text? submitted_
    then " A submission on this thread is still converging; ask \"what is the status of the deployment?\" and I will resolve its condition from the cluster."
    else ""
in_flight_text _ submitted_ = ""

-- `_general_response_node`
unfoldable pub general_response_node : GraphState → Done GraphState
unfolding kept_status in_flight_text say format status_value
general_response_node s = (
  record s {
    workflow_status = kept_status s.workflow_status;
    messages = say s (
        format (
          capability_text
          ∷ "The current status of this request thread is "
          ∷ status_value s.workflow_status
          ∷ ". I never act directly on devices: every change flows through declarative service "
          ∷ "intent and the two-confirmation pipeline."
          ∷ in_flight_text s.workflow_status s.submitted_resources
          ∷ []));
  },
  [],
)

unfoldable pub is_terminal : WorkflowStatus → Bool
is_terminal failed = true
is_terminal completed = true
is_terminal _ = false

abbrev confirm_1_question : String
confirm_1_question =
    "Confirm this interpretation? Reply 'confirm' to proceed to allocation, or 'decline' to cancel."

abbrev confirm_2_question : String
confirm_2_question =
    "Deploy this service? Reply 'confirm' to submit it to the cluster, or 'decline' to cancel (any claimed identifiers will be released)."

unfoldable pub asked_question : GraphState → String → Done GraphState
unfolding say
asked_question s question = (record s { next_node = finish; messages = say s question }, [])

module _ (out : Outside) where
  unfoldable pub loop_or_end : GraphState → Done GraphState
  unfolding is_terminal deadline_exceeded bounded_exit
  loop_or_end s =
      if is_terminal s.workflow_status
      then (record s { next_node = finish }, [])
      else if deadline_exceeded out s
      then bounded_exit out s "wall-clock deadline exceeded"
      else if leb max_iterations s.iteration_count
      then bounded_exit out s "iteration bound 3 reached"
      else (record s { next_node = supervisor; iteration_count = s.iteration_count + 1 }, [])

  unfoldable pub reflect : GraphState → Option Pending → Done GraphState
  unfolding asked_question loop_or_end
  reflect s (some confirm_1) = asked_question s confirm_1_question
  reflect s (some confirm_2) = asked_question s confirm_2_question
  reflect s (some clarify) = (record s { next_node = finish }, [])
  reflect s _ = loop_or_end s

  -- `_reflection_node`
  unfoldable pub reflection_node : GraphState → Done GraphState
  unfolding reflect awaited
  reflection_node s = reflect s (awaited s)

-- `_failed_or_reflection`
unfoldable pub failed_or_reflection : WorkflowStatus → Node
failed_or_reflection failed = finish
failed_or_reflection _ = reflection

-- The edges of `build_graph`: where a node's state goes next.
unfoldable pub edge : Node → GraphState → Node
unfolding failed_or_reflection
edge supervisor s = s.next_node
edge mapper s = failed_or_reflection s.workflow_status
edge allocator s = failed_or_reflection s.workflow_status
edge deployer s = s.next_node
edge reflection s = s.next_node
edge general_info s = finish
edge finish s = finish

module _ ⦃py : Python⦄ where
  -- One run of a node.
  unfoldable pub run_node : Outside → Node → GraphState → Done GraphState
  unfolding supervisor_node mapper_node allocator_node deployer_node reflection_node
      general_response_node
  run_node out supervisor s = supervisor_node out s
  run_node out mapper s = mapper_node out s
  run_node out allocator s = allocator_node out s
  run_node out deployer s = deployer_node out s
  run_node out reflection s = reflection_node out s
  run_node out general_info s = general_response_node s
  run_node out finish s = (s, [])

  unfoldable pub joined : List Effect → Option (Done GraphState) → Option (Done GraphState)
  joined es none = none
  joined es (some (s, later)) = some (s, es ++ later)

  -- At most so many runs of nodes, each with what it reads from outside; `none` if the end is not
  -- reached with them.
  unfoldable pub turn : ℕ → (ℕ → Outside) → Node → GraphState → Option (Done GraphState)
  unfolding run_node edge joined
  turn n outs finish s = some (s, [])
  turn zero outs node s = none
  turn (suc n) outs node s =
      let done = run_node (outs n) node s in joined done.1 (turn n outs (edge node done.0) done.0)

-- The state of a thread with the seed of a new turn written into it.
unfoldable pub seeded : String → String → String → String → GraphState → GraphState
seeded prompt correlation_id principal deadline s = record s {
  messages = s.messages ++ (human prompt ∷ []);
  correlation_id = correlation_id;
  principal = principal;
  workflow_status = received_request;
  deadline = deadline;
}
