-- ===== src/Supervisor/Allocation.antt =====
-- agents/supervisors/provisioning/graph/graph.py: `_allocator_node`.
use agentic_netops.Intent.{ServiceIntent}
use agentic_netops.Interpretation.{Interpretation}
use agentic_netops.Json.{Fields, Json, obj, put, str}
use agentic_netops.Prelude.{
  Option, String, [], append, has_text, if◌then◌else◌, inl, inr, none, some, true, ◌⊎◌,
}
use agentic_netops.Prelude.Regex.{format}
use agentic_netops.Supervisor.{
  Done, GraphState, Outside, WorkerReply, allocated, allocator_worker, called, confirm_2, parts,
  reflection, say, worker_unavailable,
}
use agentic_netops.Supervisor.Contract.{
  extract_payload_and_text, summary_or, validate_allocator_payload, wrap_worker_text,
}
use agentic_netops.Supervisor.Mapping.{after, told}
use agentic_netops.Supervisor.Refusal.{reject_out_of_contract}

abbrev allocator_unavailable : String
allocator_unavailable =
    "The allocator worker is currently unavailable, so no identifiers were allocated and nothing was submitted. Please confirm again to retry — your thread is kept."

module _ (out : Outside) where
  -- The second confirmation point.
  unfoldable pub allocation_ready : GraphState → String → ServiceIntent → Done GraphState
  unfolding say summary_or
  allocation_ready s worker_text intent = (
    record s {
      next_node = reflection;
      workflow_status = allocated;
      allocated_resources = some (out.canonical_json (obj (out.dump_intent intent)));
      awaiting_confirmation = true;
      pending_action = some confirm_2;
      messages = say s (summary_or out "Allocation ready." worker_text);
    },
    [],
  )

  unfoldable pub allocation_judged : GraphState → String → String ⊎ ServiceIntent → Done GraphState
  unfolding reject_out_of_contract allocation_ready
  allocation_judged s worker_text (inl error) =
      reject_out_of_contract out s "allocator" error worker_text
  allocation_judged s worker_text (inr intent) = allocation_ready s worker_text intent

  unfoldable pub allocator_replied :
      GraphState → Interpretation → Option Fields × String → Done GraphState
  unfolding allocation_judged validate_allocator_payload
  allocator_replied s i (payload, worker_text) =
      allocation_judged s worker_text (validate_allocator_payload out payload i)

  unfoldable pub after_allocator : GraphState → Interpretation → WorkerReply → Done GraphState
  unfolding told allocator_replied extract_payload_and_text
  after_allocator s i worker_unavailable = told s allocator_unavailable
  after_allocator s i (parts ps) =
      allocator_replied s i (extract_payload_and_text out "DEPLOYMENT_JSON" ps)

  labelled_with : String → String → Option Json → String
  unfolding put
  labelled_with plain_ correlation_id (some (obj fs)) =
      out.dumps (obj (put "correlationId" (str correlation_id) fs))
  labelled_with plain_ correlation_id _ = plain_

  -- The interpretation with the correlation id of the thread inside.
  with_correlation : GraphState → String → String
  unfolding labelled_with
  with_correlation s mapped_ =
      if has_text s.correlation_id
      then labelled_with mapped_ s.correlation_id (out.loads mapped_)
      else mapped_

  unfoldable pub call_allocator : GraphState → Interpretation → String → Done GraphState
  unfolding after after_allocator
  call_allocator s i fenced =
      after (called allocator_worker fenced)
        (after_allocator s i (out.call allocator_worker fenced))

  unfoldable pub allocate_stored : GraphState → String → String ⊎ Interpretation → Done GraphState
  unfolding reject_out_of_contract call_allocator wrap_worker_text with_correlation format
  allocate_stored s mapped_ (inl error) =
      reject_out_of_contract out s "allocator" (append "stored interpretation invalid: " error) ""
  allocate_stored s mapped_ (inr i) =
      call_allocator s i
        (wrap_worker_text (out.redact_prompt (with_correlation s mapped_)) out.nonce)

  unfoldable pub no_interpretation : GraphState → Done GraphState
  unfolding reject_out_of_contract
  no_interpretation s =
      reject_out_of_contract out s "allocator" "no interpretation available to allocate" ""

  unfoldable pub allocate_mapped : GraphState → Option String → Done GraphState
  unfolding no_interpretation allocate_stored
  allocate_mapped s none = no_interpretation s
  allocate_mapped s (some mapped_) =
      if has_text mapped_
      then allocate_stored s mapped_ (out.validate_interpretation_json mapped_)
      else no_interpretation s

  -- `_allocator_node`
  unfoldable pub allocator_node : GraphState → Done GraphState
  unfolding allocate_mapped
  allocator_node s = allocate_mapped s s.mapped_parameters
