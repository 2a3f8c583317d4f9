-- ===== src/Supervisor/Working.antt =====
-- agents/supervisors/provisioning/graph/graph.py: `_mapper_node`, `_allocator_node` and `_deployer_node`
-- leave the decisions of the operator alone.
use agentic_netops.Intent.{ServiceIntent}
use agentic_netops.Interpretation.{Interpretation}
use agentic_netops.Json.{Fields}
use agentic_netops.Prelude.{
  Option, String, arith, has_text, if-Both, inl, inr, is_empty, none, not, refl, some, ◌&&◌, ◌⊎◌,
}
use agentic_netops.Supervisor.{GraphState, Outside, WorkerReply, parts, worker_unavailable}
use agentic_netops.Supervisor.Allocation.{
  after_allocator, allocate_mapped, allocate_stored, allocation_judged, allocation_ready,
  allocator_node, allocator_replied, call_allocator, no_interpretation,
}
use agentic_netops.Supervisor.Detect.{names_srv6}
use agentic_netops.Supervisor.Entry.{user_message}
use agentic_netops.Supervisor.Mapping.{
  after_mapper, call_mapper, clarification, guarded, interpretation_ready, interpreted, judged,
  map_message, mapper_node, mapper_replied,
}
use agentic_netops.Supervisor.Steady.{
  Steady, Waits, after-Steady, refuse-Steady, reject-Steady, told-Steady,
}
use agentic_netops.Supervisor.Contract.{wrap_user_text}
use agentic_netops.Supervisor.Patterns.{default_suggestion}
use agentic_netops.Supervisor.Wording.{srv6_r4_reason}

module _ (out : Outside) where
  interpretation_ready-Steady :
      (s : GraphState) (worker_text : String) (i : Interpretation)
      → Steady (Waits s) s (interpretation_ready out s worker_text i)
  unfolding interpretation_ready
  interpretation_ready-Steady s worker_text i = record {
    exit = tt;
    count = refl;
    first = refl;
    second = refl;
    approval = λ e. ground arith;
    awaits = λ e. ground arith;
  }

  clarification-Steady :
      (s : GraphState) (i : Interpretation) → Steady (Waits s) s (clarification out s i)
  unfolding clarification
  clarification-Steady s i = record {
    exit = tt;
    count = refl;
    first = refl;
    second = refl;
    approval = λ e. ground arith;
    awaits = λ e. ground arith;
  }

  guarded-Steady :
      (s : GraphState) (worker_text : String) (i : Interpretation) (why : Option String)
      → Steady (Waits s) s (guarded out s worker_text i why)
  unfolding guarded
  guarded-Steady s worker_text i none = interpretation_ready-Steady s worker_text i
  guarded-Steady s worker_text i (some why) = refuse-Steady out s _ _ _

  interpreted-Steady :
      (s : GraphState) (worker_text : String) (i : Interpretation)
      → Steady (Waits s) s (interpreted out s worker_text i)
  unfolding interpreted
  interpreted-Steady s worker_text i =
      if-Both (Steady (Waits s) s) (not (is_empty i.unsupported_properties))
        (refuse-Steady out s _ _ _)
        (if-Both (Steady (Waits s) s) (not (is_empty i.missing_fields)) (clarification-Steady s i)
          (guarded-Steady s worker_text i _))

  judged-Steady :
      (s : GraphState) (worker_text : String) (r : String ⊎ Interpretation)
      → Steady (Waits s) s (judged out s worker_text r)
  unfolding judged
  judged-Steady s worker_text (inl error) = reject-Steady out s _ _ _
  judged-Steady s worker_text (inr i) = interpreted-Steady s worker_text i

  mapper_replied-Steady :
      (s : GraphState) (r : Option Fields × String) → Steady (Waits s) s (mapper_replied out s r)
  unfolding mapper_replied
  mapper_replied-Steady s (payload, worker_text) = search judged-Steady

  after_mapper-Steady :
      (s : GraphState) (r : WorkerReply) → Steady (Waits s) s (after_mapper out s r)
  unfolding after_mapper
  after_mapper-Steady s worker_unavailable = told-Steady s _ (λ e. e)
  after_mapper-Steady s (parts ps) = search mapper_replied-Steady

  call_mapper-Steady :
      (s : GraphState) (fenced : String) → Steady (Waits s) s (call_mapper out s fenced)
  unfolding call_mapper
  call_mapper-Steady s fenced = search (after-Steady, after_mapper-Steady)

  map_message-Steady :
      (s : GraphState) (m : Option String) → Steady (Waits s) s (map_message out s m)
  unfolding map_message
  map_message-Steady s none = reject-Steady out s "mapper" "no user message to map" ""
  map_message-Steady s (some text) =
      if-Both (Steady (Waits s) s) (names_srv6 out.regex text && not out.capability.available)
        (refuse-Steady out s srv6_r4_reason default_suggestion "supervisor")
        (call_mapper-Steady s (wrap_user_text (out.redact_prompt text) out.nonce))

  pub mapper_node-Steady : (s : GraphState) → Steady (Waits s) s (mapper_node out s)
  unfolding mapper_node
  mapper_node-Steady s = map_message-Steady s (user_message s)

  allocation_ready-Steady :
      (s : GraphState) (worker_text : String) (intent : ServiceIntent)
      → Steady Unit s (allocation_ready out s worker_text intent)
  unfolding allocation_ready
  allocation_ready-Steady s worker_text intent = record {
    exit = tt;
    count = refl;
    first = refl;
    second = refl;
    approval = λ e. ground arith;
    awaits = λ e. tt;
  }

  allocation_judged-Steady :
      (s : GraphState) (worker_text : String) (r : String ⊎ ServiceIntent)
      → Steady Unit s (allocation_judged out s worker_text r)
  unfolding allocation_judged
  allocation_judged-Steady s worker_text (inl error) = reject-Steady out s _ _ _
  allocation_judged-Steady s worker_text (inr intent) = allocation_ready-Steady s worker_text intent

  allocator_replied-Steady :
      (s : GraphState) (i : Interpretation) (r : Option Fields × String)
      → Steady Unit s (allocator_replied out s i r)
  unfolding allocator_replied
  allocator_replied-Steady s i (payload, worker_text) = search allocation_judged-Steady

  after_allocator-Steady :
      (s : GraphState) (i : Interpretation) (r : WorkerReply)
      → Steady Unit s (after_allocator out s i r)
  unfolding after_allocator
  after_allocator-Steady s i worker_unavailable = told-Steady s _ (λ e. tt)
  after_allocator-Steady s i (parts ps) = search allocator_replied-Steady

  call_allocator-Steady :
      (s : GraphState) (i : Interpretation) (fenced : String)
      → Steady Unit s (call_allocator out s i fenced)
  unfolding call_allocator
  call_allocator-Steady s i fenced = search (after-Steady, after_allocator-Steady)

  allocate_stored-Steady :
      (s : GraphState) (mapped_ : String) (r : String ⊎ Interpretation)
      → Steady Unit s (allocate_stored out s mapped_ r)
  unfolding allocate_stored
  allocate_stored-Steady s mapped_ (inl error) = reject-Steady out s "allocator" _ ""
  allocate_stored-Steady s mapped_ (inr i) = call_allocator-Steady s i _

  no_interpretation-Steady : (s : GraphState) → Steady Unit s (no_interpretation out s)
  unfolding no_interpretation
  no_interpretation-Steady s =
      reject-Steady out s "allocator" "no interpretation available to allocate" ""

  allocate_mapped-Steady :
      (s : GraphState) (m : Option String) → Steady Unit s (allocate_mapped out s m)
  unfolding allocate_mapped
  allocate_mapped-Steady s none = no_interpretation-Steady s
  allocate_mapped-Steady s (some mapped_) =
      if-Both (Steady Unit s) (has_text mapped_) (search allocate_stored-Steady)
        (no_interpretation-Steady s)

  pub allocator_node-Steady : (s : GraphState) → Steady Unit s (allocator_node out s)
  unfolding allocator_node
  allocator_node-Steady s = allocate_mapped-Steady s s.mapped_parameters
