-- ===== src/Supervisor/Thread.antt =====
-- agents/supervisors/provisioning/graph/graph.py and main.py: a thread, which is turn after turn of the
-- graph on one checkpointed state, and the decisions that hold at every point of it.
use agentic_netops.Json.{Python}
use agentic_netops.Prelude.{
  Option, String, [], arith, if-Both, leb, none, refl, some, subst, sym, ◌≡◌, ◌≢◌,
}
use agentic_netops.Supervisor.{
  Done, GraphState, Node, Outside, Pending, WorkflowStatus, allocated, allocator, approved, clarify,
  completed, configured, confirm_1, confirm_2, confirm_remove, deployer, failed, finish,
  general_info, mapped, mapper, max_iterations, provisioning, received_request, reflection,
  status_unknown, supervisor, validated, verified,
}
use agentic_netops.Supervisor.Answers.{supervisor_node-Consenting}
use agentic_netops.Supervisor.Consent.{Agreed, Consented, Consenting, bounded_exit-Consenting, kept}
use agentic_netops.Supervisor.Entry.{awaited}
use agentic_netops.Supervisor.Refusal.{deadline_exceeded}
use agentic_netops.Supervisor.Steady.{IsExit, Steady}
use agentic_netops.Supervisor.Submitting.{deployer_node-Steady}
use agentic_netops.Supervisor.Turn.{
  asked_question, edge, failed_or_reflection, general_response_node, is_terminal, kept_status,
  loop_or_end, reflect, reflection_node, run_node, seeded,
}
use agentic_netops.Supervisor.Working.{allocator_node-Steady, mapper_node-Steady}

-- The state of a thread on which nothing has run.
pub record IsFresh (s : GraphState) : Type 0 where
  pub nothing_pending : s.pending_action ≡ none
  pub nothing_approved : s.workflow_status ≡ received_request

-- The nodes and states that a thread comes to: a turn begins where the last one ended, and a node
-- runs with whatever it reads from outside.
pub data Reaches ⦃py : Python⦄ : Node → GraphState → Type 0 where
  fresh : (s : GraphState) → IsFresh s → Reaches finish s
  begin :
      {s : GraphState} (prompt correlation_id principal deadline : String)
      → Reaches finish s
      → Reaches supervisor (seeded prompt correlation_id principal deadline s)
  run :
      {node : Node} {s : GraphState} (out : Outside)
      → Reaches node s
      → Reaches (edge node (run_node out node s).0) (run_node out node s).0

pub record Holds (node : Node) (s : GraphState) : Type 0 where
  pub consented : Consented s
  pub allocation : node ≡ allocator → Agreed s.confirmation_1

-- A node that calls a worker leaves such a state, if the decision is there that it rests on.
settled :
    {Q : Type 0} (s : GraphState) (d : Done GraphState)
    → (Q → Agreed s.confirmation_1)
    → Consented s
    → Steady Q s d
    → Consented d.0
settled s d q h k = record {
  asked = λ e. subst Agreed (sym k.first) (q (k.awaits e));
  approval = λ e.
      let both = h.approval (k.approval e) in
      (subst Agreed (sym k.first) both.0, subst Agreed (sym k.second) both.1);
}

exit-ne-allocator : (n : Node) → IsExit n → n ≢ allocator
exit-ne-allocator finish h e = ground arith
exit-ne-allocator reflection h e = ground arith
exit-ne-allocator supervisor h e = h
exit-ne-allocator mapper h e = h
exit-ne-allocator allocator h e = h
exit-ne-allocator deployer h e = h
exit-ne-allocator general_info h e = h

failed_or_reflection-ne-allocator : (w : WorkflowStatus) → failed_or_reflection w ≢ allocator
unfolding failed_or_reflection
failed_or_reflection-ne-allocator failed e = ground arith
failed_or_reflection-ne-allocator received_request e = ground arith
failed_or_reflection-ne-allocator validated e = ground arith
failed_or_reflection-ne-allocator mapped e = ground arith
failed_or_reflection-ne-allocator allocated e = ground arith
failed_or_reflection-ne-allocator approved e = ground arith
failed_or_reflection-ne-allocator provisioning e = ground arith
failed_or_reflection-ne-allocator configured e = ground arith
failed_or_reflection-ne-allocator verified e = ground arith
failed_or_reflection-ne-allocator completed e = ground arith
failed_or_reflection-ne-allocator status_unknown e = ground arith

kept_status-approved : (w : WorkflowStatus) → kept_status w ≡ approved → w ≡ approved
unfolding kept_status
kept_status-approved w e = ground arith

module _ (out : Outside) where
  loop_or_end-Consenting : (s : GraphState) → Consented s → Consenting (loop_or_end out s)
  unfolding loop_or_end
  loop_or_end-Consenting s h =
      if-Both Consenting (is_terminal s.workflow_status)
        (kept s _ [] h refl refl refl (λ e. e) (λ e. ground arith))
        (if-Both Consenting (deadline_exceeded out s) (bounded_exit-Consenting out s _) (
          if-Both Consenting (leb max_iterations s.iteration_count)
            (bounded_exit-Consenting out s _)
            (kept s _ [] h refl refl refl (λ e. e) (λ e. ground arith))))

  reflect-Consenting :
      (s : GraphState) (p : Option Pending) → Consented s → Consenting (reflect out s p)
  unfolding reflect asked_question
  reflect-Consenting s (some confirm_1) h =
      kept s _ [] h refl refl refl (λ e. e) (λ e. ground arith)
  reflect-Consenting s (some confirm_2) h =
      kept s _ [] h refl refl refl (λ e. e) (λ e. ground arith)
  reflect-Consenting s (some clarify) h = kept s _ [] h refl refl refl (λ e. e) (λ e. ground arith)
  reflect-Consenting s (some confirm_remove) h = loop_or_end-Consenting s h
  reflect-Consenting s none h = loop_or_end-Consenting s h

  reflection_node-Consenting : (s : GraphState) → Consented s → Consenting (reflection_node out s)
  unfolding reflection_node
  reflection_node-Consenting s h = reflect-Consenting s (awaited s) h

general_response_node-Consented :
    (s : GraphState) → Consented s → Consented (general_response_node s).0
unfolding general_response_node
general_response_node-Consented s h = record {
  asked = h.asked;
  approval = λ e. h.approval (kept_status-approved s.workflow_status e);
}

module _ ⦃py : Python⦄ where
  run_node-Holds :
      (out : Outside) (node : Node) (s : GraphState)
      → Holds node s
      → Holds (edge node (run_node out node s).0) (run_node out node s).0
  unfolding run_node edge
  run_node-Holds out supervisor s h =
      let k = supervisor_node-Consenting out s h.consented in
      record { consented = k.consented; allocation = k.allocation }
  run_node-Holds out mapper s h = record {
    consented = settled s _ h.consented.asked h.consented (mapper_node-Steady out s);
    allocation = λ e. absurd (failed_or_reflection-ne-allocator _ e);
  }
  run_node-Holds out allocator s h = record {
    consented = settled s _ (λ u. h.allocation refl) h.consented (allocator_node-Steady out s);
    allocation = λ e. absurd (failed_or_reflection-ne-allocator _ e);
  }
  run_node-Holds out deployer s h =
      let k = deployer_node-Steady out s in
      record {
        consented = settled s _ h.consented.asked h.consented k;
        allocation = λ e. absurd (exit-ne-allocator _ k.exit e);
      }
  run_node-Holds out reflection s h =
      let k = reflection_node-Consenting out s h.consented in
      record { consented = k.consented; allocation = k.allocation }
  run_node-Holds out general_info s h = record {
    consented = general_response_node-Consented s h.consented;
    allocation = λ e. ground arith;
  }
  run_node-Holds out finish s h = record { consented = h.consented; allocation = λ e. ground arith }

  -- At every point that a thread comes to, whatever the workers, the model and the operator said
  -- before, the wait for the second confirmation rests on a recorded first one, an approval rests on
  -- both recorded decisions to confirm, and the allocator runs only with the first decision recorded.
  pub Reaches-Holds : {node : Node} {s : GraphState} → Reaches node s → Holds node s
  unfolding seeded
  Reaches-Holds (fresh s h) = record {
    consented = record {
      asked = λ e. absurd (ground (arith, h.nothing_pending));
      approval = λ e. absurd (ground (arith, h.nothing_approved));
    };
    allocation = λ e. ground arith;
  }
  Reaches-Holds (begin prompt correlation_id principal deadline r) =
      let h = Reaches-Holds r in
      record {
        consented = record { asked = h.consented.asked; approval = λ e. ground arith };
        allocation = λ e. ground arith;
      }
  Reaches-Holds (run {node = node} {s = s} out r) = run_node-Holds out node s (Reaches-Holds r)
