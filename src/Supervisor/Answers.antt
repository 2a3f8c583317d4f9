-- ===== src/Supervisor/Answers.antt =====
-- agents/supervisors/provisioning/graph/graph.py: the operator's answers and the routing of
-- `_supervisor_node`, and the decisions that they record.
use agentic_netops.Json.{Python}
use agentic_netops.Prelude.{
  List, Option, String, [], arith, if-Both, leb, length, none, not, refl, some, ◌&&◌, ◌≡◌,
}
use agentic_netops.Supervisor.{
  Decided, Done, Effect, GraphState, Outside, Pending, clarify, confirm, confirm_1, confirm_2,
  confirm_remove, decline, failed, finish, max_iterations,
}
use agentic_netops.Supervisor.Classify.{classify_and_route}
use agentic_netops.Supervisor.Confirm.{
  answer_pending, ask_again, decision, declined, first_confirmed, first_declined, reading,
  removal_confirmed, removal_declined, restated, second_confirmed, second_declined, take_answer,
}
use agentic_netops.Supervisor.Consent.{
  Consented, Consenting, bounded_exit-Consenting, classify_and_route-Consenting, ended-Consenting,
  kept, refuse-Consenting, removal_turn-Consenting, start_provisioning-Consenting,
  tool_turn-Consenting, unwaiting,
}
use agentic_netops.Supervisor.Detect.{
  DetectionHit, detect_deployment_status_query, detect_provisioning_request, find_constructs,
}
use agentic_netops.Supervisor.Entry.{
  answer_message, asks_outcome, awaited, by_correlation, by_detectors, by_outcome, by_removal,
  by_status, fresh_request, supervisor_node, user_message,
}
use agentic_netops.Supervisor.Refusal.{deadline_exceeded, ended}
use agentic_netops.Supervisor.Steady.{Waits}
use agentic_netops.Prelude.Text.{lower, strip}

module _ (out : Outside) where
  removal_confirmed-Consenting :
      (s : GraphState) → Consented s → Consenting (removal_confirmed out s)
  unfolding removal_confirmed
  removal_confirmed-Consenting s h =
      kept s _ _ h refl refl refl (λ e. ground arith) (λ e. ground arith)

  first_confirmed-Consenting : (s : GraphState) → Consented s → Consenting (first_confirmed out s)
  unfolding first_confirmed decision
  first_confirmed-Consenting s h = record {
    consented = record { asked = λ e. refl; approval = λ e. (refl, (h.approval e).1) };
    allocation = λ e. refl;
  }

  -- The approval needs the first decision, which the wait for the second one rests on.
  second_confirmed-Consenting :
      (s : GraphState) → Consented s → Waits s → Consenting (second_confirmed out s)
  unfolding second_confirmed decision
  second_confirmed-Consenting s h w = record {
    consented = record { asked = λ e. h.asked w; approval = λ e. (h.asked w, refl) };
    allocation = λ e. ground arith;
  }

  declined-Consenting :
      (s t : GraphState) (es : List Effect)
      → t.pending_action ≡ none
      → t.workflow_status ≡ failed
      → t.next_node ≡ finish
      → Consenting (t, es)
  declined-Consenting s t es p w n =
      unwaiting t es (λ e. ground arith) (λ e. ground arith) (λ e. ground arith)

  removal_declined-Consenting : (s : GraphState) → Consenting (removal_declined out s)
  unfolding removal_declined
  removal_declined-Consenting s = search ended-Consenting

  first_declined-Consenting : (s : GraphState) → Consenting (first_declined out s)
  unfolding first_declined declined ended
  first_declined-Consenting s = declined-Consenting s _ _ refl refl refl

  second_declined-Consenting : (s : GraphState) → Consenting (second_declined out s)
  unfolding second_declined declined ended
  second_declined-Consenting s = declined-Consenting s _ _ refl refl refl

  restated-Consenting : (d : Done GraphState) → Consenting d → Consenting (restated out d)
  unfolding restated
  restated-Consenting (t, es) h = record {
    consented = record { asked = λ e. ground arith; approval = h.consented.approval };
    allocation = h.allocation;
  }

  take_answer-Consenting :
      (s : GraphState) (on_confirm on_decline : Done GraphState) (d : Option Decided)
      → Consented s
      → Consenting on_confirm
      → Consenting on_decline
      → Consenting (take_answer out s on_confirm on_decline d)
  unfolding take_answer ask_again
  take_answer-Consenting s on_confirm on_decline (some confirm) h k l = k
  take_answer-Consenting s on_confirm on_decline (some decline) h k l = l
  take_answer-Consenting s on_confirm on_decline none h k l =
      kept s _ [] h refl refl refl (λ e. e) (λ e. ground arith)

  answer_pending-Consenting :
      (s : GraphState) (text low : String) (fresh : Done GraphState) (p : Option Pending)
      → Consented s
      → (p ≡ some confirm_2 → Waits s)
      → Consenting fresh
      → Consenting (answer_pending out s text low fresh p)
  unfolding answer_pending
  answer_pending-Consenting s text low fresh none h w k = k
  answer_pending-Consenting s text low fresh (some clarify) h w k =
      restated-Consenting (classify_and_route out s text)
        (classify_and_route-Consenting out s text h)
  answer_pending-Consenting s text low fresh (some confirm_remove) h w k =
      take_answer-Consenting s (removal_confirmed out s) (removal_declined out s) (reading low) h
        (removal_confirmed-Consenting s h) (removal_declined-Consenting s)
  answer_pending-Consenting s text low fresh (some confirm_1) h w k =
      take_answer-Consenting s (first_confirmed out s) (first_declined out s) (reading low) h
        (first_confirmed-Consenting s h) (first_declined-Consenting s)
  answer_pending-Consenting s text low fresh (some confirm_2) h w k =
      take_answer-Consenting s (second_confirmed out s) (second_declined out s) (reading low) h
        (second_confirmed-Consenting s h (w refl)) (second_declined-Consenting s)

-- What is awaited is pending.
awaited-Waits : (s : GraphState) → awaited s ≡ some confirm_2 → Waits s
unfolding awaited
awaited-Waits s e = ground arith

module _ ⦃py : Python⦄ (out : Outside) where
  by_detectors-Consenting :
      (s : GraphState) (text : String) (d u : Option DetectionHit)
      → Consented s
      → Consenting (by_detectors out s text d u)
  unfolding by_detectors
  by_detectors-Consenting s text (some hit) u h = refuse-Consenting out s _ _ "supervisor"
  by_detectors-Consenting s text none (some hit) h = refuse-Consenting out s _ _ "supervisor"
  by_detectors-Consenting s text none none h =
      if-Both Consenting
        (detect_provisioning_request out.regex text
          && detect_deployment_status_query out.regex text)
        (start_provisioning-Consenting s) (classify_and_route-Consenting out s text h)

  by_correlation-Consenting :
      (s : GraphState) (text : String) (cid : Option String)
      → Consented s
      → Consenting (by_correlation out s text cid)
  unfolding by_correlation fresh_request
  by_correlation-Consenting s text (some cid) h = removal_turn-Consenting s _ h
  by_correlation-Consenting s text none h =
      answer_pending-Consenting out s text (strip (lower text)) (fresh_request out s text)
        (awaited s) h (awaited-Waits s) (search (by_detectors-Consenting, h))

  by_removal-Consenting :
      (s : GraphState) (text : String) (sid : Option String)
      → Consented s
      → Consenting (by_removal out s text sid)
  unfolding by_removal
  by_removal-Consenting s text (some sid) h = removal_turn-Consenting s _ h
  by_removal-Consenting s text none h = search (by_correlation-Consenting, h)

  by_status-Consenting :
      (s : GraphState) (text : String) (sid : Option String)
      → Consented s
      → Consenting (by_status out s text sid)
  unfolding by_status
  by_status-Consenting s text (some sid) h = tool_turn-Consenting s _ h
  by_status-Consenting s text none h = search (by_removal-Consenting, h)

  by_outcome-Consenting :
      (s : GraphState) (text : String) → Consented s → Consenting (by_outcome out s text)
  unfolding by_outcome
  by_outcome-Consenting s text h =
      if-Both Consenting (asks_outcome out s text) (tool_turn-Consenting s _ h)
        (search (by_status-Consenting, h))

  answer_message-Consenting :
      (s : GraphState) (message : Option String)
      → Consented s
      → Consenting (answer_message out s message)
  unfolding answer_message
  answer_message-Consenting s none h = kept s _ [] h refl refl refl (λ e. e) (λ e. ground arith)
  answer_message-Consenting s (some text) h =
      if-Both Consenting (leb 2 (length (find_constructs out.regex text)))
        (refuse-Consenting out s _ _ _) (by_outcome-Consenting s text h)

  pub supervisor_node-Consenting :
      (s : GraphState) → Consented s → Consenting (supervisor_node out s)
  unfolding supervisor_node
  supervisor_node-Consenting s h =
      if-Both Consenting (deadline_exceeded out s) (bounded_exit-Consenting out s _) (
        if-Both Consenting (not s.awaiting_confirmation && leb max_iterations s.iteration_count)
          (bounded_exit-Consenting out s _) (answer_message-Consenting s (user_message s) h))
