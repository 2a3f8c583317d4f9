-- ===== src/Supervisor/Silent.antt =====
-- agents/supervisors/provisioning/graph/graph.py: what `_supervisor_node` does on every message.
use agentic_netops.Json.{Python}
use agentic_netops.Prelude.{
  List, Option, String, [], if-Both, leb, length, none, not, refl, some, ◌&&◌, ◌∷◌, ◌≡◌,
}
use agentic_netops.Supervisor.{
  Decided, Done, Effect, GraphState, Node, Outside, Pending, RequestClassification, audited, called,
  clarify, confirm, confirm_1, confirm_2, confirm_remove, decline, informational, max_iterations,
  provisionable, reflection, supervisor, unsupported,
}
use agentic_netops.Supervisor.Classify.{
  after_model, by_class, by_fallback, classify_and_route, informed, start_provisioning,
}
use agentic_netops.Supervisor.Confirm.{
  answer_pending, ask_again, declined, first_confirmed, first_declined, reading, removal_confirmed,
  removal_declined, restated, second_confirmed, second_declined, take_answer,
}
use agentic_netops.Supervisor.Detect.{
  DetectionHit, detect_deployment_status_query, detect_provisioning_request, find_constructs,
}
use agentic_netops.Supervisor.Entry.{
  answer_message, asks_outcome, by_correlation, by_detectors, by_outcome, by_removal, by_status,
  fresh_request, removal_turn, supervisor_node, tool_turn, user_message,
}
use agentic_netops.Supervisor.Refusal.{audit, bounded_exit, deadline_exceeded, ended, refuse}

-- Only audit events.
abbrev pub Audits : List Effect → Type 0
Audits [] = Unit
Audits (audited e ∷ es) = Audits es
Audits (called w text ∷ es) = ⊥

-- The nodes that the edges after the supervisor lead to.
abbrev pub IsRoute : Node → Type 0
IsRoute supervisor = ⊥
IsRoute reflection = ⊥
IsRoute _ = Unit

pub record Silent (s : GraphState) (d : Done GraphState) : Type 0 where
  pub route : IsRoute d.0.next_node
  pub count : d.0.iteration_count ≡ s.iteration_count
  pub audits : Audits d.1

start_provisioning-Silent : (s : GraphState) → Silent s (start_provisioning s, [])
unfolding start_provisioning
start_provisioning-Silent s = record { route = tt; count = refl; audits = tt }

tool_turn-Silent : (s : GraphState) (req : String) → Silent s (tool_turn s req)
unfolding tool_turn
tool_turn-Silent s req = record { route = tt; count = refl; audits = tt }

module _ (out : Outside) where
  refuse-Silent :
      (s : GraphState) (reason advice stage : String) → Silent s (refuse out s reason advice stage)
  unfolding refuse audit ended
  refuse-Silent s reason advice stage = record { route = tt; count = refl; audits = tt }

  bounded_exit-Silent : (s : GraphState) (why : String) → Silent s (bounded_exit out s why)
  unfolding bounded_exit audit ended
  bounded_exit-Silent s why = record { route = tt; count = refl; audits = tt }

  by_class-Silent :
      (s : GraphState) (c : Option RequestClassification) → Silent s (by_class out s c)
  unfolding by_class start_provisioning informed refuse audit ended
  by_class-Silent s (some provisionable) = record { route = tt; count = refl; audits = tt }
  by_class-Silent s (some informational) = record { route = tt; count = refl; audits = tt }
  by_class-Silent s (some unsupported) = record { route = tt; count = refl; audits = tt }
  by_class-Silent s none = record { route = tt; count = refl; audits = tt }

  by_fallback-Silent :
      (s : GraphState) (c : Option RequestClassification) → Silent s (by_fallback out s c)
  unfolding by_fallback start_provisioning informed
  by_fallback-Silent s (some provisionable) = record { route = tt; count = refl; audits = tt }
  by_fallback-Silent s (some informational) = record { route = tt; count = refl; audits = tt }
  by_fallback-Silent s (some unsupported) = record { route = tt; count = refl; audits = tt }
  by_fallback-Silent s none = record { route = tt; count = refl; audits = tt }

  after_model-Silent :
      (s : GraphState) (text : String) (reply : Option String)
      → Silent s (after_model out s text reply)
  unfolding after_model
  after_model-Silent s text none = search by_fallback-Silent
  after_model-Silent s text (some content) = search by_class-Silent

  classify_and_route-Silent :
      (s : GraphState) (text : String) → Silent s (classify_and_route out s text)
  unfolding classify_and_route
  classify_and_route-Silent s text = search after_model-Silent

  restated-Silent : (s : GraphState) (d : Done GraphState) → Silent s d → Silent s (restated out d)
  unfolding restated
  restated-Silent s (t, es) h = record { route = h.route; count = h.count; audits = h.audits }

  take_answer-Silent :
      (s : GraphState) (on_confirm on_decline : Done GraphState) (d : Option Decided)
      → Silent s on_confirm
      → Silent s on_decline
      → Silent s (take_answer out s on_confirm on_decline d)
  unfolding take_answer ask_again
  take_answer-Silent s on_confirm on_decline (some confirm) h k = h
  take_answer-Silent s on_confirm on_decline (some decline) h k = k
  take_answer-Silent s on_confirm on_decline none h k = record {
    route = tt;
    count = refl;
    audits = tt;
  }

  answer_pending-Silent :
      (s : GraphState) (text low : String) (fresh : Done GraphState) (p : Option Pending)
      → Silent s fresh
      → Silent s (answer_pending out s text low fresh p)
  unfolding answer_pending removal_confirmed removal_declined first_confirmed first_declined
      second_confirmed second_declined declined ended audit
  answer_pending-Silent s text low fresh none h = h
  answer_pending-Silent s text low fresh (some clarify) h =
      restated-Silent s (classify_and_route out s text) (classify_and_route-Silent s text)
  answer_pending-Silent s text low fresh (some confirm_remove) h =
      take_answer-Silent s (removal_confirmed out s) (removal_declined out s) (reading low)
        (record { route = tt; count = refl; audits = tt })
        (record { route = tt; count = refl; audits = tt })
  answer_pending-Silent s text low fresh (some confirm_1) h =
      take_answer-Silent s (first_confirmed out s) (first_declined out s) (reading low)
        (record { route = tt; count = refl; audits = tt })
        (record { route = tt; count = refl; audits = tt })
  answer_pending-Silent s text low fresh (some confirm_2) h =
      take_answer-Silent s (second_confirmed out s) (second_declined out s) (reading low)
        (record { route = tt; count = refl; audits = tt })
        (record { route = tt; count = refl; audits = tt })

module _ ⦃py : Python⦄ (out : Outside) where
  by_detectors-Silent :
      (s : GraphState) (text : String) (d u : Option DetectionHit)
      → Silent s (by_detectors out s text d u)
  unfolding by_detectors refuse audit ended
  by_detectors-Silent s text (some hit) u = record { route = tt; count = refl; audits = tt }
  by_detectors-Silent s text none (some hit) = record { route = tt; count = refl; audits = tt }
  by_detectors-Silent s text none none =
      if-Both (Silent s)
        (detect_provisioning_request out.regex text
          && detect_deployment_status_query out.regex text)
        (start_provisioning-Silent s) (classify_and_route-Silent out s text)

  by_correlation-Silent :
      (s : GraphState) (text : String) (cid : Option String)
      → Silent s (by_correlation out s text cid)
  unfolding by_correlation removal_turn fresh_request
  by_correlation-Silent s text (some cid) = record { route = tt; count = refl; audits = tt }
  by_correlation-Silent s text none = search (answer_pending-Silent, by_detectors-Silent)

  by_removal-Silent :
      (s : GraphState) (text : String) (sid : Option String) → Silent s (by_removal out s text sid)
  unfolding by_removal removal_turn
  by_removal-Silent s text (some sid) = record { route = tt; count = refl; audits = tt }
  by_removal-Silent s text none = search by_correlation-Silent

  by_status-Silent :
      (s : GraphState) (text : String) (sid : Option String) → Silent s (by_status out s text sid)
  unfolding by_status tool_turn
  by_status-Silent s text (some sid) = record { route = tt; count = refl; audits = tt }
  by_status-Silent s text none = search by_removal-Silent

  by_outcome-Silent : (s : GraphState) (text : String) → Silent s (by_outcome out s text)
  unfolding by_outcome
  by_outcome-Silent s text =
      if-Both (Silent s) (asks_outcome out s text) (tool_turn-Silent s _) (search by_status-Silent)

  answer_message-Silent :
      (s : GraphState) (message : Option String) → Silent s (answer_message out s message)
  unfolding answer_message
  answer_message-Silent s none = record { route = tt; count = refl; audits = tt }
  answer_message-Silent s (some text) =
      if-Both (Silent s) (leb 2 (length (find_constructs out.regex text)))
        (refuse-Silent out s _ _ _) (by_outcome-Silent s text)

  -- The supervisor node calls no worker on any message and in any state, emits at most audit events,
  -- leaves the iteration count alone, and goes to the mapper, the allocator, the deployer, the
  -- general answer or the end.
  pub supervisor_node-Silent : (s : GraphState) → Silent s (supervisor_node out s)
  unfolding supervisor_node
  supervisor_node-Silent s =
      if-Both (Silent s) (deadline_exceeded out s) (bounded_exit-Silent out s _) (
        if-Both (Silent s) (not s.awaiting_confirmation && leb max_iterations s.iteration_count)
          (bounded_exit-Silent out s _) (answer_message-Silent s (user_message s)))
