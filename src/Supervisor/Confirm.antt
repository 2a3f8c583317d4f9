-- ===== src/Supervisor/Confirm.antt =====
-- agents/supervisors/provisioning/graph/graph.py: the operator's answers at the points where the
-- graph waits for one.
use agentic_netops.Json.{Fields, put, str}
use agentic_netops.Prelude.{
  List, Option, String, [], append, false, if◌then◌else◌, none, some, true, ◌∷◌,
}
use agentic_netops.Prelude.Regex.{format, has_any}
use agentic_netops.Supervisor.{
  Decided, Decision, Done, GraphState, Outside, Pending, allocator, approved, clarify, confirm,
  confirm_1, confirm_2, confirm_event, confirm_remove, decline, decline_event, deployer, finish,
  say,
}
use agentic_netops.Supervisor.Classify.{classify_and_route}
use agentic_netops.Supervisor.Patterns.{default_suggestion}
use agentic_netops.Supervisor.Refusal.{audit, ended, principal_of}

abbrev confirm_words : List String
confirm_words =
    "yes" ∷ "confirm" ∷ "proceed" ∷ "go ahead" ∷ "ok" ∷ "sure" ∷ "allocate" ∷ "deploy" ∷ []

abbrev decline_words : List String
decline_words = "no" ∷ "decline" ∷ "reject" ∷ "cancel" ∷ "stop" ∷ "abort" ∷ []

-- What an answer says; the words that confirm are looked for first.
unfoldable pub reading : String → Option Decided
unfolding has_any
reading low =
    if has_any confirm_words low
    then some confirm
    else if has_any decline_words low
    then some decline
    else none

stamp_released : String → List Fields → List Fields
unfolding put
stamp_released now [] = []
stamp_released now (c ∷ cs) = put "released_at" (str now) c ∷ stamp_released now cs

abbrev removal_declined_text : String
removal_declined_text =
    "Understood — the remove-service request was declined and nothing will be done."

-- Neither an approval nor a refusal: the question is put again.
unfoldable pub ask_again : GraphState → Done GraphState
unfolding say
ask_again s = (
  record s {
    next_node = finish;
    awaiting_confirmation = true;
    messages = say s "Please answer with 'confirm' to proceed or 'decline' to cancel this request.";
  },
  [],
)

module _ (out : Outside) where
  unfoldable pub decision : GraphState → Decided → Decision
  unfolding principal_of
  decision s d = record { decided = d; at = out.now; principal = principal_of out s }

  unfoldable pub removal_confirmed : GraphState → Done GraphState
  unfolding audit
  removal_confirmed s = (
    record s { next_node = deployer; awaiting_confirmation = false; pending_action = none },
    audit out s confirm_event [] "remove-service recorded: operator confirmed" ∷ [],
  )

  unfoldable pub first_confirmed : GraphState → Done GraphState
  unfolding audit decision
  first_confirmed s = (
    record s {
      next_node = allocator;
      awaiting_confirmation = false;
      pending_action = none;
      confirmation_1 = some (decision s confirm);
    },
    audit out s confirm_event [] "confirmation_1 recorded: operator confirmed" ∷ [],
  )

  unfoldable pub second_confirmed : GraphState → Done GraphState
  unfolding audit decision
  second_confirmed s = (
    record s {
      next_node = deployer;
      awaiting_confirmation = false;
      pending_action = none;
      confirmation_2 = some (decision s confirm);
      workflow_status = approved;
    },
    audit out s confirm_event [] "confirmation_2 recorded: operator confirmed" ∷ [],
  )

  unfoldable pub removal_declined : GraphState → Done GraphState
  unfolding audit ended
  removal_declined s = (
    ended s "remove-service declined by operator" default_suggestion removal_declined_text,
    audit out s decline_event [] "remove-service recorded: operator declined" ∷ [],
  )

  -- The claims are marked as released.
  unfoldable pub declined : GraphState → String → GraphState
  unfolding ended stamp_released format
  declined s which =
      let t = ended s (append which " declined by operator") default_suggestion (
        format (
          "Understood — the request was declined at " ∷ which
          ∷ " and nothing will be submitted. Any claimed identifiers were released. If you want to "
          ∷ "change something, start a fresh request." ∷ [])) in
      record t { claimed_ids = stamp_released out.now s.claimed_ids }

  unfoldable pub first_declined : GraphState → Done GraphState
  unfolding declined decision audit
  first_declined s = (
    record (declined s "confirmation_1") { confirmation_1 = some (decision s decline) },
    audit out s decline_event [] "confirmation_1 recorded: operator declined; claims released" ∷ [],
  )

  unfoldable pub second_declined : GraphState → Done GraphState
  unfolding declined decision audit
  second_declined s = (
    record (declined s "confirmation_2") { confirmation_2 = some (decision s decline) },
    audit out s decline_event [] "confirmation_2 recorded: operator declined; claims released" ∷ [],
  )

  unfoldable pub take_answer :
      GraphState → Done GraphState → Done GraphState → Option Decided → Done GraphState
  unfolding ask_again
  take_answer s on_confirm on_decline (some confirm) = on_confirm
  take_answer s on_confirm on_decline (some decline) = on_decline
  take_answer s on_confirm on_decline none = ask_again s

  -- The restatement of a request is classified afresh.
  unfoldable pub restated : Done GraphState → Done GraphState
  restated (s, effects) =
      (record s { awaiting_confirmation = false; pending_action = none }, effects)

  -- What is pending is answered; with nothing pending, the message is a fresh one.
  unfoldable pub answer_pending :
      GraphState → String → String → Done GraphState → Option Pending → Done GraphState
  unfolding take_answer reading removal_confirmed removal_declined first_confirmed first_declined
      second_confirmed second_declined restated classify_and_route
  answer_pending s text low fresh none = fresh
  answer_pending s text low fresh (some clarify) = restated (classify_and_route out s text)
  answer_pending s text low fresh (some confirm_remove) =
      take_answer s (removal_confirmed s) (removal_declined s) (reading low)
  answer_pending s text low fresh (some confirm_1) =
      take_answer s (first_confirmed s) (first_declined s) (reading low)
  answer_pending s text low fresh (some confirm_2) =
      take_answer s (second_confirmed s) (second_declined s) (reading low)
