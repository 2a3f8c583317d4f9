-- ===== src/Supervisor/Steady.antt =====
-- agents/supervisors/provisioning/graph/graph.py: what the nodes that call a worker leave as it was.
use agentic_netops.Prelude.{List, String, arith, refl, some, ◌≡◌}
use agentic_netops.Supervisor.{
  Done, Effect, GraphState, Node, Outside, approved, confirm_2, finish, reflection,
}
use agentic_netops.Supervisor.Mapping.{after, told}
use agentic_netops.Supervisor.Refusal.{ended, refuse, reject_out_of_contract}

abbrev pub IsExit : Node → Type 0
IsExit finish = Unit
IsExit reflection = Unit
IsExit _ = ⊥

-- The iteration count and both decisions stay; nothing becomes approved; only where `Q` holds may the
-- second confirmation come to be awaited; and the next node is the reflection or the end.
pub record Steady (Q : Type 0) (s : GraphState) (d : Done GraphState) : Type 0 where
  pub exit : IsExit d.0.next_node
  pub count : d.0.iteration_count ≡ s.iteration_count
  pub first : d.0.confirmation_1 ≡ s.confirmation_1
  pub second : d.0.confirmation_2 ≡ s.confirmation_2
  pub approval : d.0.workflow_status ≡ approved → s.workflow_status ≡ approved
  pub awaits : d.0.pending_action ≡ some confirm_2 → Q

abbrev pub Waits : GraphState → Type 0
Waits s = s.pending_action ≡ some confirm_2

module _ {Q : Type 0} where
  pub ended-Steady :
      (s : GraphState) (reason advice text : String) (es : List Effect)
      → Steady Q s (ended s reason advice text, es)
  unfolding ended
  ended-Steady s reason advice text es = record {
    exit = tt;
    count = refl;
    first = refl;
    second = refl;
    approval = λ e. ground arith;
    awaits = λ e. ground arith;
  }

  pub after-Steady :
      (s : GraphState) (e : Effect) (d : Done GraphState) → Steady Q s d → Steady Q s (after e d)
  unfolding after
  after-Steady s e (t, es) h = record {
    exit = h.exit;
    count = h.count;
    first = h.first;
    second = h.second;
    approval = h.approval;
    awaits = h.awaits;
  }

  module _ (out : Outside) where
    pub refuse-Steady :
        (s : GraphState) (reason advice stage : String)
        → Steady Q s (refuse out s reason advice stage)
    unfolding refuse
    refuse-Steady s reason advice stage = search ended-Steady

    pub reject-Steady :
        (s : GraphState) (stage error worker_text : String)
        → Steady Q s (reject_out_of_contract out s stage error worker_text)
    unfolding reject_out_of_contract
    reject-Steady s stage error worker_text = search ended-Steady

pub told-Steady :
    {Q : Type 0} (s : GraphState) (text : String) → (Waits s → Q) → Steady Q s (told s text)
unfolding told
told-Steady s text h = record {
  exit = tt;
  count = refl;
  first = refl;
  second = refl;
  approval = λ e. e;
  awaits = h;
}
