-- ===== src/Supervisor/Consent.antt =====
-- agents/supervisors/provisioning/graph/graph.py: what `_supervisor_node` does with the decisions of the
-- operator.
use agentic_netops.Prelude.{List, Option, String, [], arith, none, refl, some, subst, sym, ◌∙◌, ◌≡◌}
use agentic_netops.Supervisor.{
  Decision, Done, Effect, GraphState, Outside, RequestClassification, allocator, approved, confirm,
  informational, provisionable, unsupported,
}
use agentic_netops.Supervisor.Classify.{
  after_model, by_class, by_fallback, classify_and_route, informed, outside_contract,
  start_provisioning,
}
use agentic_netops.Supervisor.Entry.{removal_turn, tool_turn}
use agentic_netops.Supervisor.Patterns.{default_suggestion}
use agentic_netops.Supervisor.Refusal.{bounded_exit, ended, refuse}
use agentic_netops.Supervisor.Steady.{Waits}

-- The decision is recorded, and it is to confirm.
abbrev pub Agreed : Option Decision → Type 0
Agreed none = ⊥
Agreed (some d) = d.decided ≡ confirm

-- A state whose approval, or whose wait for the second confirmation, rests on recorded decisions.
pub record Consented (s : GraphState) : Type 0 where
  pub asked : Waits s → Agreed s.confirmation_1
  pub approval : s.workflow_status ≡ approved → Agreed s.confirmation_1 × Agreed s.confirmation_2

-- What the supervisor leaves: such a state, and the first decision where the allocator is next.
pub record Consenting (d : Done GraphState) : Type 0 where
  pub consented : Consented d.0
  pub allocation : d.0.next_node ≡ allocator → Agreed d.0.confirmation_1

pub unwaiting :
    (t : GraphState) (es : List Effect)
    → ¬ Waits t
    → ¬ (t.workflow_status ≡ approved)
    → ¬ (t.next_node ≡ allocator)
    → Consenting (t, es)
unwaiting t es w a n = record {
  consented = record { asked = λ e. absurd (w e); approval = λ e. absurd (a e) };
  allocation = λ e. absurd (n e);
}

-- A state whose decisions and status are those of another, and which waits for no more.
pub kept :
    (s t : GraphState) (es : List Effect)
    → Consented s
    → t.confirmation_1 ≡ s.confirmation_1
    → t.confirmation_2 ≡ s.confirmation_2
    → t.workflow_status ≡ s.workflow_status
    → (Waits t → Waits s)
    → ¬ (t.next_node ≡ allocator)
    → Consenting (t, es)
kept s t es h f g w p n = record {
  consented = record {
    asked = λ e. subst Agreed (sym f) (h.asked (p e));
    approval = λ e.
        let both = h.approval (sym w ∙ e) in
        (subst Agreed (sym f) both.0, subst Agreed (sym g) both.1);
  };
  allocation = λ e. absurd (n e);
}

pub start_provisioning-Consenting : (s : GraphState) → Consenting (start_provisioning s, [])
unfolding start_provisioning
start_provisioning-Consenting s =
    unwaiting _ [] (λ e. ground arith) (λ e. ground arith) (λ e. ground arith)

pub ended-Consenting :
    (s : GraphState) (reason advice text : String) (es : List Effect)
    → Consenting (ended s reason advice text, es)
unfolding ended
ended-Consenting s reason advice text es =
    unwaiting _ es (λ e. ground arith) (λ e. ground arith) (λ e. ground arith)

pub tool_turn-Consenting :
    (s : GraphState) (req : String) → Consented s → Consenting (tool_turn s req)
unfolding tool_turn
tool_turn-Consenting s req h = kept s _ [] h refl refl refl (λ e. e) (λ e. ground arith)

pub removal_turn-Consenting :
    (s : GraphState) (req : String) → Consented s → Consenting (removal_turn s req)
unfolding removal_turn
removal_turn-Consenting s req h =
    kept s _ [] h refl refl refl (λ e. ground arith) (λ e. ground arith)

module _ (out : Outside) where
  pub refuse-Consenting :
      (s : GraphState) (reason advice stage : String)
      → Consenting (refuse out s reason advice stage)
  unfolding refuse
  refuse-Consenting s reason advice stage = search ended-Consenting

  pub bounded_exit-Consenting :
      (s : GraphState) (why : String) → Consenting (bounded_exit out s why)
  unfolding bounded_exit
  bounded_exit-Consenting s why = search ended-Consenting

  by_class-Consenting :
      (s : GraphState) (c : Option RequestClassification)
      → Consented s
      → Consenting (by_class out s c)
  unfolding by_class informed
  by_class-Consenting s (some provisionable) h = start_provisioning-Consenting s
  by_class-Consenting s (some informational) h =
      kept s _ [] h refl refl refl (λ e. e) (λ e. ground arith)
  by_class-Consenting s (some unsupported) h =
      refuse-Consenting s outside_contract default_suggestion "supervisor"
  by_class-Consenting s none h = kept s _ [] h refl refl refl (λ e. e) (λ e. ground arith)

  by_fallback-Consenting :
      (s : GraphState) (c : Option RequestClassification)
      → Consented s
      → Consenting (by_fallback out s c)
  unfolding by_fallback informed
  by_fallback-Consenting s (some provisionable) h = start_provisioning-Consenting s
  by_fallback-Consenting s (some informational) h =
      kept s _ [] h refl refl refl (λ e. e) (λ e. ground arith)
  by_fallback-Consenting s (some unsupported) h = record {
    consented = record { asked = h.asked; approval = λ e. ground arith };
    allocation = λ e. ground arith;
  }
  by_fallback-Consenting s none h = record {
    consented = record { asked = h.asked; approval = λ e. ground arith };
    allocation = λ e. ground arith;
  }

  after_model-Consenting :
      (s : GraphState) (text : String) (reply : Option String)
      → Consented s
      → Consenting (after_model out s text reply)
  unfolding after_model
  after_model-Consenting s text none h = search (by_fallback-Consenting, h)
  after_model-Consenting s text (some content) h = search (by_class-Consenting, h)

  pub classify_and_route-Consenting :
      (s : GraphState) (text : String) → Consented s → Consenting (classify_and_route out s text)
  unfolding classify_and_route
  classify_and_route-Consenting s text h = search (after_model-Consenting, h)
