-- ===== src/Supervisor/Preconditions.antt =====
-- agents/supervisors/provisioning/graph/graph.py: when `_deployer_node` calls the worker to submit.
use agentic_netops.Json.{Fields, Json, Python, end, field, get, obj, str}
use agentic_netops.Supervisor.Contract.{wrap_worker_text}
use agentic_netops.Prelude.{
  List, Option, String, [], arith, has_text, inl, inr, none, refl, some, subst, true, ◌∷◌, ◌≡◌, ◌⊎◌,
}
use agentic_netops.Supervisor.{
  Decision, Effect, GraphState, Outside, ToolAction, allocator_worker, audited, called, deployer,
  deployer_worker, mapper_worker,
}
use agentic_netops.Supervisor.Consent.{Agreed}
use agentic_netops.Supervisor.Deploying.{
  by_tool, deployer_node, submission, submission_text, submit, submit_context, submit_allocated,
  submit_loaded, submit_valid,
}
use agentic_netops.Supervisor.Mapping.{after}
use agentic_netops.Supervisor.Refusal.{correlation, principal_of}
use agentic_netops.Supervisor.Silent.{Audits}
use agentic_netops.Supervisor.Submission.{is_approved, is_confirmed}
use agentic_netops.Supervisor.Thread.{Reaches, Reaches-Holds}
use agentic_netops.Supervisor.Submittable.{Submittable, submission-Submittable}

-- The first effect is the call of the deployer with this text.
abbrev pub Sends : String → List Effect → Type 0
Sends text [] = ⊥
Sends text (audited e ∷ es) = ⊥
Sends text (called mapper_worker sent ∷ es) = ⊥
Sends text (called allocator_worker sent ∷ es) = ⊥
Sends text (called deployer_worker sent ∷ es) = sent ≡ text

-- The body of an envelope that submits a JSON value on a thread: who asks, on which thread, and under
-- which correlation id, if the state has one.
pub record IsEnvelope (out : Outside) (s : GraphState) (intent : Json) (body : Fields)
    : Type 0 where
  pub action : get "action" body ≡ str "submit"
  pub carried : get "intent" body ≡ intent
  pub context : Fields
  pub in_context : get "context" body ≡ obj context
  pub thread_id : get "threadId" context ≡ str out.thread_id
  pub correlation_id :
      has_text s.correlation_id ≡ true → get "correlationId" context ≡ str s.correlation_id
  pub principal : has_text s.principal ≡ true → get "principal" context ≡ str s.principal

Agreed-is_confirmed : (d : Option Decision) → Agreed d → is_confirmed d ≡ true
unfolding is_confirmed
Agreed-is_confirmed none h = absurd h
Agreed-is_confirmed (some d) h = ground arith

module _ ⦃py : Python⦄ (out : Outside) where
  Sends-submission_text :
      (s : GraphState) (h : Submittable out s)
      → Sends (submission_text out s h.value) (submission out s).1
  unfolding submission submit_allocated submit_loaded submit_valid submit after is_approved
  Sends-submission_text s h =
      rw
        (
          h.status,
          Agreed-is_confirmed s.confirmation_2 h.decision,
          h.stored,
          h.given,
          h.read,
          h.valid,
        )
        refl

  context_of : GraphState → Fields
  context_of s =
      field "correlationId" (str (correlation out s))
        (field "threadId" (str out.thread_id) (field "principal" (str (principal_of out s)) end))

  envelope : GraphState → Json → Fields
  unfolding context_of
  envelope s intent =
      field "action" (str "submit")
        (field "intent" intent (field "context" (obj (context_of s)) end))

  envelope-IsEnvelope :
      (s : GraphState) (intent : Json) → IsEnvelope out s intent (envelope s intent)
  unfolding envelope context_of correlation principal_of get
  envelope-IsEnvelope s intent = record {
    action = refl;
    carried = refl;
    context = context_of s;
    in_context = refl;
    thread_id = refl;
    correlation_id = λ g. rw g refl;
    principal = λ g. rw g refl;
  }

  submission_text-eq :
      (s : GraphState) (intent : Json)
      → submission_text out s intent
        ≡ wrap_worker_text
            (out.redact_prompt (out.canonical_json (obj (envelope s intent))))
            out.nonce
  unfolding submission_text submit_context envelope context_of
  submission_text-eq s intent = refl

  -- On a submittable state the deployer is called first. What it is sent is the fence around the
  -- redacted canonical text of an envelope: the action is to submit, the intent is the value that is
  -- stored, and the context has the thread's id, and the correlation id and the principal of the state
  -- if it has them.
  pub submission-Sends :
      (s : GraphState) (h : Submittable out s)
      → (body : Fields) × IsEnvelope out s h.value body
        × Sends
            (wrap_worker_text (out.redact_prompt (out.canonical_json (obj body))) out.nonce)
            (submission out s).1
  submission-Sends s h = (
    envelope s h.value,
    envelope-IsEnvelope s h.value,
    subst (λ t. Sends t (submission out s).1) (submission_text-eq s h.value)
        (Sends-submission_text s h),
  )

  by_tool-Submittable :
      (s : GraphState) (t : Option ToolAction)
      → t ≡ none
      → Audits (by_tool out s t).1 ⊎ Submittable out s
  unfolding by_tool
  by_tool-Submittable s none e = submission-Submittable out s
  by_tool-Submittable s (some t) e = absurd (ground arith)

  -- At every point of a thread where the deployer runs without a request for a tool, it calls no
  -- worker, or the operator has confirmed both the interpretation and the deployment and the stored
  -- intent is valid.
  pub Reaches-Submittable :
      (s : GraphState)
      → Reaches deployer s
      → s.tool_action ≡ none
      → Audits (deployer_node out s).1
        ⊎ (Submittable out s × (Agreed s.confirmation_1 × Agreed s.confirmation_2))
  unfolding deployer_node
  Reaches-Submittable s r t = elim (by_tool-Submittable s s.tool_action t) [
    | inl a ↦ inl a
    | inr h ↦ inr (h, (Reaches-Holds r).consented.approval h.status)
  ]
