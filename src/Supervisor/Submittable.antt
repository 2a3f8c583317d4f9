-- ===== src/Supervisor/Submittable.antt =====
-- agents/supervisors/provisioning/graph/graph.py: on which states `_deployer_node` sends a submission.
use agentic_netops.Intent.{ServiceIntent}
use agentic_netops.Json.{Json, Python}
use agentic_netops.Prelude.{
  Option, String, arith, has_text, if-When, inl, inr, none, not, refl, some, true, ◌≡◌, ◌⊎◌,
}
use agentic_netops.Supervisor.{Decision, Done, GraphState, Outside, WorkflowStatus, approved}
use agentic_netops.Supervisor.Consent.{Agreed}
use agentic_netops.Supervisor.Deploying.{
  invalid_intent, refuse_submission, submission, submit_allocated, submit_loaded, submit_valid,
}
use agentic_netops.Supervisor.Refusal.{audit, refuse}
use agentic_netops.Supervisor.Silent.{Audits}
use agentic_netops.Supervisor.Submission.{is_approved, is_confirmed}

-- The thread is approved, the second decision is to confirm, and the stored intent is a text, not
-- empty, of a JSON value that validates as a normalized service intent.
pub record Submittable (out : Outside) (s : GraphState) : Type 0 where
  pub status : s.workflow_status ≡ approved
  pub decision : Agreed s.confirmation_2
  pub text : String
  pub stored : s.allocated_resources ≡ some text
  pub given : has_text text ≡ true
  pub value : Json
  pub read : out.loads text ≡ some value
  pub intent : ServiceIntent
  pub valid : out.validate_intent value ≡ inr intent

is_approved-eq : (w : WorkflowStatus) → is_approved w ≡ true → w ≡ approved
unfolding is_approved
is_approved-eq w e = ground arith

is_confirmed-Agreed : (d : Option Decision) → is_confirmed d ≡ true → Agreed d
unfolding is_confirmed
is_confirmed-Agreed none e = absurd (ground arith)
is_confirmed-Agreed (some d) e = ground arith

module _ ⦃py : Python⦄ (out : Outside) where
  -- Either nothing is sent, or the state is submittable.
  data Careful (s : GraphState) (d : Done GraphState) : Type 0 where
    nothing_sent : Audits d.1 → Careful s d
    submittable : Submittable out s → Careful s d

  either : (s : GraphState) (d : Done GraphState) → Careful s d → Audits d.1 ⊎ Submittable out s
  either s d (nothing_sent a) = inl a
  either s d (submittable h) = inr h

  refuse_submission-Careful :
      (s : GraphState) (why : String) → Careful s (refuse_submission out s why)
  unfolding refuse_submission refuse audit
  refuse_submission-Careful s why = nothing_sent tt

  invalid_intent-Careful : (s : GraphState) (why : String) → Careful s (invalid_intent out s why)
  unfolding invalid_intent refuse_submission refuse audit
  invalid_intent-Careful s why = nothing_sent tt

  submit_valid-Careful :
      (s : GraphState) (text : String) (j : Json) (r : String ⊎ ServiceIntent)
      → s.workflow_status ≡ approved
      → Agreed s.confirmation_2
      → s.allocated_resources ≡ some text
      → has_text text ≡ true
      → out.loads text ≡ some j
      → out.validate_intent j ≡ r
      → Careful s (submit_valid out s j r)
  unfolding submit_valid
  submit_valid-Careful s text j (inl reason) a d t g l v = invalid_intent-Careful s reason
  submit_valid-Careful s text j (inr i) a d t g l v = submittable (record {
    status = a;
    decision = d;
    text = text;
    stored = t;
    given = g;
    value = j;
    read = l;
    intent = i;
    valid = v;
  })

  submit_loaded-Careful :
      (s : GraphState) (text : String) (r : Option Json)
      → s.workflow_status ≡ approved
      → Agreed s.confirmation_2
      → s.allocated_resources ≡ some text
      → has_text text ≡ true
      → out.loads text ≡ r
      → Careful s (submit_loaded out s text r)
  unfolding submit_loaded
  submit_loaded-Careful s text none a d t g l = search invalid_intent-Careful
  submit_loaded-Careful s text (some j) a d t g l =
      submit_valid-Careful s text j (out.validate_intent j) a d t g l refl

  submit_allocated-Careful :
      (s : GraphState) (r : Option String)
      → s.workflow_status ≡ approved
      → Agreed s.confirmation_2
      → s.allocated_resources ≡ r
      → Careful s (submit_allocated out s r)
  unfolding submit_allocated
  submit_allocated-Careful s none a d t = search refuse_submission-Careful
  submit_allocated-Careful s (some text) a d t =
      if-When (Careful s) (has_text text)
        (λ g. submit_loaded-Careful s text (out.loads text) a d t g refl)
        (λ g. search refuse_submission-Careful)

  submission-steps : (s : GraphState) → Careful s (submission out s)
  unfolding submission
  submission-steps s =
      if-When (Careful s) (not (is_approved s.workflow_status))
        (λ e. search refuse_submission-Careful)
        (λ e.
          if-When (Careful s) (not (is_confirmed s.confirmation_2))
            (λ f. search refuse_submission-Careful)
            (λ f.
              submit_allocated-Careful s s.allocated_resources
                (is_approved-eq s.workflow_status (ground (arith, e)))
                (is_confirmed-Agreed s.confirmation_2 (ground (arith, f))) refl))

  -- A deployer node that is to submit calls no worker, or the thread is approved, the recorded second
  -- decision is to confirm, and the stored allocation is a valid normalized intent: on every other
  -- state nothing leaves the supervisor but the audit event of a refusal.
  pub submission-Submittable : (s : GraphState) → Audits (submission out s).1 ⊎ Submittable out s
  submission-Submittable s = either s (submission out s) (submission-steps s)
