-- ===== src/Supervisor/Sound.antt =====
-- agents/supervisors/provisioning/graph/graph.py: what the supervisor accepts from the workers.
use agentic_netops.Intent.{Cause, ServiceIntent}
use agentic_netops.Intent.Validate.{validate_all_or_nothing}
use agentic_netops.Interpretation.{Interpretation, value}
use agentic_netops.Json.{Fields, obj}
use agentic_netops.Prelude.{
  List, Option, String, ap, arith, eq_iff, false, if-When, inl, inr, none, refl, some, str_eq,
  subst, ◌↔◌, ◌∙◌, ◌≡◌, ◌⊎◌,
}
use agentic_netops.Supervisor.{Outside}
use agentic_netops.Supervisor.Contract.{
  checked_intent, matched, validate_allocator_payload, whole_intent,
}

module _ (out : Outside) where
  -- The payload validates, it has no cause to be rejected, and its type is that of the interpretation.
  pub record AllocatedFor (i : Interpretation) (payload : Fields) (intent : ServiceIntent)
      : Type 0 where
    pub shape : out.validate_intent (obj payload) ≡ inr intent
    pub whole : validate_all_or_nothing out.surroundings false intent ≡ none
    pub same_type : intent.type ≡ value i.service_type

  matched-eq :
      (i : Interpretation) (found intent : ServiceIntent)
      → matched out i found ≡ inr intent
      → (found ≡ intent) × (found.type ≡ value i.service_type)
  unfolding matched
  matched-eq i found intent =
      if-When
        (λ (r : String ⊎ ServiceIntent).
          r ≡ inr intent → (found ≡ intent) × (found.type ≡ value i.service_type))
        (str_eq found.type (value i.service_type))
        (λ e h. (ground arith, (eq_iff found.type (value i.service_type)).0 e))
        (λ e h. absurd (ground arith))

  whole_intent-eq :
      (i : Interpretation) (found intent : ServiceIntent) (c : Option (List Cause))
      → whole_intent out i found c ≡ inr intent
      → (c ≡ none) × (matched out i found ≡ inr intent)
  unfolding whole_intent
  whole_intent-eq i found intent none h = (refl, h)
  whole_intent-eq i found intent (some causes) h = absurd (ground arith)

  checked_intent-AllocatedFor :
      (i : Interpretation) (payload : Fields) (intent : ServiceIntent) (r : String ⊎ ServiceIntent)
      → out.validate_intent (obj payload) ≡ r
      → checked_intent out i r ≡ inr intent
      → AllocatedFor i payload intent
  unfolding checked_intent
  checked_intent-AllocatedFor i payload intent (inl error) e h = absurd (ground arith)
  checked_intent-AllocatedFor i payload intent (inr found) e h =
      let w = whole_intent-eq i found intent _ h in
      let m = matched-eq i found intent w.1 in
      record {
        shape = e ∙ ap inr m.0;
        whole = subst (λ x. validate_all_or_nothing out.surroundings false x ≡ none) m.0 w.0;
        same_type = subst (λ (x : ServiceIntent). x.type ≡ value i.service_type) m.0 m.1;
      }

  AllocatedFor-accepted :
      (i : Interpretation) (payload : Fields) (intent : ServiceIntent)
      → AllocatedFor i payload intent
      → validate_allocator_payload out (some payload) i ≡ inr intent
  unfolding validate_allocator_payload checked_intent whole_intent matched
  AllocatedFor-accepted i payload intent h =
      rw (h.shape, h.whole, (eq_iff intent.type (value i.service_type)).1 h.same_type) refl

  -- An allocation is accepted exactly if its payload validates, the all-or-nothing validation names no
  -- cause, and its type is that of the interpretation it was made for.
  pub validate_allocator_payload-AllocatedFor :
      (i : Interpretation) (payload : Fields) (intent : ServiceIntent)
      → (validate_allocator_payload out (some payload) i ≡ inr intent)
        ↔ AllocatedFor i payload intent
  unfolding validate_allocator_payload
  validate_allocator_payload-AllocatedFor i payload intent = (
    checked_intent-AllocatedFor i payload intent (out.validate_intent (obj payload)) refl,
    AllocatedFor-accepted i payload intent,
  )
