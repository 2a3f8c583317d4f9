-- ===== src/Intent/Named.antt =====
-- agents/common/schemas/normalized_intent.py: the part of the validation that every construct
-- shares, and the verdict as a whole.
use agentic_netops.Prelude.{
  String, ◌≡◌, ◌≢◌, ◌↔◌, refl, false, not, Option, none, some, List, [], ◌∷◌, map, arith, eq_iff,
  has_text, is_empty, failing-eq-nil, append-eq-nil, if◌then◌else◌,
}
use agentic_netops.Intent.{
  ServiceIntent, UnsupportedClaims, Cause, Surroundings, present, endpoint_required,
}
use agentic_netops.Intent.Transport.{transport_causes}
use agentic_netops.Intent.Validate.{
  claim_causes, name_checks, basic_causes, construct_causes, all_causes, validate_all_or_nothing,
}

-- The claims of unsupported features that an intent makes.
abbrev pub claims : Option UnsupportedClaims → List String
claims none = []
claims (some u) = present u

-- What every accepted intent has: names, an endpoint, and no claim of an unsupported feature.
pub record IsNamed (s : ServiceIntent) : Type 0 where
  pub service_id : s.service_id ≢ ""
  pub tenant : s.tenant ≢ ""
  pub type : s.type ≢ ""
  pub no_claims : claims s.unsupported ≡ []
  pub endpoints : s.endpoints ≢ []

has_text_iff : (s : String) → (not (has_text s) ≡ false) ↔ (s ≢ "")
has_text_iff s = ground (arith, eq_iff s "")

pub is_empty_iff {ℓ} : {A : Type ℓ} (xs : List A) → (is_empty xs ≡ false) ↔ (xs ≢ [])
is_empty_iff [] = (λ h. cc, λ h. absurd (h refl))
is_empty_iff (x ∷ xs) = (λ h e. cc, λ h. refl)

map-eq-nil {ℓ κ} : {A : Type ℓ} {B : Type κ} (f : A → B) (xs : List A) → (map f xs ≡ []) ↔ (xs ≡ [])
map-eq-nil f [] = (λ h. refl, λ h. refl)
map-eq-nil f (x ∷ xs) = (λ h. cc, λ h. cc)

claim_causes_iff : (u : Option UnsupportedClaims) → (claim_causes u ≡ []) ↔ (claims u ≡ [])
unfolding claim_causes
claim_causes_iff none = (λ h. refl, λ h. refl)
claim_causes_iff (some u) = map-eq-nil _ (present u)

pub basic_causes_iff : (s : ServiceIntent) → (basic_causes false s ≡ []) ↔ IsNamed s
unfolding basic_causes
basic_causes_iff s = (
  λ h.
      let (names, rest) = (append-eq-nil _ _).0 h in
      let (claimed, last) = (append-eq-nil _ _).0 rest in
      let c = (failing-eq-nil (name_checks false s)).0 names in
      record {
        service_id = (has_text_iff _).0 c.0;
        tenant = (has_text_iff _).0 c.1.0;
        type = (has_text_iff _).0 c.1.1.0;
        no_claims = (claim_causes_iff s.unsupported).0 claimed;
        endpoints =
            (is_empty_iff s.endpoints).0
              ((failing-eq-nil ((is_empty s.endpoints, endpoint_required) ∷ [])).0 last).0;
      },
  λ n. (append-eq-nil _ _).1 (
    (failing-eq-nil (name_checks false s)).1 (
      (has_text_iff _).1 n.service_id,
      ((has_text_iff _).1 n.tenant, ((has_text_iff _).1 n.type, (refl, tt))),
    ),
    (append-eq-nil _ _).1 (
      (claim_causes_iff s.unsupported).1 n.no_claims,
      (failing-eq-nil ((is_empty s.endpoints, endpoint_required) ∷ [])).1
          ((is_empty_iff s.endpoints).1 n.endpoints, tt),
    ),
  ),
)

verdict_iff :
    (causes : List Cause) → ((if is_empty causes then none else some causes) ≡ none) ↔ (causes ≡ [])
verdict_iff [] = (λ h. refl, λ h. refl)
verdict_iff (c ∷ cs) = (λ h. cc, λ h. cc)

-- Nothing is wrong exactly when each of the three parts names no cause.
pub accepted_iff :
    (env : Surroundings) (s : ServiceIntent)
    → (validate_all_or_nothing env false s ≡ none)
      ↔ (IsNamed s × (transport_causes env.spine_nodes s ≡ []) × (construct_causes env s ≡ []))
unfolding validate_all_or_nothing all_causes
accepted_iff env s = (
  λ h.
      let (a, rest) = (append-eq-nil _ _).0 ((verdict_iff (all_causes env false s)).0 h) in
      let (b, c) = (append-eq-nil _ _).0 rest in ((basic_causes_iff s).0 a, b, c),
  λ h.
      (verdict_iff (all_causes env false s)).1
        ((append-eq-nil _ _).1 ((basic_causes_iff s).1 h.0, (append-eq-nil _ _).1 (h.1, h.2))),
)
