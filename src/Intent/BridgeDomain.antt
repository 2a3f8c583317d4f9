-- ===== src/Intent/BridgeDomain.antt =====
-- agents/common/schemas/normalized_intent.py: when the endpoints of a bridge domain are accepted.
use agentic_netops.Prelude.{
  ℕ, ◌+◌, ◌≤◌, ◌<◌, ◌≡◌, refl, ◌↔◌, some, List, [], ◌∷◌, arith, All, append-eq-nil,
}
use agentic_netops.Intent.{Endpoint}
use agentic_netops.Intent.Endpoints.{endpoint_vlan_causes, next_vlan, bridge_domain_causes}

-- Every endpoint names the vlan, and it is a usable one.
abbrev pub UsesVlan : List Endpoint → ℕ → Type 0
UsesVlan es v = (0 < v) × (v ≤ 4000) × All (λ e. e.vlan ≡ some v) es

module _ (i v : ℕ) (e : Endpoint) where
  endpoint-same : 0 < v → v ≤ 4000 → (endpoint_vlan_causes i v e ≡ []) ↔ (e.vlan ≡ some v)
  unfolding endpoint_vlan_causes
  endpoint-same p q = (λ h. ground arith, λ h. ground arith)

  next_vlan-same : 0 < v → next_vlan v e ≡ v
  unfolding next_vlan
  next_vlan-same p = ground arith

endpoint_first :
    (i : ℕ) (e : Endpoint)
    → endpoint_vlan_causes i 0 e ≡ []
    → (e.vlan ≡ some (next_vlan 0 e)) × (0 < next_vlan 0 e) × (next_vlan 0 e ≤ 4000)
unfolding endpoint_vlan_causes next_vlan
endpoint_first i e h = ground arith

endpoint_first_ok :
    (i v : ℕ) (e : Endpoint)
    → 0 < v
    → v ≤ 4000
    → e.vlan ≡ some v
    → (endpoint_vlan_causes i 0 e ≡ []) × (next_vlan 0 e ≡ v)
unfolding endpoint_vlan_causes next_vlan
endpoint_first_ok i v e p q h = ground arith

cons-eq-nil :
    (i v : ℕ) (e : Endpoint) (es : List Endpoint)
    → (bridge_domain_causes i v (e ∷ es) ≡ [])
      ↔ ((endpoint_vlan_causes i v e ≡ []) × (bridge_domain_causes (i + 1) (next_vlan v e) es ≡ []))
unfolding bridge_domain_causes
cons-eq-nil i v e es = append-eq-nil _ _

-- With a vlan already chosen, the rest is accepted exactly when every endpoint names it.
rest_same :
    (i v : ℕ) (es : List Endpoint)
    → 0 < v
    → v ≤ 4000
    → (bridge_domain_causes i v es ≡ []) ↔ All (λ e. e.vlan ≡ some v) es
unfolding bridge_domain_causes
rest_same i v [] p q = (λ h. tt, λ h. refl)
rest_same i v (e ∷ es) p q = (
  λ h.
      let (one, rest) = (cons-eq-nil i v e es).0 h in
      (
        (endpoint-same i v e p q).0 one,
        (rest_same (i + 1) v es p q).0 (rw (next_vlan-same i v e p) at rest),
      ),
  λ h. (cons-eq-nil i v e es).1 (
    (endpoint-same i v e p q).1 h.0,
    rw (next_vlan-same i v e p) ((rest_same (i + 1) v es p q).1 h.1),
  ),
)

-- The endpoints of a bridge domain are accepted exactly when there is one usable vlan, from 1 to
-- 4000, that every one of them names.
pub bridge_domain_iff :
    (i : ℕ) (e : Endpoint) (es : List Endpoint)
    → (bridge_domain_causes i 0 (e ∷ es) ≡ []) ↔ ((v : ℕ) × UsesVlan (e ∷ es) v)
bridge_domain_iff i e es = (
  λ h.
      let (one, rest) = (cons-eq-nil i 0 e es).0 h in
      let (names, positive, usable) = endpoint_first i e one in
      (
        next_vlan 0 e,
        (positive, usable, (names, (rest_same (i + 1) (next_vlan 0 e) es positive usable).0 rest)),
      ),
  λ h.
      let (v, u) = h in
      let (positive, usable, all) = u in
      let (one, next) = endpoint_first_ok i v e positive usable all.0 in
      (cons-eq-nil i 0 e es).1 (one, rw next ((rest_same (i + 1) v es positive usable).1 all.1)),
)
