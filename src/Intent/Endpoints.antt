-- ===== src/Intent/Endpoints.antt =====
-- agents/common/schemas/normalized_intent.py: the endpoints of a bridge domain, which `vlan` and
-- `mac-vrf` check alike.
use agentic_netops.Prelude.{
  ℕ, ◌+◌, List, [], ◌∷◌, ◌++◌, not, ◌&&◌, ltb, ◌==◌, truthy, or_else, failing, if◌then◌else◌,
}
use agentic_netops.Intent.{
  Endpoint, Cause, endpoint_vlan_required, endpoint_vlan_reserved, endpoint_vlan_differs,
}

-- One endpoint against the vlan that the endpoints before it share; 0 is "none yet".
unfoldable pub endpoint_vlan_causes : ℕ → ℕ → Endpoint → List Cause
endpoint_vlan_causes i vlan e =
    let v = or_else e.vlan 0 in
    if truthy e.vlan
    then failing (
        (ltb 4000 v, endpoint_vlan_reserved i v)
        ∷ (not (vlan == 0) && not (v == vlan), endpoint_vlan_differs i vlan v)
        ∷ [])
    else endpoint_vlan_required i ∷ []

-- The loop's `vlan` after one endpoint.
unfoldable pub next_vlan : ℕ → Endpoint → ℕ
next_vlan vlan e = if truthy e.vlan && (vlan == 0) then or_else e.vlan 0 else vlan

-- `for i, ep in enumerate(self.endpoints)`
unfoldable pub bridge_domain_causes : ℕ → ℕ → List Endpoint → List Cause
bridge_domain_causes i vlan [] = []
bridge_domain_causes i vlan (e ∷ es) =
    endpoint_vlan_causes i vlan e ++ bridge_domain_causes (i + 1) (next_vlan vlan e) es
