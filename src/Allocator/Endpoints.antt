-- ===== src/Allocator/Endpoints.antt =====
-- agents/provisioning/allocator/agent.py: the order of the endpoints and the one vlan that the
-- endpoints of a bridge domain share.
use agentic_netops.Allocator.{
  AllocationError, Allocators, and_then, claimed, malformed, several_vlans,
}
use agentic_netops.Intent.{Endpoint}
use agentic_netops.Interpretation.{EndpointIntent}
use agentic_netops.Prelude.{
  Bool, List, Option, String, [], if◌then◌else◌, inl, inr, leb, ltb, map, none, not, some, str_eq,
  ℕ, ◌&&◌, ◌==◌, ◌||◌, ◌∷◌, ◌⊎◌,
}
use agentic_netops.Prelude.Regex.{text_leb}
use agentic_netops.Prelude.Sort.{sort}
use agentic_netops.Prelude.Text.{negsuc, pos, ℤ}

-- `Endpoint(node=ep.site_or_node, attachment=ep.attachment, vlan=ep.vlan)`
unfoldable pub endpoint_of : EndpointIntent → Endpoint
endpoint_of e = record {
  node = e.site_or_node;
  attachment = e.attachment;
  vlan = e.vlan_id;
  vrf = none;
  prefixes = none;
}

-- `(a.node, a.attachment) <= (b.node, b.attachment)`
unfoldable pub endpoint_leb : Endpoint → Endpoint → Bool
endpoint_leb a b =
    text_leb a.node b.node && (not (str_eq a.node b.node) || text_leb a.attachment b.attachment)

-- `_deterministic_endpoints`
unfoldable pub deterministic_endpoints : List Endpoint → List Endpoint
deterministic_endpoints = sort endpoint_leb

-- A number is added to an ascending list that does not have it.
unfoldable pub add_number : ℕ → List ℕ → List ℕ
add_number v [] = v ∷ []
add_number v (w ∷ ws) =
    let rest = add_number v ws in
    if v == w then w ∷ ws else if ltb v w then v ∷ w ∷ ws else w ∷ rest

unfoldable pub with_named : Option ℕ → List ℕ → List ℕ
unfolding add_number
with_named none vs = vs
with_named (some v) vs = if v == 0 then vs else add_number v vs

-- `sorted({e.vlan for e in endpoints if e.vlan})`
unfoldable pub declared_vlans : List Endpoint → List ℕ
unfolding with_named
declared_vlans [] = []
declared_vlans (e ∷ es) = with_named e.vlan (declared_vlans es)

-- `Endpoint(node=e.node, attachment=e.attachment, vlan=vlan)`
unfoldable pub on_vlan : Option ℕ → Endpoint → Endpoint
on_vlan v e = record {
  node = e.node;
  attachment = e.attachment;
  vlan = v;
  vrf = none;
  prefixes = none;
}

-- The bounds of `Endpoint.vlan`, on a number that was claimed.
unfoldable pub vlan_field : ℤ → Option ℕ
vlan_field (pos n) = if leb 1 n && leb n 4094 then some n else none
vlan_field (negsuc n) = none

-- The endpoints on the vlan that was claimed; without an endpoint nothing checks it.
unfoldable pub on_claimed : List Endpoint → Option ℕ → AllocationError ⊎ List Endpoint
unfolding on_vlan
on_claimed [] v = inr []
on_claimed (e ∷ es) none = inl malformed
on_claimed (e ∷ es) (some v) = inr (map (on_vlan (some v)) (e ∷ es))

module _ {C : Type 0} (kuid : Allocators C) where
  unfoldable pub on_declared :
      List Endpoint → String → String → List ℕ → C → (AllocationError ⊎ List Endpoint) × C
  unfolding claimed and_then on_claimed vlan_field
  on_declared es correlation_id service [] c =
      and_then (claimed (kuid.allocate_vlan correlation_id c))
        (λ n c'. (on_claimed es (vlan_field n), c'))
  on_declared es correlation_id service (v ∷ []) c = (inr (map (on_vlan (some v)) es), c)
  on_declared es correlation_id service (v ∷ w ∷ vs) c =
      (inl (several_vlans service (v ∷ w ∷ vs)), c)

  -- `_l2_endpoints`: two declared vlans are an error, one is used, and otherwise one is claimed.
  unfoldable pub l2_endpoints :
      List Endpoint → String → String → C → (AllocationError ⊎ List Endpoint) × C
  unfolding on_declared declared_vlans
  l2_endpoints es correlation_id service = on_declared es correlation_id service (declared_vlans es)

unfoldable pub carried : List Endpoint → List ℕ → AllocationError ⊎ List Endpoint
unfolding on_vlan
carried es [] = inr (map (on_vlan none) es)
carried es (v ∷ []) = inr (map (on_vlan (some v)) es)
carried es (v ∷ w ∷ vs) = inl (several_vlans "mac-vrf over srv6" (v ∷ w ∷ vs))

-- `_srv6_endpoints`: as `_l2_endpoints`, but without a declared vlan there is none.
unfoldable pub srv6_endpoints : List Endpoint → AllocationError ⊎ List Endpoint
unfolding carried declared_vlans
srv6_endpoints es = carried es (declared_vlans es)
