-- ===== src/Allocator/Srv6.antt =====
-- agents/provisioning/allocator/agent.py: `_srv6_intent`.
use agentic_netops.Allocator.{
  AllocationError, and_then, and_value, bridged_gateway, claimed, not_over_srv6,
}
use agentic_netops.Allocator.Endpoints.{srv6_endpoints}
use agentic_netops.Allocator.Parts.{Site, families, gateway_address, over_srv6, with_vrf}
use agentic_netops.Intent.{Endpoint, ServiceIntent}
use agentic_netops.Interpretation.{
  AnycastGatewayIntent, Interpretation, ServiceType, acl, ip_vrf, mac_vrf, value, vlan,
}
use agentic_netops.Kuid.{Result}
use agentic_netops.Prelude.{List, Option, String, [], append, inl, inr, none, some, ◌∷◌, ◌⊎◌}

unfoldable pub with_gateway : Site → Interpretation → Endpoint → String → Endpoint
unfolding with_vrf gateway_address
with_gateway site i e prefix = record (with_vrf i e) {
  prefixes = some (gateway_address site.first_host prefix prefix ∷ []);
}

-- The branch of a mac-vrf, which claims nothing.
unfoldable pub bridged :
    Interpretation → Option AnycastGatewayIntent → List Endpoint → AllocationError ⊎ ServiceIntent
unfolding and_value over_srv6 srv6_endpoints
bridged i (some g) es = inl bridged_gateway
bridged i none es = and_value (srv6_endpoints es) (λ eps. inr (over_srv6 i "evpn" eps))

module _ {C : Type 0} (site : Site) (claim : String → String → C → Result String × C) where
  -- The loop over the attachments, with one client network claimed for each.
  unfoldable pub client_endpoints :
      Interpretation → String → List Endpoint → C → (AllocationError ⊎ List Endpoint) × C
  unfolding claimed and_then with_gateway
  client_endpoints i correlation_id [] c = (inr [], c)
  client_endpoints i correlation_id (e ∷ es) c =
      and_then (claimed (claim correlation_id (append e.node (append "-" e.attachment)) c))
        (λ prefix c1.
          and_then (client_endpoints i correlation_id es c1)
            (λ rest c2. (inr (with_gateway site i e prefix ∷ rest), c2)))

  -- `_srv6_intent`
  unfoldable pub srv6_intent :
      Interpretation
      → ServiceType
      → List Endpoint
      → String
      → C
      → (AllocationError ⊎ ServiceIntent) × C
  unfolding and_then client_endpoints bridged over_srv6 families value
  srv6_intent i mac_vrf es correlation_id c = (bridged i i.anycast_gateway es, c)
  srv6_intent i ip_vrf es correlation_id c =
      and_then (client_endpoints i correlation_id es c) (λ eps c'.
        (inr (record (over_srv6 i "vpn" eps) { address_families = some (families i) }), c'))
  srv6_intent i vlan es correlation_id c = (inl (not_over_srv6 (value vlan)), c)
  srv6_intent i acl es correlation_id c = (inl (not_over_srv6 (value acl)), c)
