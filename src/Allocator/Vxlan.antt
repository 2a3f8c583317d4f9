-- ===== src/Allocator/Vxlan.antt =====
-- agents/provisioning/allocator/agent.py: the branches of `_build_intent` on vxlan.
use agentic_netops.Allocator.{AllocationError, Allocators, and_then, and_value, claimed}
use agentic_netops.Allocator.Endpoints.{l2_endpoints}
use agentic_netops.Allocator.Parts.{
  families, gateway_of, number_field, plain_intent, rd_field, with_vrf,
}
use agentic_netops.Intent.{AnycastGateway, Endpoint, RdRt, ServiceIntent}
use agentic_netops.Interpretation.{
  AnycastGatewayIntent, Interpretation, ServiceType, acl, ip_vrf, mac_vrf, vlan,
}
use agentic_netops.Prelude.{List, Option, String, inr, map, none, some, ◌⊎◌}
use agentic_netops.Prelude.Text.{ℤ}

unfoldable pub mac_vrf_built :
    Interpretation
    → List Endpoint
    → RdRt
    → ℤ
    → Option (ℤ × AnycastGateway)
    → AllocationError ⊎ ServiceIntent
unfolding and_value plain_intent number_field
mac_vrf_built i es rd l2 none =
    and_value (number_field l2)
      (λ n. inr (record (plain_intent i es) { rd_rt = some rd; l2vni = some n }))
mac_vrf_built i es rd l2 (some (l3, gateway)) = and_value (number_field l2) (λ n.
    and_value (number_field l3) (λ m. inr (record (plain_intent i es) {
      rd_rt = some rd;
      l2vni = some n;
      l3vni = some m;
      anycast_gateway = some gateway;
    })))

unfoldable pub ip_vrf_built :
    Interpretation → List Endpoint → RdRt → ℤ → AllocationError ⊎ ServiceIntent
unfolding and_value plain_intent number_field families with_vrf
ip_vrf_built i es rd l3 = and_value (number_field l3) (λ n.
    inr (record (plain_intent i (map (with_vrf i) es)) {
      rd_rt = some rd;
      l3vni = some n;
      address_families = some (families i);
    }))

module _ {C : Type 0} (kuid : Allocators C) where
  -- The L3VNI that only a gateway asks for.
  routed :
      String → Option AnycastGatewayIntent → C → (AllocationError ⊎ Option (ℤ × AnycastGateway)) × C
  unfolding claimed and_then gateway_of
  routed correlation_id none c = (inr none, c)
  routed correlation_id (some g) c =
      and_then (claimed (kuid.allocate_l3vni correlation_id c))
        (λ n c'. (inr (some (n, gateway_of g)), c'))

  claim_rd : String → C → (AllocationError ⊎ RdRt) × C
  unfolding claimed and_then rd_field
  claim_rd correlation_id c =
      and_then (claimed (kuid.allocate_rd_rt correlation_id c)) (λ r c'. (rd_field r, c'))

  -- The branch of a mac-vrf on vxlan.
  unfoldable pub mac_vrf_intent :
      Interpretation → List Endpoint → String → C → (AllocationError ⊎ ServiceIntent) × C
  unfolding and_then claimed l2_endpoints claim_rd routed mac_vrf_built
  mac_vrf_intent i es correlation_id c =
      and_then (l2_endpoints kuid es correlation_id "mac-vrf" c) (λ eps c1.
        and_then (claimed (kuid.allocate_l2vni correlation_id c1)) (λ l2 c2.
          and_then (claim_rd correlation_id c2) (λ rd c3.
            and_then (routed correlation_id i.anycast_gateway c3)
              (λ l3 c4. (mac_vrf_built i eps rd l2 l3, c4)))))

  -- The branch of an ip-vrf on vxlan.
  unfoldable pub ip_vrf_intent :
      Interpretation → List Endpoint → String → C → (AllocationError ⊎ ServiceIntent) × C
  unfolding and_then claimed claim_rd ip_vrf_built
  ip_vrf_intent i es correlation_id c =
      and_then (claimed (kuid.allocate_l3vni correlation_id c))
        (λ l3 c1. and_then (claim_rd correlation_id c1) (λ rd c2. (ip_vrf_built i es rd l3, c2)))

  unfoldable pub vxlan_intent :
      Interpretation
      → ServiceType
      → List Endpoint
      → String
      → C
      → (AllocationError ⊎ ServiceIntent) × C
  unfolding and_then l2_endpoints plain_intent mac_vrf_intent ip_vrf_intent
  vxlan_intent i vlan es correlation_id c =
      and_then (l2_endpoints kuid es correlation_id "vlan" c)
        (λ eps c'. (inr (plain_intent i eps), c'))
  vxlan_intent i mac_vrf es correlation_id c = mac_vrf_intent i es correlation_id c
  vxlan_intent i ip_vrf es correlation_id c = ip_vrf_intent i es correlation_id c
  vxlan_intent i acl es correlation_id c = (inr (plain_intent i es), c)
