-- ===== src/Intent/Constructs.antt =====
-- agents/common/schemas/normalized_intent.py: what `validate_all_or_nothing` asks of a vlan, a
-- mac-vrf and an ip-vrf. The Boolean argument is the source's local `srv6`.
use agentic_netops.Prelude.{
  ℕ, ◌+◌, Bool, true, false, Option, none, some, List, [], ◌∷◌, ◌++◌, not, ◌&&◌, ltb, leb, is_some,
  truthy, has_text?, or_else, failing, when, length, is_empty, if◌then◌else◌,
}
use agentic_netops.Intent.{
  Endpoint, AddressFamilies, ServiceIntent, Cause, vlan_l2vni, vlan_l3vni, vlan_rd_rt, vlan_gateway,
  vlan_endpoints, mac_vrf_l2vni, mac_vrf_rd_rt, mac_vrf_endpoints, mac_vrf_l3vni_required,
  mac_vrf_l3vni_without_gateway, l3vni_band, ip_vrf_l3vni, ip_vrf_rd_rt, ip_vrf_prefixes,
  ip_vrf_l2vni, ip_vrf_gateway, ip_vrf_endpoints, endpoint_vrf_required,
}
use agentic_netops.Intent.Endpoints.{bridge_domain_causes}

unfoldable pub vlan_checks : Bool → ServiceIntent → List (Bool × Cause)
vlan_checks srv6 s =
    (not srv6 && truthy s.l2vni, vlan_l2vni)
    ∷ (not srv6 && truthy s.l3vni, vlan_l3vni)
    ∷ (not srv6 && is_some s.rd_rt, vlan_rd_rt)
    ∷ (not srv6 && is_some s.anycast_gateway, vlan_gateway)
    ∷ (ltb (length s.endpoints) 1, vlan_endpoints)
    ∷ []

unfoldable pub vlan_causes : Bool → ServiceIntent → List Cause
unfolding vlan_checks
vlan_causes srv6 s = failing (vlan_checks srv6 s) ++ bridge_domain_causes 0 0 s.endpoints

-- The band of L3VNIs that have a service VLAN.
unfoldable pub in_l3vni_band : ℕ → Bool
in_l3vni_band n = leb 10000 n && leb n 14094

min_endpoints : ServiceIntent → ℕ
min_endpoints s = if is_some s.anycast_gateway then 1 else 2

unfoldable pub gateway_causes : Bool → ServiceIntent → List Cause
gateway_causes srv6 s =
    if is_some s.anycast_gateway && not srv6
    then failing (
        (not (truthy s.l3vni), mac_vrf_l3vni_required)
        ∷ (not (in_l3vni_band (or_else s.l3vni 0)), l3vni_band s.l3vni)
        ∷ [])
    else failing ((not srv6 && truthy s.l3vni, mac_vrf_l3vni_without_gateway) ∷ [])

unfoldable pub mac_vrf_checks : Bool → ServiceIntent → List (Bool × Cause)
unfolding min_endpoints
mac_vrf_checks srv6 s =
    (not srv6 && not (truthy s.l2vni), mac_vrf_l2vni)
    ∷ (not srv6 && not (is_some s.rd_rt), mac_vrf_rd_rt)
    ∷ (not srv6 && ltb (length s.endpoints) (min_endpoints s), mac_vrf_endpoints (min_endpoints s))
    ∷ []

unfoldable pub mac_vrf_causes : Bool → ServiceIntent → List Cause
unfolding mac_vrf_checks
mac_vrf_causes srv6 s =
    failing (mac_vrf_checks srv6 s)
    ++ (bridge_domain_causes 0 0 (if srv6 then [] else s.endpoints) ++ gateway_causes srv6 s)

band_or_absent : Option ℕ → Bool
unfolding in_l3vni_band
band_or_absent none = true
band_or_absent (some n) = in_l3vni_band n

unfoldable pub carries_prefix : Option AddressFamilies → Bool
carries_prefix none = false
carries_prefix (some af) = not (is_empty af.ipv4_prefixes && is_empty af.ipv6_prefixes)

unfoldable pub vrf_causes : ℕ → List Endpoint → List Cause
vrf_causes i [] = []
vrf_causes i (e ∷ es) =
    when (not (has_text? e.vrf)) (endpoint_vrf_required i) ++ vrf_causes (i + 1) es

unfoldable pub ip_vrf_checks : Bool → ServiceIntent → List (Bool × Cause)
unfolding band_or_absent
ip_vrf_checks srv6 s =
    (not srv6 && not (truthy s.l3vni), ip_vrf_l3vni)
    ∷ (not srv6 && not (band_or_absent s.l3vni), l3vni_band s.l3vni)
    ∷ (not srv6 && not (is_some s.rd_rt), ip_vrf_rd_rt)
    ∷ (not srv6 && not (carries_prefix s.address_families), ip_vrf_prefixes)
    ∷ (not srv6 && truthy s.l2vni, ip_vrf_l2vni)
    ∷ (not srv6 && is_some s.anycast_gateway, ip_vrf_gateway)
    ∷ (not srv6 && ltb (length s.endpoints) 1, ip_vrf_endpoints)
    ∷ []

unfoldable pub ip_vrf_causes : Bool → ServiceIntent → List Cause
unfolding ip_vrf_checks
ip_vrf_causes srv6 s =
    failing (ip_vrf_checks srv6 s) ++ vrf_causes 0 (if srv6 then [] else s.endpoints)
