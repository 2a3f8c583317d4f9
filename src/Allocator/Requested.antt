-- ===== src/Allocator/Requested.antt =====
-- agents/provisioning/allocator/agent.py: the parts of an intent are those that its request asks for.
use agentic_netops.Allocator.{Gives, and_value-Gives, and_value_any, fails, gives}
use agentic_netops.Allocator.Endpoints.{carried, declared_vlans, srv6_endpoints}
use agentic_netops.Allocator.Parts.{normalized_acl, over_srv6, plain_intent, with_vrf}
use agentic_netops.Allocator.Shared.{place_of, place_of-on_vlan}
use agentic_netops.Allocator.Srv6.{bridged}
use agentic_netops.Allocator.Vxlan.{ip_vrf_built, mac_vrf_built}
use agentic_netops.Intent.{AddressFamilies, AnycastGateway, Endpoint, RdRt, ServiceIntent}
use agentic_netops.Interpretation.{AnycastGatewayIntent, Interpretation, value}
use agentic_netops.Prelude.{List, Option, String, [], ap, inr, map, none, refl, some, ℕ, ◌∷◌, ◌≡◌}
use agentic_netops.Prelude.Text.{ℤ}

-- The intent that a request asks for on a transport, whatever identifiers it got: the names, the
-- construct, the filter and the places are those of the request.
pub record Requested (i : Interpretation) (over : String) (es : List Endpoint)
    (intent : ServiceIntent) : Type 0 where
  pub service_id : intent.service_id ≡ i.service_id
  pub tenant : intent.tenant ≡ i.tenant
  pub construct : intent.type ≡ value i.service_type
  pub transport : intent.transport ≡ over
  pub filter : intent.acl ≡ normalized_acl i.access_list
  pub places : map place_of intent.endpoints ≡ map place_of es

place_of-with_vrf :
    (i : Interpretation) (es : List Endpoint) → map place_of (map (with_vrf i) es) ≡ map place_of es
unfolding with_vrf
place_of-with_vrf i [] = refl
place_of-with_vrf i (e ∷ es) = ap (λ l. place_of e ∷ l) (place_of-with_vrf i es)

-- The identifiers of an intent are no part of what the request names.
pub identified :
    (i : Interpretation) (es eps : List Endpoint) (rd : Option RdRt) (l2 l3 : Option ℕ)
    (af : Option AddressFamilies) (gateway : Option AnycastGateway)
    → map place_of eps ≡ map place_of es
    → Requested i "vxlan" es (record (plain_intent i eps) {
      rd_rt = rd;
      l2vni = l2;
      l3vni = l3;
      address_families = af;
      anycast_gateway = gateway;
    })
unfolding plain_intent
identified i es eps rd l2 l3 af gateway h = record {
  service_id = refl;
  tenant = refl;
  construct = refl;
  transport = refl;
  filter = refl;
  places = h;
}

pub over_srv6-Requested :
    (i : Interpretation) (es eps : List Endpoint) (default : String) (af : Option AddressFamilies)
    → map place_of eps ≡ map place_of es
    → Requested i "srv6" es (record (over_srv6 i default eps) { address_families = af })
unfolding over_srv6 plain_intent
over_srv6-Requested i es eps default af h = record {
  service_id = refl;
  tenant = refl;
  construct = refl;
  transport = refl;
  filter = refl;
  places = h;
}

module _ {C : Type 0} (i : Interpretation) where
  pub plain_intent-Requested :
      (es eps : List Endpoint) (c : C)
      → map place_of eps ≡ map place_of es
      → Gives (Requested i "vxlan" es) (inr (plain_intent i eps), c)
  unfolding plain_intent
  plain_intent-Requested es eps c h = gives _ c (identified i es eps none none none none none h)

  pub mac_vrf_built-Requested :
      (es eps : List Endpoint) (rd : RdRt) (l2 : ℤ) (l3 : Option (ℤ × AnycastGateway)) (c : C)
      → map place_of eps ≡ map place_of es
      → Gives (Requested i "vxlan" es) (mac_vrf_built i eps rd l2 l3, c)
  unfolding mac_vrf_built plain_intent
  mac_vrf_built-Requested es eps rd l2 none c h = search (and_value_any, gives, identified i es eps)
  mac_vrf_built-Requested es eps rd l2 (some (l3, g)) c h =
      search (and_value_any, gives, identified i es eps)

  pub ip_vrf_built-Requested :
      (es : List Endpoint) (rd : RdRt) (l3 : ℤ) (c : C)
      → Gives (Requested i "vxlan" es) (ip_vrf_built i es rd l3, c)
  unfolding ip_vrf_built plain_intent
  ip_vrf_built-Requested es rd l3 c =
      search (and_value_any, gives, identified i es (map (with_vrf i) es), place_of-with_vrf)

  carried-places :
      (es : List Endpoint) (vs : List ℕ) (c : C)
      → Gives (λ eps. map place_of eps ≡ map place_of es) (carried es vs, c)
  unfolding carried
  carried-places es [] c = gives _ c (place_of-on_vlan none es)
  carried-places es (v ∷ []) c = gives _ c (place_of-on_vlan (some v) es)
  carried-places es (v ∷ w ∷ vs) c = fails _ c

  pub bridged-Requested :
      (g : Option AnycastGatewayIntent) (es : List Endpoint) (c : C)
      → Gives (Requested i "srv6" es) (bridged i g es, c)
  unfolding bridged srv6_endpoints
  bridged-Requested (some g) es c = fails _ c
  bridged-Requested none es c =
      search (and_value-Gives (carried-places es (declared_vlans es) c), gives, over_srv6-Requested)
