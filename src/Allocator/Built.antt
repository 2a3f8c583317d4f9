-- ===== src/Allocator/Built.antt =====
-- agents/provisioning/allocator/agent.py: what `_build_intent` returns.
use agentic_netops.Allocator.{
  Allocators, Gives, and_then, and_then-Gives, and_then_any, fails, gives,
}
use agentic_netops.Allocator.Building.{build_intent, by_transport, checked}
use agentic_netops.Allocator.Endpoints.{deterministic_endpoints, endpoint_of}
use agentic_netops.Allocator.Order.{
  Ascending, deterministic_endpoints-Ascending, deterministic_endpoints-Perm, place_of-endpoint_of,
  site_of,
}
use mathlib.Core.List.{Perm}
use agentic_netops.Allocator.Parts.{Site, plain_intent, with_vrf}
use agentic_netops.Allocator.Requested.{
  Requested, bridged-Requested, ip_vrf_built-Requested, mac_vrf_built-Requested,
  over_srv6-Requested, plain_intent-Requested,
}
use agentic_netops.Allocator.Shared.{OneVlan, l2_endpoints-OneVlan, place_of}
use agentic_netops.Allocator.Srv6.{client_endpoints, srv6_intent, with_gateway}
use agentic_netops.Allocator.Vxlan.{ip_vrf_intent, mac_vrf_built, mac_vrf_intent, vxlan_intent}
use agentic_netops.Intent.{AnycastGateway, Cause, Endpoint, RdRt, ServiceIntent, Surroundings}
use agentic_netops.Intent.Validate.{validate_all_or_nothing}
use agentic_netops.Interpretation.{
  Interpretation, ServiceType, Transport, acl, ip_vrf, mac_vrf, srv6, vlan, vxlan,
}
use agentic_netops.Prelude.{
  List, Option, String, [], ap, arith, false, inr, map, none, refl, some, subst, sym, ◌∷◌, ◌≡◌,
}
use agentic_netops.Prelude.Text.{ℤ}

abbrev pub transport_name : Option Transport → String
transport_name (some srv6) = "srv6"
transport_name _ = "vxlan"

-- The endpoints of the request, in the order of node and attachment.
abbrev pub ordered : Interpretation → List Endpoint
ordered i = deterministic_endpoints (map endpoint_of i.endpoints)

-- What the allocator promises of an intent: it is the one that was asked for, its endpoints are those
-- of the request, in the order of node and attachment, and it is valid.
pub record Allocated (env : Surroundings) (i : Interpretation) (intent : ServiceIntent)
    : Type 0 where
  pub requested : Requested i (transport_name i.transport) (ordered i) intent
  pub in_order : Ascending (map place_of intent.endpoints)
  pub same_places : Perm (map place_of intent.endpoints) (map site_of i.endpoints)
  pub accepted : validate_all_or_nothing env false intent ≡ none

module _ {C : Type 0} (kuid : Allocators C) (site : Site) (i : Interpretation) where
  gateways-places :
      (e : Endpoint) (prefix : String) (es eps : List Endpoint)
      → map place_of eps ≡ map place_of es
      → map place_of (with_gateway site i e prefix ∷ eps) ≡ map place_of (e ∷ es)
  unfolding with_gateway with_vrf
  gateways-places e prefix es eps h = ap (λ l. place_of e ∷ l) h

  client_endpoints-places :
      (cid : String) (es : List Endpoint) (c : C)
      → Gives
          (λ eps. map place_of eps ≡ map place_of es)
          (client_endpoints site kuid.allocate_client_prefix i cid es c)
  unfolding client_endpoints
  client_endpoints-places cid [] c = gives _ c refl
  client_endpoints-places cid (e ∷ es) c =
      search
        (and_then_any, and_then-Gives (client_endpoints-places cid es _), gives, gateways-places)

  srv6_intent-Requested :
      (kind : ServiceType) (es : List Endpoint) (cid : String) (c : C)
      → Gives (Requested i "srv6" es) (srv6_intent site kuid.allocate_client_prefix i kind es cid c)
  unfolding srv6_intent
  srv6_intent-Requested mac_vrf es cid c = bridged-Requested i i.anycast_gateway es c
  srv6_intent-Requested ip_vrf es cid c =
      search (and_then-Gives (client_endpoints-places cid es c), gives, over_srv6-Requested)
  srv6_intent-Requested vlan es cid c = fails _ c
  srv6_intent-Requested acl es cid c = fails _ c

  plain_intent-on_one :
      (es eps : List Endpoint) (c : C)
      → OneVlan es eps
      → Gives (Requested i "vxlan" es) (inr (plain_intent i eps), c)
  plain_intent-on_one es eps c h = plain_intent-Requested i es eps c h.same_places

  mac_vrf_built-on_one :
      (es eps : List Endpoint) (rd : RdRt) (l2 : ℤ) (l3 : Option (ℤ × AnycastGateway)) (c : C)
      → OneVlan es eps
      → Gives (Requested i "vxlan" es) (mac_vrf_built i eps rd l2 l3, c)
  mac_vrf_built-on_one es eps rd l2 l3 c h =
      mac_vrf_built-Requested i es eps rd l2 l3 c h.same_places

  vxlan_intent-Requested :
      (kind : ServiceType) (es : List Endpoint) (cid : String) (c : C)
      → Gives (Requested i "vxlan" es) (vxlan_intent kuid i kind es cid c)
  unfolding vxlan_intent mac_vrf_intent ip_vrf_intent
  vxlan_intent-Requested vlan es cid c =
      search (and_then-Gives (l2_endpoints-OneVlan kuid es cid "vlan" c), plain_intent-on_one)
  vxlan_intent-Requested mac_vrf es cid c = search (
    and_then-Gives (l2_endpoints-OneVlan kuid es cid "mac-vrf" c),
    and_then_any,
    mac_vrf_built-on_one,
  )
  vxlan_intent-Requested ip_vrf es cid c = search (and_then_any, ip_vrf_built-Requested)
  vxlan_intent-Requested acl es cid c = plain_intent-Requested i es es c refl

  by_transport-Requested :
      (t : Option Transport) (es : List Endpoint) (cid : String) (c : C)
      → Gives (Requested i (transport_name t) es) (by_transport kuid site i t es cid c)
  unfolding by_transport
  by_transport-Requested (some srv6) = srv6_intent-Requested i.service_type
  by_transport-Requested (some vxlan) = vxlan_intent-Requested i.service_type
  by_transport-Requested none = vxlan_intent-Requested i.service_type

  checked-Allocated :
      (intent : ServiceIntent) (o : Option (List Cause)) (c : C)
      → Requested i (transport_name i.transport) (ordered i) intent
      → validate_all_or_nothing site.surroundings false intent ≡ o
      → Gives (Allocated site.surroundings i) (checked intent o, c)
  unfolding checked
  checked-Allocated intent none c r h = gives _ c (record {
    requested = r;
    in_order =
        subst Ascending (sym r.places)
          (deterministic_endpoints-Ascending (map endpoint_of i.endpoints));
    same_places =
        subst (λ l. Perm l (map site_of i.endpoints)) (sym r.places)
          (subst (Perm (map place_of (ordered i))) (place_of-endpoint_of i.endpoints)
            (deterministic_endpoints-Perm (map endpoint_of i.endpoints)));
    accepted = h;
  })
  checked-Allocated intent (some causes) c r h = fails _ c

  verdict-Allocated :
      (intent : ServiceIntent) (c : C)
      → Requested i (transport_name i.transport) (ordered i) intent
      → Gives
          (Allocated site.surroundings i)
          (checked intent (validate_all_or_nothing site.surroundings false intent), c)
  verdict-Allocated intent c r = checked-Allocated intent _ c r refl

  -- What `_build_intent` returns has the names, the construct, the transport and the filter of the
  -- request, its endpoints are in the places of the request, none added or lost, each no later than
  -- the next by node and then attachment, and its validation names no cause.
  pub build_intent-Allocated :
      (cid : String) (c : C)
      → Gives (Allocated site.surroundings i) (build_intent kuid site i cid c)
  unfolding build_intent
  build_intent-Allocated cid c =
      search
        (and_then-Gives (by_transport-Requested i.transport (ordered i) _ c), verdict-Allocated)

module _ {C : Type 0} (kuid kuid' : Allocators C) (site : Site) (i : Interpretation)
    (same : kuid.allocate_client_prefix ≡ kuid'.allocate_client_prefix) where
  by_transport-free :
      (t : Option Transport) (es : List Endpoint) (cid : String) (c : C)
      → t ≡ some srv6
      → by_transport kuid site i t es cid c ≡ by_transport kuid' site i t es cid c
  unfolding by_transport
  by_transport-free none es cid c h = absurd (ground arith)
  by_transport-free (some vxlan) es cid c h = absurd (ground arith)
  by_transport-free (some srv6) es cid c h =
      ap (λ f. srv6_intent site f i i.service_type es cid c) same

  -- Over srv6 the result and the cluster that `_build_intent` leaves depend on the client's prefixes
  -- alone: it claims no vlan, VNI or route distinguisher, whatever these calls would do.
  pub build_intent_claims_prefixes :
      (cid : String) (c : C)
      → i.transport ≡ some srv6
      → build_intent kuid site i cid c ≡ build_intent kuid' site i cid c
  unfolding build_intent
  build_intent_claims_prefixes cid c h =
      ap
        (λ r. and_then r (λ intent c'.
          (checked intent (validate_all_or_nothing site.surroundings false intent), c')))
        (by_transport-free i.transport (ordered i) _ c h)
