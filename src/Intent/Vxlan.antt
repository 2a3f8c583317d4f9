-- ===== src/Intent/Vxlan.antt =====
-- agents/common/schemas/normalized_intent.py: which intents are accepted on the vxlan transport,
-- construct by construct.
use agentic_netops.Intent.{AnycastGateway, Endpoint, ServiceIntent, UnsupportedClaims, present}
use agentic_netops.Intent.BridgeDomain.{UsesVlan, bridge_domain_iff}
use agentic_netops.Intent.Constructs.{
  carries_prefix, gateway_causes, in_l3vni_band, ip_vrf_causes, ip_vrf_checks, mac_vrf_causes,
  mac_vrf_checks, vlan_causes, vlan_checks, vrf_causes,
}
use agentic_netops.Intent.Endpoints.{bridge_domain_causes}
use agentic_netops.Intent.Named.{IsNamed, claims}
use agentic_netops.Intent.Transport.{claims_te_policy, is_srv6, transport_causes, vxlan_checks}
use agentic_netops.Prelude.{
  All, AllFalse, List, Option, String, [], append-eq-nil, arith, contains, failing, failing-eq-nil,
  false, has_text?, if◌then◌else◌, is_some, length, none, refl, some, str_eq, true, truthy, ℕ, ◌+◌,
  ◌↔◌, ◌∷◌, ◌≡◌, ◌≢◌, ◌≤◌,
}

-- The fields that only the srv6 transport has are absent.
pub record IsPlain (s : ServiceIntent) : Type 0 where
  pub signalling : s.signalling ≡ none
  pub preferred_spine : s.preferred_spine ≡ none

pub no_te_policy : (u : Option UnsupportedClaims) → claims u ≡ [] → claims_te_policy u ≡ false
unfolding present claims_te_policy
no_te_policy none h = refl
no_te_policy (some u) h = ground arith

transport_known : (t : String) → t ≡ "vxlan" → contains ("vxlan" ∷ "srv6" ∷ []) t ≡ true
transport_known t e = rw e

transport_plain : (t : String) → t ≡ "vxlan" → str_eq t "srv6" ≡ false
transport_plain t e = rw e

pub not_srv6 : (s : ServiceIntent) → s.transport ≡ "vxlan" → is_srv6 s ≡ false
unfolding is_srv6
not_srv6 s t = transport_plain s.transport t

vxlan_transport_causes :
    (env : Option String) (s : ServiceIntent)
    → s.transport ≡ "vxlan"
    → transport_causes env s ≡ failing (vxlan_checks s)
unfolding transport_causes
vxlan_transport_causes env s t = rw (transport_known s.transport t, not_srv6 s t)

pub vxlan_transport_iff :
    (env : Option String) (s : ServiceIntent)
    → s.transport ≡ "vxlan"
    → IsNamed s
    → (transport_causes env s ≡ []) ↔ IsPlain s
unfolding vxlan_checks
vxlan_transport_iff env s t n =
    ground (arith, vxlan_transport_causes env s t, no_te_policy s.unsupported n.no_claims)

-- A vlan is local to its node: no VNI, no route distinguisher, no gateway, and one usable vlan that
-- every endpoint names.
pub record IsVlan (s : ServiceIntent) : Type 0 where
  pub no_l2vni : truthy s.l2vni ≡ false
  pub no_l3vni : truthy s.l3vni ≡ false
  pub no_rd_rt : s.rd_rt ≡ none
  pub no_gateway : s.anycast_gateway ≡ none
  pub shared_vlan : (v : ℕ) × UsesVlan s.endpoints v

shared_iff :
    (es : List Endpoint) → es ≢ [] → (bridge_domain_causes 0 0 es ≡ []) ↔ ((v : ℕ) × UsesVlan es v)
shared_iff [] h = absurd (h refl)
shared_iff (e ∷ es) h = bridge_domain_iff 0 e es

vlan_checks_iff :
    (s : ServiceIntent)
    → s.endpoints ≢ []
    → AllFalse (vlan_checks false s) ↔ (
        (truthy s.l2vni ≡ false)
        × (truthy s.l3vni ≡ false)
        × (s.rd_rt ≡ none)
        × (s.anycast_gateway ≡ none))
unfolding vlan_checks
vlan_checks_iff s h = ground arith

pub vlan_causes_iff : (s : ServiceIntent) → s.endpoints ≢ [] → (vlan_causes false s ≡ []) ↔ IsVlan s
unfolding vlan_causes
vlan_causes_iff s h = (
  λ e.
      let (checks, vlans) = (append-eq-nil _ _).0 e in
      let (a, b, c, d) =
        (vlan_checks_iff s h).0 ((failing-eq-nil (vlan_checks false s)).0 checks) in
      record {
        no_l2vni = a;
        no_l3vni = b;
        no_rd_rt = c;
        no_gateway = d;
        shared_vlan = (shared_iff s.endpoints h).0 vlans;
      },
  λ v. (append-eq-nil _ _).1 (
    (failing-eq-nil (vlan_checks false s)).1
        ((vlan_checks_iff s h).1 (v.no_l2vni, v.no_l3vni, v.no_rd_rt, v.no_gateway)),
    (shared_iff s.endpoints h).1 v.shared_vlan,
  ),
)

-- An L3VNI that has a service VLAN.
abbrev pub InBand : Option ℕ → Type 0
InBand none = ⊥
InBand (some n) = (10000 ≤ n) × (n ≤ 14094)

-- With a gateway the mac-vrf routes, so it has such an L3VNI; without one it has none.
abbrev pub Routes : Option AnycastGateway → Option ℕ → Type 0
Routes none l3vni = truthy l3vni ≡ false
Routes (some g) l3vni = InBand l3vni

-- A mac-vrf: an L2VNI and a route distinguisher, one usable vlan on at least two endpoints, or on
-- one if it has a gateway, and an L3VNI exactly as its gateway asks.
pub record IsMacVrf (s : ServiceIntent) : Type 0 where
  pub l2vni : truthy s.l2vni ≡ true
  pub rd_rt : is_some s.rd_rt ≡ true
  pub enough : (if is_some s.anycast_gateway then 1 else 2) ≤ length s.endpoints
  pub shared_vlan : (v : ℕ) × UsesVlan s.endpoints v
  pub routes : Routes s.anycast_gateway s.l3vni

-- An ip-vrf: an L3VNI that has a service VLAN, a route distinguisher, a prefix, no bridge domain,
-- and a VRF on every endpoint.
pub record IsIpVrf (s : ServiceIntent) : Type 0 where
  pub l3vni : InBand s.l3vni
  pub rd_rt : is_some s.rd_rt ≡ true
  pub prefixes : carries_prefix s.address_families ≡ true
  pub no_l2vni : truthy s.l2vni ≡ false
  pub no_gateway : s.anycast_gateway ≡ none
  pub vrfs : All (λ e. has_text? e.vrf ≡ true) s.endpoints

mac_vrf_checks_iff :
    (s : ServiceIntent)
    → AllFalse (mac_vrf_checks false s) ↔ (
        (truthy s.l2vni ≡ true)
        × (is_some s.rd_rt ≡ true)
        × ((if is_some s.anycast_gateway then 1 else 2) ≤ length s.endpoints))
unfolding mac_vrf_checks
mac_vrf_checks_iff s = ground arith

gateway_iff : (s : ServiceIntent) → (gateway_causes false s ≡ []) ↔ Routes s.anycast_gateway s.l3vni
unfolding gateway_causes in_l3vni_band
gateway_iff s = ground arith

pub mac_vrf_causes_iff :
    (s : ServiceIntent) → s.endpoints ≢ [] → (mac_vrf_causes false s ≡ []) ↔ IsMacVrf s
unfolding mac_vrf_causes
mac_vrf_causes_iff s h = (
  λ e.
      let (checks, rest) = (append-eq-nil _ _).0 e in
      let (vlans, routed) = (append-eq-nil _ _).0 rest in
      let (a, b, c) =
        (mac_vrf_checks_iff s).0 ((failing-eq-nil (mac_vrf_checks false s)).0 checks) in
      record {
        l2vni = a;
        rd_rt = b;
        enough = c;
        shared_vlan = (shared_iff s.endpoints h).0 vlans;
        routes = (gateway_iff s).0 routed;
      },
  λ m. (append-eq-nil _ _).1 (
    (failing-eq-nil (mac_vrf_checks false s)).1
        ((mac_vrf_checks_iff s).1 (m.l2vni, m.rd_rt, m.enough)),
    (append-eq-nil _ _).1 ((shared_iff s.endpoints h).1 m.shared_vlan, (gateway_iff s).1 m.routes),
  ),
)

vrf_causes_iff :
    (i : ℕ) (es : List Endpoint) → (vrf_causes i es ≡ []) ↔ All (λ e. has_text? e.vrf ≡ true) es
unfolding vrf_causes
vrf_causes_iff i [] = (λ h. tt, λ h. refl)
vrf_causes_iff i (e ∷ es) = ground (arith, vrf_causes_iff (i + 1) es)

ip_vrf_checks_iff :
    (s : ServiceIntent)
    → s.endpoints ≢ []
    → AllFalse (ip_vrf_checks false s) ↔ (
        InBand s.l3vni
        × (is_some s.rd_rt ≡ true)
        × (carries_prefix s.address_families ≡ true)
        × (truthy s.l2vni ≡ false)
        × (s.anycast_gateway ≡ none))
unfolding ip_vrf_checks in_l3vni_band
ip_vrf_checks_iff s h = ground arith

pub ip_vrf_causes_iff :
    (s : ServiceIntent) → s.endpoints ≢ [] → (ip_vrf_causes false s ≡ []) ↔ IsIpVrf s
unfolding ip_vrf_causes
ip_vrf_causes_iff s h = (
  λ e.
      let (checks, vrfs) = (append-eq-nil _ _).0 e in
      let (a, b, c, d, g) =
        (ip_vrf_checks_iff s h).0 ((failing-eq-nil (ip_vrf_checks false s)).0 checks) in
      record {
        l3vni = a;
        rd_rt = b;
        prefixes = c;
        no_l2vni = d;
        no_gateway = g;
        vrfs = (vrf_causes_iff 0 s.endpoints).0 vrfs;
      },
  λ v. (append-eq-nil _ _).1 (
    (failing-eq-nil (ip_vrf_checks false s)).1
        ((ip_vrf_checks_iff s h).1 (v.l3vni, v.rd_rt, v.prefixes, v.no_l2vni, v.no_gateway)),
    (vrf_causes_iff 0 s.endpoints).1 v.vrfs,
  ),
)
