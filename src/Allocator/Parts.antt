-- ===== src/Allocator/Parts.antt =====
-- agents/provisioning/allocator/agent.py: the parts of an intent. The interpretation has passed its
-- own model, so a value that it only hands on needs no second check.
use agentic_netops.Allocator.{AllocationError, malformed}
use agentic_netops.Intent.{
  Acl, AclRule, AddressFamilies, AnycastGateway, Endpoint, RdRt, ServiceIntent, Surroundings,
}
use agentic_netops.Interpretation.{
  AclIntent, AnycastGatewayIntent, Interpretation, RuleIntent, Signalling, evpn, value, vpn,
}
use agentic_netops.Prelude.{
  List, Option, String, [], append, has_text, if◌then◌else◌, inl, inr, is_empty, leb, map, none,
  not, or_else, some, ℕ, ◌||◌, ◌∷◌, ◌⊎◌,
}
use agentic_netops.Prelude.Text.{negsuc, pos, ℤ}

-- What is read from outside: the surroundings of the intent's validation, the correlation id that
-- stands in for an empty one, and the first host of the network that a text names, with the
-- length of its prefix, if `ipaddress.ip_network` reads one.
pub record Site : Type 0 where
  pub surroundings : Surroundings
  pub stand_in_id : String
  pub first_host : String → Option String

unfoldable pub rule_of : RuleIntent → AclRule
rule_of r = record {
  name = r.name;
  priority = r.priority;
  action = r.action;
  protocol = r.protocol;
  source_prefix = r.source_prefix;
  destination_prefix = r.destination_prefix;
  source_port = r.source_port;
  destination_port = r.destination_port;
  description = r.description;
}

-- `_normalized_acl`
unfoldable pub normalized_acl : Option AclIntent → Option Acl
unfolding rule_of
normalized_acl none = none
normalized_acl (some a) = some (record {
  name = a.name;
  stage = some a.stage;
  type = some a.type;
  default_action = a.default_action;
  bind_to = none;
  rules = some (map rule_of a.rules);
})

-- `x or y`, of texts
unfoldable pub or_text : Option String → String → String
or_text none t = t
or_text (some s) t = if has_text s then s else t

-- `_gateway_address`, of one prefix
unfoldable pub gateway_address : (String → Option String) → String → String → String
gateway_address first_host prefix fallback = or_else (first_host prefix) fallback

-- The families of the request, or the default one.
unfoldable pub families : Interpretation → AddressFamilies
families i =
    if not (is_empty i.ipv4_prefixes) || not (is_empty i.ipv6_prefixes)
    then record { ipv4_prefixes = i.ipv4_prefixes; ipv6_prefixes = i.ipv6_prefixes }
    else record { ipv4_prefixes = "10.0.0.0/24" ∷ []; ipv6_prefixes = [] }

-- `NormalizedServiceIntent(serviceId=…, type=…, tenant=…, acl=…, endpoints=…)`
unfoldable pub plain_intent : Interpretation → List Endpoint → ServiceIntent
unfolding value normalized_acl
plain_intent i es = record {
  service_id = i.service_id;
  type = value i.service_type;
  tenant = i.tenant;
  rd_rt = none;
  l2vni = none;
  l3vni = none;
  address_families = none;
  anycast_gateway = none;
  transport = "vxlan";
  signalling = none;
  preferred_spine = none;
  endpoints = es;
  policies = none;
  unsupported = none;
  acl = normalized_acl i.access_list;
}

unfoldable pub signalling_or : Option Signalling → String → String
signalling_or none t = t
signalling_or (some vpn) t = "vpn"
signalling_or (some evpn) t = "evpn"

-- `e.vrf or f"vrf-{interp.tenant}"`
unfoldable pub vrf_of : Interpretation → Endpoint → String
unfolding or_text
vrf_of i e = or_text e.vrf (append "vrf-" i.tenant)

unfoldable pub with_vrf : Interpretation → Endpoint → Endpoint
unfolding vrf_of
with_vrf i e = record {
  node = e.node;
  attachment = e.attachment;
  vlan = none;
  vrf = some (vrf_of i e);
  prefixes = none;
}

unfoldable pub over_srv6 : Interpretation → String → List Endpoint → ServiceIntent
unfolding plain_intent signalling_or
over_srv6 i default es = record (plain_intent i es) {
  transport = "srv6";
  signalling = some (signalling_or i.signalling default);
  preferred_spine = i.preferred_spine;
}

-- `rd: str = Field(min_length=1)`
unfoldable pub rd_field : RdRt → AllocationError ⊎ RdRt
rd_field r = if has_text r.rd then inr r else inl malformed

-- `ge=1` of a claimed number
unfoldable pub number_field : ℤ → AllocationError ⊎ ℕ
number_field (pos n) = if leb 1 n then inr n else inl malformed
number_field (negsuc n) = inl malformed

unfoldable pub gateway_of : AnycastGatewayIntent → AnycastGateway
gateway_of g = record {
  ip_vrf = none;
  gateway_ipv4 = or_else g.ipv4 "";
  gateway_ipv6 = or_else g.ipv6 "";
}
