-- ===== src/Tests/Intents.antt =====
-- agents/common/schemas/normalized_intent.py on small intents.
use agentic_netops.Intent.{
  Acl, AclRule, Cause, Endpoint, RdRt, RuleField, ServiceIntent, Surroundings,
  endpoint_vlan_differs, endpoint_vlan_required, endpoint_vlan_reserved, number,
  rule_name_duplicate, rule_not_prefix, rule_priority_used, rule_range_reversed,
  signalling_needs_srv6, word,
}
use agentic_netops.Intent.Accepted.{
  validate_all_or_nothing-IsIpVrf, validate_all_or_nothing-IsMacVrf, validate_all_or_nothing-IsVlan,
}
use agentic_netops.Intent.AccessList.{
  acl_causes, acl_checks, has_ports, is_action, is_known_protocol, list_causes, list_checks,
  lower_protocol, name_causes, note_name, note_priority, own_list_causes, port_causes,
  prefix_causes, priority_causes, protocol_causes, rule_causes, rules_causes,
}
use agentic_netops.Intent.Constructs.{
  carries_prefix, gateway_causes, in_l3vni_band, ip_vrf_causes, ip_vrf_checks, mac_vrf_causes,
  mac_vrf_checks, vlan_causes, vlan_checks, vrf_causes,
}
use agentic_netops.Intent.Endpoints.{bridge_domain_causes, endpoint_vlan_causes, next_vlan}
use agentic_netops.Intent.Named.{IsNamed}
use agentic_netops.Intent.Rules.{IsAccessList, validate_all_or_nothing-IsAccessList}
use agentic_netops.Intent.Srv6.{IsSrv6, validate_all_or_nothing-IsSrv6}
use agentic_netops.Intent.Transport.{
  claims_te_policy, is_srv6, joins_two_nodes, spine_causes, spines_of, srv6_causes, srv6_checks,
  transport_causes, vxlan_checks,
}
use agentic_netops.Intent.Validate.{
  all_causes, basic_causes, claim_causes, construct_causes, name_checks, validate_all_or_nothing,
}
use agentic_netops.Intent.Vxlan.{IsIpVrf, IsMacVrf, IsPlain, IsVlan}
use agentic_netops.Prelude.{
  List, Option, String, [], false, if◌then◌else◌, is_some, none, refl, some, ℕ, ◌↔◌, ◌∷◌, ◌≡◌, ◌≢◌,
}
use agentic_netops.Prelude.Text.{lower, parse_int, pos, split, split_once, strip}

abbrev bare : String → ServiceIntent
bare kind = record {
  service_id = "svc-1";
  type = kind;
  tenant = "acme";
  rd_rt = none;
  l2vni = none;
  l3vni = none;
  address_families = none;
  anycast_gateway = none;
  transport = "vxlan";
  signalling = none;
  preferred_spine = none;
  endpoints = [];
  policies = none;
  unsupported = none;
  acl = none;
}

abbrev pub at : String → Option ℕ → Endpoint
at node vlan = record { node = node; attachment = "eth1"; vlan = vlan; vrf = none; prefixes = none }

abbrev in_vrf : Endpoint
in_vrf = record {
  node = "leaf01";
  attachment = "eth1";
  vlan = none;
  vrf = some "vrf-acme";
  prefixes = none;
}

-- Every text with a dot is read as an IPv4 network, and no other.
abbrev pub env : Surroundings
env = record {
  spine_nodes = some "spine01, spine02";
  ip_version = λ s. if is_some (split_once 46 s) then some 4 else none;
}

abbrev rd : RdRt
rd = record { rd = "65000:7"; import_rt = "65000:7" ∷ []; export_rt = "65000:7" ∷ [] }

abbrev pub vlan_intent : ServiceIntent
vlan_intent = record (bare "vlan") {
  endpoints = at "leaf01" (some 100) ∷ at "leaf02" (some 100) ∷ [];
}

abbrev mac_vrf_intent : ServiceIntent
mac_vrf_intent = record (bare "mac-vrf") {
  rd_rt = some rd;
  l2vni = some 10007;
  l3vni = some 10008;
  anycast_gateway =
      some (record { ip_vrf = none; gateway_ipv4 = "10.0.0.1/24"; gateway_ipv6 = "" });
  endpoints = at "leaf01" (some 100) ∷ [];
}

abbrev ip_vrf_intent : ServiceIntent
ip_vrf_intent = record (bare "ip-vrf") {
  rd_rt = some rd;
  l3vni = some 10008;
  address_families = some (record { ipv4_prefixes = "10.0.0.0/24" ∷ []; ipv6_prefixes = [] });
  endpoints = in_vrf ∷ [];
}

abbrev srv6_intent : ServiceIntent
srv6_intent = record (bare "mac-vrf") {
  transport = "srv6";
  signalling = some "evpn";
  preferred_spine = some "spine02";
  endpoints = at "leaf01" none ∷ at "leaf02" none ∷ [];
}

abbrev web_rule : AclRule
web_rule = record {
  name = "web";
  priority = 10;
  action = "permit";
  protocol = some (word "TCP");
  source_prefix = some "10.0.0.0/8";
  destination_prefix = none;
  source_port = none;
  destination_port = some "80-443";
  description = none;
}

abbrev web_list : Acl
web_list = record {
  name = none;
  stage = some "ingress";
  type = some "l3";
  default_action = some "deny";
  bind_to = none;
  rules = some (
      web_rule
      ∷ record web_rule {
        name = "any";
        priority = 20;
        protocol = some (number (pos 6));
        destination_port = none;
      }
      ∷ []);
}

abbrev acl_intent : ServiceIntent
acl_intent = record (bare "acl") { acl = some web_list; endpoints = at "leaf01" none ∷ [] }

-- The whole validation, open.
validated : ServiceIntent → Option (List Cause)
unfolding validate_all_or_nothing all_causes basic_causes name_checks claim_causes transport_causes
    is_srv6 vxlan_checks srv6_causes srv6_checks spine_causes joins_two_nodes spines_of
    claims_te_policy construct_causes vlan_causes vlan_checks mac_vrf_causes mac_vrf_checks
    ip_vrf_causes ip_vrf_checks gateway_causes in_l3vni_band carries_prefix vrf_causes
    bridge_domain_causes endpoint_vlan_causes next_vlan acl_causes acl_checks own_list_causes
    list_causes list_checks rules_causes rule_causes name_causes priority_causes note_name
    note_priority is_action is_known_protocol has_ports protocol_causes prefix_causes port_causes
    lower_protocol lower strip split split_once parse_int
validated s = validate_all_or_nothing env false s

all_accepted :
    (validated vlan_intent ≡ none)
    × (validated mac_vrf_intent ≡ none)
    × (validated ip_vrf_intent ≡ none)
    × (validated srv6_intent ≡ none)
    × (validated acl_intent ≡ none)
unfolding validated
all_accepted = (refl, refl, refl, refl, refl)

-- Two vlans, a reserved vlan, and a missing one, all named at once.
vlan_refused :
    validated (record (bare "vlan") {
      endpoints = at "a" (some 7) ∷ at "b" (some 4001) ∷ at "c" none ∷ [];
      signalling = some "vpn";
    })
    ≡ some (
        signalling_needs_srv6
        ∷ endpoint_vlan_reserved 1 4001
        ∷ endpoint_vlan_differs 1 7 4001
        ∷ endpoint_vlan_required 2
        ∷ [])
unfolding validated
vlan_refused = refl

-- A second rule of the same name and priority, with a reversed port range and an IPv6 prefix.
rule_refused :
    validated (record acl_intent {
      acl = some (record web_list {
        rules = some (
            web_rule
            ∷ record web_rule { source_prefix = some "fd00::/8"; destination_port = some "443-80" }
            ∷ []);
      });
    })
    ≡ some (
        rule_name_duplicate 1 "web"
        ∷ rule_priority_used 1 10
        ∷ rule_not_prefix 1 RuleField.source_prefix "fd00::/8"
        ∷ rule_range_reversed 1 RuleField.destination_port "443-80"
        ∷ [])
unfolding validated
rule_refused = refl

validate_all_or_nothing-IsVlan_example :
    (validate_all_or_nothing env false vlan_intent ≡ none)
    ↔ (IsNamed vlan_intent × IsPlain vlan_intent × IsVlan vlan_intent)
validate_all_or_nothing-IsVlan_example = validate_all_or_nothing-IsVlan env vlan_intent refl refl

validate_all_or_nothing-IsMacVrf_example :
    (validate_all_or_nothing env false mac_vrf_intent ≡ none)
    ↔ (IsNamed mac_vrf_intent × IsPlain mac_vrf_intent × IsMacVrf mac_vrf_intent)
validate_all_or_nothing-IsMacVrf_example =
    validate_all_or_nothing-IsMacVrf env mac_vrf_intent refl refl

validate_all_or_nothing-IsIpVrf_example :
    (validate_all_or_nothing env false ip_vrf_intent ≡ none)
    ↔ (IsNamed ip_vrf_intent × IsPlain ip_vrf_intent × IsIpVrf ip_vrf_intent)
validate_all_or_nothing-IsIpVrf_example =
    validate_all_or_nothing-IsIpVrf env ip_vrf_intent refl refl

validate_all_or_nothing-IsSrv6_example :
    (validate_all_or_nothing env false srv6_intent ≡ none)
    ↔ (IsNamed srv6_intent × IsSrv6 env.spine_nodes srv6_intent)
validate_all_or_nothing-IsSrv6_example = validate_all_or_nothing-IsSrv6 env srv6_intent refl

validate_all_or_nothing-IsAccessList_example :
    (acl_intent.endpoints ≢ []) × IsAccessList env.ip_version web_list
unfolding validated
validate_all_or_nothing-IsAccessList_example =
    validate_all_or_nothing-IsAccessList env acl_intent web_list refl refl refl
