-- ===== src/Intent.antt =====
-- agents/common/schemas/normalized_intent.py: the models of the normalized service intent, and the
-- causes that its validation names. The text of a cause is kept as a constructor with the values
-- that the message quotes.
pub mod Endpoints
pub mod Transport
pub mod Constructs
pub mod AccessList
pub mod Validate
pub mod BridgeDomain
pub mod Named
pub mod Kinds
pub mod Vxlan
pub mod Accepted
pub mod Srv6
pub mod RuleFields
pub mod Rules
use agentic_netops.Prelude.{ℕ, String, Bool, Option, none, some, List, [], ◌∷◌, ◌++◌, is_some, when}
use agentic_netops.Prelude.Text.{ℤ}

pub record RdRt : Type 0 where
  pub rd : String
  pub import_rt : List String
  pub export_rt : List String

pub record AddressFamilies : Type 0 where
  pub ipv4_prefixes : List String
  pub ipv6_prefixes : List String

pub record Endpoint : Type 0 where
  pub node : String
  pub attachment : String
  pub vlan : Option ℕ
  pub vrf : Option String
  pub prefixes : Option (List String)

pub record AnycastGateway : Type 0 where
  pub ip_vrf : Option String
  pub gateway_ipv4 : String
  pub gateway_ipv6 : String

pub record Policies : Type 0 where
  pub vpws_limited_equivalence : Bool

-- The claims that the fabric refuses. Only their presence is read, so the value of a claim is its
-- JSON text.
pub record UnsupportedClaims : Type 0 where
  pub te_policy : Option String
  pub pseudowire_oam : Option String
  pub control_word : Option String
  pub multicast_vpn : Option String
  pub complex_qos : Option String
  pub service_chain : Option String
  pub raw_cli : Option String

-- `UnsupportedClaims.present`
unfoldable pub present : UnsupportedClaims → List String
present u =
    when (is_some u.te_policy) "tePolicy"
    ++ (when (is_some u.pseudowire_oam) "pseudowireOAM"
        ++ (when (is_some u.control_word) "controlWord"
            ++ (when (is_some u.multicast_vpn) "multicastVPN"
                ++ (when (is_some u.complex_qos) "complexQoS"
                    ++ (when (is_some u.service_chain) "serviceChain"
                        ++ when (is_some u.raw_cli) "rawCLI")))))

-- `str | int`
pub data Protocol : Type 0 where
  word : String → Protocol
  number : ℤ → Protocol

pub record AclRule : Type 0 where
  pub name : String
  pub priority : ℕ
  pub action : String
  pub protocol : Option Protocol
  pub source_prefix : Option String
  pub destination_prefix : Option String
  pub source_port : Option String
  pub destination_port : Option String
  pub description : Option String

pub record Acl : Type 0 where
  pub name : Option String
  pub stage : Option String
  pub type : Option String
  pub default_action : Option String
  pub bind_to : Option String
  pub rules : Option (List AclRule)

pub record ServiceIntent : Type 0 where
  pub service_id : String
  pub type : String
  pub tenant : String
  pub rd_rt : Option RdRt
  pub l2vni : Option ℕ
  pub l3vni : Option ℕ
  pub address_families : Option AddressFamilies
  pub anycast_gateway : Option AnycastGateway
  pub transport : String
  pub signalling : Option String
  pub preferred_spine : Option String
  pub endpoints : List Endpoint
  pub policies : Option Policies
  pub unsupported : Option UnsupportedClaims
  pub acl : Option Acl

-- Which field of a rule a cause is about.
pub data RuleField : Type 0 where
  source_prefix destination_prefix source_port destination_port : RuleField

pub data Cause : Type 0 where
  service_id_required tenant_required type_required : Cause
  duplicate_service_id unsupported_claim unsupported_transport unsupported_type : String → Cause
  endpoint_required srv6_construct srv6_identifiers srv6_signalling srv6_topology : Cause
  spine_unknown : String → List String → Cause
  signalling_needs_srv6 spine_needs_srv6 : Cause
  vlan_l2vni vlan_l3vni vlan_rd_rt vlan_gateway vlan_endpoints : Cause
  endpoint_vlan_required : ℕ → Cause
  endpoint_vlan_reserved : ℕ → ℕ → Cause
  endpoint_vlan_differs : ℕ → ℕ → ℕ → Cause
  mac_vrf_l2vni mac_vrf_rd_rt mac_vrf_l3vni_required mac_vrf_l3vni_without_gateway : Cause
  mac_vrf_endpoints : ℕ → Cause
  l3vni_band : Option ℕ → Cause
  ip_vrf_l3vni ip_vrf_rd_rt ip_vrf_prefixes ip_vrf_l2vni ip_vrf_gateway ip_vrf_endpoints : Cause
  endpoint_vrf_required : ℕ → Cause
  acl_identifiers acl_endpoints acl_rules_required acl_rules_by_name : Cause
  acl_stage acl_type acl_bind_to : Option String → Cause
  rule_name_required : ℕ → Cause
  rule_name_duplicate : ℕ → String → Cause
  rule_priority_reserved : ℕ → Cause
  rule_priority_range rule_priority_used : ℕ → ℕ → Cause
  rule_action : ℕ → String → Cause
  rule_protocol : ℕ → Option Protocol → Cause
  rule_not_prefix rule_prefix_is_ipv6 rule_prefix_is_ipv4 : ℕ → RuleField → String → Cause
  rule_port_protocol : ℕ → RuleField → Option Protocol → Cause
  rule_range_reversed rule_not_range rule_not_port : ℕ → RuleField → String → Cause

-- What validation reads from outside the intent: the environment variable FABRIC_SPINE_NODES, and
-- the version of the network that `ipaddress.ip_network` reads in a text, if it reads one.
pub record Surroundings : Type 0 where
  pub spine_nodes : Option String
  pub ip_version : String → Option ℕ
