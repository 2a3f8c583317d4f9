-- ===== src/Interpretation.antt =====
-- agents/common/schemas/interpretation.py: the models of an interpreted service request.
pub mod Folding
pub mod Spelling
pub mod Checks
pub mod Accepted
use agentic_netops.Prelude.{ℕ, String, Option, List}
use agentic_netops.Intent.{Protocol}

pub data ServiceType : Type 0 where
  vlan mac_vrf ip_vrf acl : ServiceType

pub record EndpointIntent : Type 0 where
  pub site_or_node : String
  pub attachment : String
  pub vlan_id : Option ℕ
  pub prefixes : Option (List String)

pub record RuleIntent : Type 0 where
  pub name : String
  pub priority : ℕ
  pub action : String
  pub protocol : Option Protocol
  pub source_prefix : Option String
  pub destination_prefix : Option String
  pub source_port : Option String
  pub destination_port : Option String
  pub description : Option String

pub record AclIntent : Type 0 where
  pub name : Option String
  pub stage : String
  pub type : String
  pub default_action : Option String
  pub rules : List RuleIntent

pub record AnycastGatewayIntent : Type 0 where
  pub ipv4 : Option String
  pub ipv6 : Option String

pub data Transport : Type 0 where
  vxlan srv6 : Transport

pub data Signalling : Type 0 where
  vpn evpn : Signalling

pub record Interpretation : Type 0 where
  pub service_id : String
  pub service_type : ServiceType
  pub source_service_type : Option String
  pub tenant : String
  pub endpoints : List EndpointIntent
  pub bandwidth : Option String
  pub sla : Option String
  pub ipv4_prefixes : List String
  pub ipv6_prefixes : List String
  pub access_list : Option AclIntent
  pub anycast_gateway : Option AnycastGatewayIntent
  pub transport : Option Transport
  pub signalling : Option Signalling
  pub preferred_spine : Option String
  pub alternate_spine : Option String
  pub missing_fields : List String
  pub unsupported_properties : List String

-- `ServiceType.value`
unfoldable pub value : ServiceType → String
value vlan = "vlan"
value mac_vrf = "mac-vrf"
value ip_vrf = "ip-vrf"
value acl = "acl"
