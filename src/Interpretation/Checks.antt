-- ===== src/Interpretation/Checks.antt =====
-- agents/common/schemas/interpretation.py: the limits that the models put on their fields, and the
-- validators of `Interpretation`, in the order in which they run.
use agentic_netops.Intent.{Protocol, word, number}
use agentic_netops.Interpretation.{
  AclIntent, AnycastGatewayIntent, EndpointIntent, Interpretation, RuleIntent, ServiceType, acl,
  mac_vrf,
}
use agentic_netops.Prelude.{
  Bool, List, Option, String, [], contains, false, has_text, if◌then◌else◌, inl, inr, is_empty,
  is_some, leb, none, not, some, suc, true, when, ℕ, ◌&&◌, ◌++◌, ◌==◌, ◌||◌, ◌∷◌, ◌⊎◌,
}
use agentic_netops.Prelude.Regex.{Regex}
use agentic_netops.Prelude.Text.{lower, strip}

-- What a check names as wrong with a request: the text of the message is kept as a constructor with
-- the values that it quotes.
pub data Fault : Type 0 where
  service_id_length : Fault
  tenant_label : String → Fault
  endpoints_needed : Fault
  endpoint_named : ℕ → Fault
  endpoint_vlan_band : ℕ → ℕ → Fault
  not_a_prefix : ℕ → String → Fault
  other_version : ℕ → String → Fault
  rule_unnamed : ℕ → Fault
  rule_priority_band : ℕ → ℕ → Fault
  gateway_without_address : Fault
  both_terminal : List String → List String → Fault
  gateway_outside_mac_vrf : ServiceType → Fault
  acl_needed : Fault
  rule_protocol_unknown : ℕ → String → Fault

-- What the validators read from outside: the number of characters of a text (`len`), whether
-- `str.isdigit` holds of it, the pattern of a label, and the version and the normalized text of the
-- network that `ipaddress.ip_network(value, strict=False)` reads in a text, if it reads one.
pub record Texts : Type 0 where
  pub characters : String → ℕ
  pub is_digits : String → Bool
  pub regex : Regex
  pub network : String → Option (ℕ × String)

abbrev pub label_pattern : String
label_pattern = "^[a-z0-9]([-a-z0-9]*[a-z0-9])?$"

-- `Field(default=None, ge=1, le=4094)`
unfoldable pub vlan_faults : ℕ → Option ℕ → List Fault
vlan_faults i none = []
vlan_faults i (some v) = when (not (leb 1 v && leb v 4094)) (endpoint_vlan_band i v)

-- `EndpointIntent`, and `_endpoints_nonempty_fields`
unfoldable pub endpoint_faults : ℕ → List EndpointIntent → List Fault
unfolding vlan_faults
endpoint_faults i [] = []
endpoint_faults i (e ∷ es) =
    when (not (has_text e.site_or_node && has_text e.attachment)) (endpoint_named i)
    ++ (vlan_faults i e.vlan_id ++ endpoint_faults (suc i) es)

network_fault : ℕ → String → Option (ℕ × String) → List Fault
network_fault version v none = not_a_prefix version v ∷ []
network_fault version v (some (n, s)) = when (not (n == version)) (other_version version v)

-- `_valid_prefixes`: the first prefix that is wrong is named.
unfoldable pub prefix_faults : (String → Option (ℕ × String)) → ℕ → List String → List Fault
unfolding network_fault
prefix_faults network version [] = []
prefix_faults network version (v ∷ vs) =
    let rest = prefix_faults network version vs in
    let here = network_fault version v (network v) in if is_empty here then rest else here

-- `ACLRule`
rule_faults : ℕ → List RuleIntent → List Fault
rule_faults i [] = []
rule_faults i (r ∷ rs) =
    when (not (has_text r.name)) (rule_unnamed i)
    ++ (when (not (leb 2 r.priority && leb r.priority 65535)) (rule_priority_band i r.priority)
        ++ rule_faults (suc i) rs)

unfoldable pub list_faults : Option AclIntent → List Fault
unfolding rule_faults
list_faults none = []
list_faults (some a) = rule_faults 0 a.rules

-- `_at_least_one_family`
unfoldable pub gateway_faults : Option AnycastGatewayIntent → List Fault
gateway_faults none = []
gateway_faults (some g) = when (not (is_some g.ipv4 || is_some g.ipv6)) gateway_without_address

-- The faults of the fields, which are gathered.
unfoldable pub value_faults : Texts → Interpretation → List Fault
unfolding prefix_faults list_faults gateway_faults
value_faults t i =
    prefix_faults t.network 4 i.ipv4_prefixes
    ++ (prefix_faults t.network 6 i.ipv6_prefixes
        ++ (list_faults i.access_list ++ gateway_faults i.anycast_gateway))

unfoldable pub place_faults : Texts → Interpretation → List Fault
unfolding endpoint_faults value_faults
place_faults t i =
    when (is_empty i.endpoints) endpoints_needed
    ++ (endpoint_faults 0 i.endpoints ++ value_faults t i)

unfoldable pub is_short_id : Texts → Interpretation → Bool
is_short_id t i = leb 1 (t.characters i.service_id) && leb (t.characters i.service_id) 15

unfoldable pub field_faults : Texts → Interpretation → List Fault
unfolding place_faults is_short_id
field_faults t i =
    when (not (is_short_id t i)) service_id_length
    ++ (when (not (t.regex.whole label_pattern i.tenant)) (tenant_label i.tenant)
        ++ place_faults t i)

-- `_mutual_exclusion`
unfoldable pub mutual_exclusion : Interpretation → List Fault
mutual_exclusion i =
    when (not (is_empty i.missing_fields) && not (is_empty i.unsupported_properties))
      (both_terminal i.missing_fields i.unsupported_properties)

unfoldable pub is_mac_vrf : ServiceType → Bool
is_mac_vrf mac_vrf = true
is_mac_vrf _ = false

unfoldable pub is_acl : ServiceType → Bool
is_acl acl = true
is_acl _ = false

-- `_gateway_scoped_to_mac_vrf`
unfoldable pub gateway_scoped_to_mac_vrf : Interpretation → List Fault
unfolding is_mac_vrf
gateway_scoped_to_mac_vrf i =
    when (is_some i.anycast_gateway && not (is_mac_vrf i.service_type))
      (gateway_outside_mac_vrf i.service_type)

abbrev pub allowed_protocols : List String
allowed_protocols =
    "any" ∷ "tcp" ∷ "udp" ∷ "icmp" ∷ "igmp" ∷ "rsvp" ∷ "gre" ∷ "ah" ∷ "pim" ∷ "l2tp" ∷ []

-- The second test of the loop, for ICMPv6, never holds where the first one does not: neither of its
-- names is allowed and neither is made of digits.
unfoldable pub is_refused_protocol : Texts → Option Protocol → Bool
unfolding strip lower
is_refused_protocol t none = false
is_refused_protocol t (some (number n)) = false
is_refused_protocol t (some (word w)) =
    let p = lower (strip w) in
    (has_text p && (not (contains allowed_protocols p) && not (t.is_digits p)))
    || contains ("icmpv6" ∷ "ipv6-icmp" ∷ []) p

protocol_text : Option Protocol → String
protocol_text (some (word w)) = w
protocol_text _ = ""

-- The first rule whose protocol is refused ends the check.
unfoldable pub protocol_faults : Texts → ℕ → List RuleIntent → List Fault
unfolding is_refused_protocol protocol_text
protocol_faults t i [] = []
protocol_faults t i (r ∷ rs) =
    let rest = protocol_faults t (suc i) rs in
    if is_refused_protocol t r.protocol
    then rule_protocol_unknown i (protocol_text r.protocol) ∷ []
    else rest

unfoldable pub acl_faults : Texts → Option AclIntent → List Fault
unfolding protocol_faults
acl_faults t none = acl_needed ∷ []
acl_faults t (some a) = protocol_faults t 0 a.rules

-- `_acl_required_and_bounded`
unfoldable pub acl_required_and_bounded : Texts → Interpretation → List Fault
unfolding acl_faults
acl_required_and_bounded t i = if is_acl i.service_type then acl_faults t i.access_list else []

-- The first list that is not empty.
unfoldable pub first_faults : List (List Fault) → List Fault
first_faults [] = []
first_faults (fs ∷ rest) = let later = first_faults rest in if is_empty fs then later else fs

-- The validators of the whole model run when the fields are right, and the first that raises ends
-- the validation.
unfoldable pub faults : Texts → Interpretation → List Fault
faults t i = first_faults (
    field_faults t i
    ∷ mutual_exclusion i
    ∷ gateway_scoped_to_mac_vrf i
    ∷ acl_required_and_bounded t i
    ∷ [])

normalized_network : Option (ℕ × String) → String → String
normalized_network none v = v
normalized_network (some (n, s)) v = s

-- The list that `_valid_prefixes` returns.
normalized_prefixes : (String → Option (ℕ × String)) → List String → List String
unfolding normalized_network
normalized_prefixes network [] = []
normalized_prefixes network (v ∷ vs) =
    normalized_network (network v) v ∷ normalized_prefixes network vs

pub normalize : Texts → Interpretation → Interpretation
unfolding normalized_prefixes
normalize t i = record i {
  ipv4_prefixes = normalized_prefixes t.network i.ipv4_prefixes;
  ipv6_prefixes = normalized_prefixes t.network i.ipv6_prefixes;
}

-- The validation of a request whose fields have been read.
validate : Texts → Interpretation → List Fault ⊎ Interpretation
unfolding faults normalize
validate t i = let wrong = faults t i in if is_empty wrong then inr (normalize t i) else inl wrong

-- `is_complete`
is_complete : Interpretation → Bool
is_complete i = is_empty i.missing_fields && is_empty i.unsupported_properties
