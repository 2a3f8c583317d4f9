-- ===== src/Supervisor/Questions.antt =====
-- agents/supervisors/provisioning/graph/graph.py: what the operator is asked when fields of a request
-- are missing, and the blanking of the fields that nobody supplied.
use agentic_netops.Capability.{Srv6Capability}
use agentic_netops.Json.{Fields, has_key, null, put}
use agentic_netops.Prelude.{
  Bool, List, Option, String, [], append, contains, false, if◌then◌else◌, is_empty, none, some,
  str_eq, when, ◌++◌, ◌||◌, ◌∷◌,
}
use agentic_netops.Prelude.Regex.{format, join}
use agentic_netops.Supervisor.Patterns.{clarification_hint}
use agentic_netops.Supervisor.Wording.{restated_variant}

abbrev srv6_clarification_fields : List String
srv6_clarification_fields =
    "srv6_construct" ∷ "srv6_signalling" ∷ "srv6_other_endpoint" ∷ "srv6_prefix" ∷ "srv6_vlan"
    ∷ "srv6_preferred_spine" ∷ []

-- `_supported_option`
supported_option : String → String
unfolding restated_variant
supported_option v =
    if str_eq v "ip-vrf/vpn"
    then "ip-vrf over srv6 (routed)"
    else if str_eq v "mac-vrf/evpn"
    then "mac-vrf over srv6 (bridged)"
    else if str_eq v "ip-vrf/evpn"
    then "ip-vrf over srv6 with evpn signalling"
    else restated_variant v

construct_options : List String → List String
unfolding supported_option
construct_options [] = []
construct_options (v ∷ vs) =
    when (contains ("ip-vrf/vpn" ∷ "mac-vrf/evpn" ∷ []) v) (supported_option v)
    ++ construct_options vs

signalling_options : List String → List String
signalling_options supported =
    when (contains supported "ip-vrf/evpn") "Routed (ip-vrf over srv6 with evpn signalling)"
    ++ when (contains supported "mac-vrf/evpn") "bridged (mac-vrf over srv6)"

-- A question over options, or none where there is no option.
choice : String → List String → Option String
unfolding format join
choice lead options =
    if is_empty options then none else some (format (lead ∷ join " or " options ∷ "?" ∷ []))

-- `srv6_clarification_question`, with the spines of the site
srv6_clarification_question : List String → String → Srv6Capability → Option String
unfolding construct_options signalling_options choice
srv6_clarification_question spines field_ capability =
    if str_eq field_ "srv6_construct"
    then choice "Which SRv6 service: " (construct_options capability.supported)
    else if str_eq field_ "srv6_signalling"
    then choice "" (signalling_options capability.supported)
    else if str_eq field_ "srv6_other_endpoint"
    then some "An SRv6 service joins two attachment points. Which node and port is the other end?"
    else if str_eq field_ "srv6_prefix"
    then some "Which prefix does each side use?"
    else if str_eq field_ "srv6_vlan"
    then some "Which vlan does the service carry?"
    else if str_eq field_ "srv6_preferred_spine"
    then choice "Which spine is preferred: " spines
    else none

pub asked : Option String → List String
asked none = []
asked (some q) = q ∷ []

questions_for : List String → Srv6Capability → List String → List String
unfolding srv6_clarification_question asked
questions_for spines capability [] = []
questions_for spines capability (f ∷ fs) =
    asked (srv6_clarification_question spines f capability) ++ questions_for spines capability fs

names_srv6_field : List String → Bool
names_srv6_field [] = false
names_srv6_field (f ∷ fs) = contains srv6_clarification_fields f || names_srv6_field fs

-- The questions on the SRv6 fields among the missing ones.
unfoldable pub srv6_questions : List String → Srv6Capability → List String → List String
unfolding questions_for names_srv6_field
srv6_questions spines capability missing =
    if names_srv6_field missing then questions_for spines capability missing else []

led_by_blank : List String → List String
led_by_blank [] = []
led_by_blank (q ∷ qs) = append " " q ∷ led_by_blank qs

-- `clarification_prompt`
unfoldable pub clarification_prompt : List String → List String → String
unfolding format join led_by_blank
clarification_prompt missing questions = format (
    "Before I can map this service I need: "
    ∷ (if is_empty missing then "required service fields" else join ", " missing)
    ∷ ". Please restate the full request including those values (no defaults are substituted for "
    ∷ "service-defining fields)."
    ∷ format (led_by_blank questions)
    ∷ clarification_hint
    ∷ [])

-- `redact_unsupplied`
unfoldable pub redact_unsupplied : Fields → List String → Fields
unfolding put has_key
redact_unsupplied interpretation [] = interpretation
redact_unsupplied interpretation (f ∷ fs) =
    redact_unsupplied
      (if has_key f interpretation then put f null interpretation else interpretation) fs
