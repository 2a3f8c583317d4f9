-- ===== src/Supervisor/Guard.antt =====
-- agents/supervisors/provisioning/graph/graph.py: `_srv6_guard_refusal`, the checks of a complete SRv6
-- request before any identifier is claimed. Each check gives the reason for a refusal, or none.
use agentic_netops.Capability.{SiteInventory, Srv6Capability}
use agentic_netops.Capability.Site.{knows}
use agentic_netops.Interpretation.{
  EndpointIntent, Interpretation, ServiceType, Signalling, evpn, value, ip_vrf, vpn,
}
use agentic_netops.Prelude.{
  Bool, List, Option, String, [], contains, has_text, has_text?, if◌then◌else◌, is_empty, map, none,
  not, some, suc, ℕ, ◌&&◌, ◌++◌, ◌∷◌,
}
use agentic_netops.Prelude.Regex.{format, join}
use agentic_netops.Prelude.Text.{lower}
use agentic_netops.Supervisor.Wording.{srv6_r2_reason, srv6_r8_reason, srv6_r9_reason}

-- The first reason of a ladder of checks.
unfoldable pub first_reason : List (Option String) → Option String
first_reason [] = none
first_reason (r ∷ rs) = let later = first_reason rs in elim r [ none ↦ later | some why ↦ some why ]

unfoldable pub reason_if : Bool → String → Option String
reason_if b why = if b then some why else none

unfoldable pub signalling_of : ServiceType → Option Signalling → String
signalling_of t (some vpn) = "vpn"
signalling_of t (some evpn) = "evpn"
signalling_of ip_vrf none = "vpn"
signalling_of _ none = "evpn"

-- `construct/signalling`
unfoldable pub variant_of : Interpretation → String
unfolding format value signalling_of
variant_of i = format (value i.service_type ∷ "/" ∷ signalling_of i.service_type i.signalling ∷ [])

-- R2
unfoldable pub variant_reason : Srv6Capability → Interpretation → Option String
unfolding reason_if srv6_r2_reason variant_of
variant_reason c i =
    reason_if (not (contains c.supported (variant_of i)))
      (srv6_r2_reason (variant_of i) c.supported)

unfoldable pub named_spine : Option String → String
named_spine none = ""
named_spine (some s) = s

-- R7, for a spine: an inventory that is not set validates nothing.
unfoldable pub spine_reason : String → List String → Option String → Option String
unfolding reason_if knows named_spine format join
spine_reason field_ spines wanted =
    reason_if
      (not (is_empty spines) && (has_text? wanted && not (knows spines (named_spine wanted))))
      (format (
        field_
        ∷ ": unknown \""
        ∷ named_spine wanted
        ∷ "\" (site has: "
        ∷ join ", " spines
        ∷ ")"
        ∷ []))

-- R7, for one name of an endpoint
unfoldable pub site_reason : String → String → String → List String → String → Option String
unfolding reason_if knows format join
site_reason i field_ what names wanted =
    reason_if (not (is_empty names) && not (knows names wanted)) (
      format (
        "endpoints["
        ∷ i
        ∷ "]."
        ∷ field_
        ∷ ": \""
        ∷ wanted
        ∷ "\" is not "
        ∷ what
        ∷ " at this site (site has: "
        ∷ join ", " names
        ∷ ")"
        ∷ []))

unfoldable pub endpoint_reasons :
    (ℕ → String) → SiteInventory → ℕ → List EndpointIntent → List (Option String)
unfolding site_reason
endpoint_reasons decimal inv i [] = []
endpoint_reasons decimal inv i (ep ∷ eps) =
    site_reason (decimal i) "node" "a node" inv.nodes ep.site_or_node
    ∷ site_reason (decimal i) "attachment" "an attachment point" inv.attachments ep.attachment
    ∷ endpoint_reasons decimal inv (suc i) eps

-- `f"{node}/{attachment}" in {v.lower() for v in verifiable}`
unfoldable pub is_verifiable : List String → EndpointIntent → Bool
unfolding lower format
is_verifiable verifiable ep =
    contains (map lower verifiable) (format (ep.site_or_node ∷ "/" ∷ ep.attachment ∷ []))

-- R9
unfoldable pub verifiable_reasons : List String → List EndpointIntent → List (Option String)
unfolding reason_if is_verifiable srv6_r9_reason
verifiable_reasons verifiable [] = []
verifiable_reasons verifiable (ep ∷ eps) =
    reason_if (not (is_verifiable verifiable ep))
      (srv6_r9_reason ep.site_or_node ep.attachment verifiable)
    ∷ verifiable_reasons verifiable eps

-- `_srv6_port_holder`: every port is reported free, for no inventory can be read.
unfoldable pub srv6_port_holder : String → String → Option String
srv6_port_holder node port = none

unfoldable pub holder_reason : String → String → Option String → Option String
unfolding reason_if srv6_r8_reason
holder_reason node port none = none
holder_reason node port (some service) =
    reason_if (has_text service) (srv6_r8_reason node port service)

-- R8
unfoldable pub holder_reasons : List EndpointIntent → List (Option String)
unfolding holder_reason srv6_port_holder
holder_reasons [] = []
holder_reasons (ep ∷ eps) =
    holder_reason ep.site_or_node ep.attachment (srv6_port_holder ep.site_or_node ep.attachment)
    ∷ holder_reasons eps

-- The checks, in their order.
unfoldable pub guard_reasons :
    (ℕ → String) → SiteInventory → Srv6Capability → Interpretation → List (Option String)
unfolding variant_reason spine_reason endpoint_reasons verifiable_reasons holder_reasons
guard_reasons decimal inv c i =
    variant_reason c i
    ∷ spine_reason "preferredSpine" inv.spines i.preferred_spine
    ∷ spine_reason "alternateSpine" inv.spines i.alternate_spine
    ∷ (endpoint_reasons decimal inv 0 i.endpoints
        ++ (verifiable_reasons c.verifiable_attachments i.endpoints ++ holder_reasons i.endpoints))

-- `_srv6_guard_refusal`: the reason of the refusal, or none
unfoldable pub srv6_guard_refusal :
    (ℕ → String) → SiteInventory → Srv6Capability → Interpretation → Option String
unfolding first_reason guard_reasons
srv6_guard_refusal decimal inv c i = first_reason (guard_reasons decimal inv c i)
