-- ===== src/Supervisor/Wording.antt =====
-- agents/supervisors/provisioning/graph/graph.py: the texts of the SRv6 refusals, in the wording that
-- operators are shown.
use agentic_netops.Prelude.{List, String, [], if◌then◌else◌, is_empty, map, str_eq, ◌∷◌}
use agentic_netops.Prelude.Regex.{format, join}

abbrev pub srv6_r4_reason : String
srv6_r4_reason =
    "SRv6 is not available on this lab profile: the capability has not been proven here."

abbrev pub srv6_r3_reason : String
srv6_r3_reason = "The request names both SRv6 and VXLAN. A service uses one transport; say which."

abbrev pub srv6_r5_reason : String
srv6_r5_reason = "SRv6 applies to ip-vrf and mac-vrf. A vlan or an acl has no transport."

-- `restated_variant`
unfoldable pub restated_variant : String → String
restated_variant v =
    if str_eq v "ip-vrf/vpn"
    then "ip-vrf over srv6"
    else if str_eq v "mac-vrf/evpn"
    then "mac-vrf over srv6"
    else if str_eq v "ip-vrf/evpn"
    then "ip-vrf over srv6 with evpn signalling"
    else v

-- `restated_supported_list`
restated_supported_list : List String → String
unfolding restated_variant join
restated_supported_list supported = join ", " (map restated_variant supported)

-- `srv6_r2_reason`
unfoldable pub srv6_r2_reason : String → List String → String
unfolding restated_variant restated_supported_list format
srv6_r2_reason variant supported =
    if str_eq variant "mac-vrf/evpn"
    then "`mac-vrf over srv6` (bridged EVPN over SRv6) is not supported on this image."
    else format (
        "`"
        ∷ restated_variant variant
        ∷ "` is not supported on this image. Supported SRv6 services: `"
        ∷ restated_supported_list supported
        ∷ "`."
        ∷ [])

-- `srv6_r8_reason`
unfoldable pub srv6_r8_reason : String → String → String → String
unfolding format
srv6_r8_reason node port service =
    format ("`" ∷ port ∷ "` on `" ∷ node ∷ "` already belongs to `" ∷ service ∷ "`." ∷ [])

-- `srv6_r9_reason`
unfoldable pub srv6_r9_reason : String → String → List String → String
unfolding format join
srv6_r9_reason node port verifiable = format (
    "`"
    ∷ port
    ∷ "` on `"
    ∷ node
    ∷ "` has no client to verify traffic from, so an SRv6 service there "
    ∷ "cannot reach Ready. Attachments that can be verified: `"
    ∷ (if is_empty verifiable then "none" else join ", " verifiable)
    ∷ "`."
    ∷ [])
