-- ===== src/Intent/Transport.antt =====
-- agents/common/schemas/normalized_intent.py: the transport rules V1 to V8 of
-- `validate_all_or_nothing`.
use agentic_netops.Prelude.{
  String, Bool, false, Option, none, some, List, [], ◌∷◌, ◌++◌, not, ◌&&◌, ◌||◌, str_eq, is_some,
  truthy, has_text, has_text?, or_else, failing, contains, if◌then◌else◌, map,
}
use agentic_netops.Prelude.Text.{split, strip}
use agentic_netops.Intent.{
  Endpoint, ServiceIntent, UnsupportedClaims, Cause, unsupported_transport, srv6_construct,
  srv6_identifiers, srv6_signalling, srv6_topology, spine_unknown, signalling_needs_srv6,
  spine_needs_srv6,
}

-- `self.transport == "srv6"`
unfoldable pub is_srv6 : ServiceIntent → Bool
is_srv6 s = str_eq s.transport "srv6"

unfoldable pub claims_te_policy : Option UnsupportedClaims → Bool
claims_te_policy none = false
claims_te_policy (some u) = is_some u.te_policy

-- V6: exactly two endpoints, the first with a node, on distinct nodes.
unfoldable pub joins_two_nodes : List Endpoint → Bool
joins_two_nodes (a ∷ b ∷ []) = has_text a.node && not (str_eq a.node b.node)
joins_two_nodes _ = false

without_blanks : List String → List String
without_blanks [] = []
without_blanks (s ∷ ss) = let rest = without_blanks ss in if has_text s then s ∷ rest else rest

-- `[s.strip() for s in spine_env.split(",") if s.strip()]`
unfoldable pub spines_of : String → List String
unfolding without_blanks
spines_of csv = without_blanks (map strip (split 44 csv))

-- V7: an unset or empty FABRIC_SPINE_NODES validates nothing.
unfoldable pub spine_causes : Option String → ServiceIntent → List Cause
unfolding claims_te_policy
spine_causes spine_env s =
    let spine = or_else s.preferred_spine "" in
    let spines = spines_of (or_else spine_env "") in
    if has_text? s.preferred_spine && (not (claims_te_policy s.unsupported) && has_text? spine_env)
    then failing ((not (contains spines spine), spine_unknown spine spines) ∷ [])
    else []

-- V2, V3, V4 and V6
unfoldable pub srv6_checks : ServiceIntent → List (Bool × Cause)
srv6_checks s =
    (not (contains ("ip-vrf" ∷ "mac-vrf" ∷ []) s.type), srv6_construct)
    ∷ (truthy s.l2vni || (truthy s.l3vni || is_some s.rd_rt), srv6_identifiers)
    ∷ (str_eq s.type "mac-vrf" && str_eq (or_else s.signalling "") "vpn", srv6_signalling)
    ∷ (not (joins_two_nodes s.endpoints), srv6_topology)
    ∷ []

unfoldable pub srv6_causes : Option String → ServiceIntent → List Cause
unfolding srv6_checks
srv6_causes spine_env s = failing (srv6_checks s) ++ spine_causes spine_env s

-- V5
unfoldable pub vxlan_checks : ServiceIntent → List (Bool × Cause)
unfolding claims_te_policy
vxlan_checks s =
    (is_some s.signalling, signalling_needs_srv6)
    ∷ (is_some s.preferred_spine && not (claims_te_policy s.unsupported), spine_needs_srv6)
    ∷ []

unfoldable pub transport_causes : Option String → ServiceIntent → List Cause
unfolding is_srv6
transport_causes spine_env s =
    if not (contains ("vxlan" ∷ "srv6" ∷ []) s.transport)
    then unsupported_transport s.transport ∷ []
    else if is_srv6 s
    then srv6_causes spine_env s
    else failing (vxlan_checks s)
