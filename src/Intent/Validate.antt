-- ===== src/Intent/Validate.antt =====
-- agents/common/schemas/normalized_intent.py: `NormalizedServiceIntent.validate_all_or_nothing`.
use agentic_netops.Prelude.{
  Bool, Option, none, some, List, [], ◌∷◌, ◌++◌, not, str_eq, has_text, failing, is_empty, map,
  if◌then◌else◌,
}
use agentic_netops.Intent.{
  ServiceIntent, UnsupportedClaims, Cause, Surroundings, present, service_id_required,
  tenant_required, type_required, duplicate_service_id, unsupported_claim, endpoint_required,
  unsupported_type,
}
use agentic_netops.Intent.Transport.{is_srv6, transport_causes}
use agentic_netops.Intent.Constructs.{vlan_causes, mac_vrf_causes, ip_vrf_causes}
use agentic_netops.Intent.AccessList.{acl_causes}

unfoldable pub claim_causes : Option UnsupportedClaims → List Cause
claim_causes none = []
claim_causes (some u) = map unsupported_claim (present u)

unfoldable pub name_checks : Bool → ServiceIntent → List (Bool × Cause)
name_checks dup_service_id s =
    (not (has_text s.service_id), service_id_required)
    ∷ (not (has_text s.tenant), tenant_required)
    ∷ (not (has_text s.type), type_required)
    ∷ (dup_service_id, duplicate_service_id s.service_id)
    ∷ []

unfoldable pub basic_causes : Bool → ServiceIntent → List Cause
unfolding claim_causes name_checks
basic_causes dup_service_id s =
    failing (name_checks dup_service_id s)
    ++ (claim_causes s.unsupported ++ failing ((is_empty s.endpoints, endpoint_required) ∷ []))

unfoldable pub construct_causes : Surroundings → ServiceIntent → List Cause
construct_causes env s =
    if str_eq s.type "vlan"
    then vlan_causes (is_srv6 s) s
    else if str_eq s.type "mac-vrf"
    then mac_vrf_causes (is_srv6 s) s
    else if str_eq s.type "ip-vrf"
    then ip_vrf_causes (is_srv6 s) s
    else if str_eq s.type "acl"
    then acl_causes env.ip_version (is_srv6 s) s
    else unsupported_type s.type ∷ []

unfoldable pub all_causes : Surroundings → Bool → ServiceIntent → List Cause
all_causes env dup_service_id s =
    basic_causes dup_service_id s ++ (transport_causes env.spine_nodes s ++ construct_causes env s)

-- `None` if nothing is wrong, and otherwise every cause at once.
unfoldable pub validate_all_or_nothing : Surroundings → Bool → ServiceIntent → Option (List Cause)
validate_all_or_nothing env dup_service_id s =
    let causes = all_causes env dup_service_id s in if is_empty causes then none else some causes
