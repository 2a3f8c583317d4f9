-- ===== src/Tests/Requests.antt =====
-- agents/common/schemas/interpretation.py and agents/supervisors/provisioning/capability.py: the theorems
-- on requests and on the capability at small inputs.
use agentic_netops.Tests.Threads.{interpretation, no_regex}
use agentic_netops.Capability.{
  Answer, Process, answered, ask, entries, env_default, env_or, identity, read_answer, read_body,
  read_capability, read_data, split_csv, split_value, stated, trust,
}
use agentic_netops.Capability.Closed.{IsProven, read_capability-IsProven}
use agentic_netops.Interpretation.{mac_vrf, value}
use agentic_netops.Interpretation.Accepted.{IsSound, faults-IsSound}
use agentic_netops.Interpretation.Checks.{
  Texts, acl_required_and_bounded, endpoint_faults, faults, field_faults, first_faults,
  gateway_faults, gateway_scoped_to_mac_vrf, is_acl, is_short_id, list_faults, mutual_exclusion,
  place_faults, prefix_faults, value_faults, vlan_faults,
}
use agentic_netops.Interpretation.Folding.{fold_service_type, lookup, type_key, without_separators}
use agentic_netops.Interpretation.Spelling.{
  Respelt, done, fold_service_type-Respelt, left, right, same,
}
use agentic_netops.Json.{end, field, get, is_text, obj, str}
use agentic_netops.Prelude.{[], false, if◌then◌else◌, inl, inr, none, refl, some, str_eq, ◌∷◌, ◌≡◌}
use agentic_netops.Prelude.Text.{lower, lower_char, split, strip}

abbrev texts : Texts
texts = record {
  characters = λ s. 5;
  is_digits = λ s. false;
  regex = no_regex;
  network = λ s. none;
}

faults-IsSound_example : IsSound texts interpretation
unfolding faults first_faults field_faults is_short_id place_faults endpoint_faults vlan_faults
    value_faults prefix_faults list_faults gateway_faults mutual_exclusion gateway_scoped_to_mac_vrf
    acl_required_and_bounded is_acl
faults-IsSound_example = faults-IsSound texts interpretation refl

-- "Mac VRF" is a spelling of "mac-vrf".
mac_spelling : Respelt "Mac VRF" (value mac_vrf)
unfolding value lower_char
mac_spelling = same "M" "m" "ac VRF" "ac-vrf" refl (
    same "a" "a" "c VRF" "c-vrf" refl (
      same "c" "c" " VRF" "-vrf" refl (
        left " " "VRF" "-vrf" (inr (inr (inl refl))) (
          right "-" "VRF" "vrf" (inl refl) (
            same "V" "v" "RF" "rf" refl
              (same "R" "r" "F" "f" refl (same "F" "f" "" "" refl done)))))))

fold_service_type-Respelt_example : fold_service_type "Mac VRF" ≡ some mac_vrf
fold_service_type-Respelt_example = fold_service_type-Respelt "Mac VRF" mac_vrf mac_spelling

-- An alias folds to its construct, and is recorded.
alias_folded : fold_service_type "VPLS" ≡ some mac_vrf
unfolding fold_service_type lookup type_key without_separators lower
alias_folded = refl

abbrev served : Answer
served = answered 200 (
    some (
      obj (
        field "data"
          (obj (
            field "cap-sai-srv6" (str "true")
              (field "srv6-supported" (str "ip-vrf/vpn, mac-vrf/evpn") end)))
          end)))

abbrev process : Process
process = record {
  getenv = λ name. if str_eq name "AGENTIC_NETOPS_BEARER_TOKEN" then some "secret" else none;
  token_file = none;
  ca_bundle = "ca.crt";
  http_get = λ host path token verify. served;
  loads = λ s. none;
  without_slashes = λ s. s;
}

read_capability-IsProven_example : IsProven process
unfolding read_capability ask identity env_or trust env_default read_answer read_body read_data
    stated get is_text
read_capability-IsProven_example = read_capability-IsProven process refl

-- The supported services are read from the list in the data.
supported_read : (read_capability process).supported ≡ "ip-vrf/vpn" ∷ "mac-vrf/evpn" ∷ []
unfolding read_capability ask identity env_or trust env_default read_answer read_body read_data
    stated get is_text split_value split_csv entries split strip
supported_read = refl
