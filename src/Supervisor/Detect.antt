-- ===== src/Supervisor/Detect.antt =====
-- agents/supervisors/provisioning/graph/graph.py: the detectors, which read a message before any
-- model does.
use agentic_netops.Prelude.{
  Bool, List, Option, String, [], append, contains, false, has_text, if◌then◌else◌, length, ltb,
  none, not, some, str_eq, ◌&&◌, ◌++◌, ◌||◌, ◌∷◌,
}
use agentic_netops.Prelude.Regex.{Regex, format, replace, strip_of}
use agentic_netops.Prelude.Text.{lower, strip}
use agentic_netops.Supervisor.{
  RequestClassification, class_value, informational, provisionable, unsupported,
}
use agentic_netops.Supervisor.Patterns.{
  acl_attached_to_a_service, construct_token, default_suggestion, deployment_status_query,
  device_family_suggestions, direct_device_patterns, fallback_informational,
  fallback_provision_action, fallback_service_type, srv6_name_patterns,
  unsupported_feature_patterns, unsupported_property_suggestions, vlan_as_its_own_service,
}

-- `DetectionHit`
pub record DetectionHit : Type 0 where
  pub family : String
  pub reason : String
  pub advice : String

-- `d.get(k, default)`
look_up : String → String → List (String × String) → String
look_up default k [] = default
look_up default k ((j, v) ∷ rest) = if str_eq j k then v else look_up default k rest

-- A set of texts, as the list of its members.
unfoldable pub add_once : String → List String → List String
add_once s ss = if contains ss s then ss else s ∷ ss

discard : String → List String → List String
discard s [] = []
discard s (t ∷ ts) = let rest = discard s ts in if str_eq t s then rest else t ∷ rest

-- `t.lower().replace(" ", "-")` of each token
unfoldable pub token_set : List String → List String
unfolding add_once lower replace
token_set [] = []
token_set (t ∷ ts) = add_once (replace 32 "-" (lower t)) (token_set ts)

module _ (rx : Regex) where
  -- The families whose patterns match, each once, in order.
  unfoldable pub families : String → List String → List (String × String) → List String
  families low seen [] = seen
  families low seen ((pattern_, family) ∷ rest) =
      families low
        (if rx.finds pattern_ low && not (contains seen family)
          then seen ++ (family ∷ [])
          else seen)
        rest

  unfoldable pub device_hit : List String → Option DetectionHit
  unfolding look_up
  device_hit [] = none
  device_hit (family ∷ _) = some (record {
    family = family;
    reason = append "the request asks for " family;
    advice = look_up default_suggestion family device_family_suggestions;
  })

  -- `detect_direct_device`
  unfoldable pub detect_direct_device : String → Option DetectionHit
  unfolding families device_hit lower
  detect_direct_device text =
      if has_text text then device_hit (families (lower text) [] direct_device_patterns) else none

  unfoldable pub feature_hit : String → List (String × (String × String)) → Option DetectionHit
  unfolding look_up format
  feature_hit low [] = none
  feature_hit low ((pattern_, (property, reason)) ∷ rest) =
      let later = feature_hit low rest in
      if rx.finds pattern_ low
      then some (record {
        family = property;
        reason = format (
            "unsupported property: " ∷ property ∷ " (" ∷ reason
            ∷ ") has no equivalent in the fabric" ∷ []);
        advice = look_up default_suggestion property unsupported_property_suggestions;
      })
      else later

  -- `detect_unsupported_feature`
  unfoldable pub detect_unsupported_feature : String → Option DetectionHit
  unfolding feature_hit lower
  detect_unsupported_feature text =
      if has_text text then feature_hit (lower text) unsupported_feature_patterns else none

  -- A vlan that only tags another construct is no construct of its own.
  without_tag : String → List String → List String
  unfolding discard
  without_tag text found =
      if contains found "vlan" && not (rx.finds_any_case vlan_as_its_own_service text)
      then discard "vlan" found
      else found

  -- An access list that rides on a service is none either.
  without_filter : String → List String → List String
  unfolding discard
  without_filter text found =
      if contains found "acl"
        && (ltb 1 (length found) && rx.finds_any_case acl_attached_to_a_service text)
      then discard "acl" found
      else found

  unfoldable pub services_of : String → List String → List String
  unfolding without_tag without_filter
  services_of text found =
      if ltb (length found) 2 then found else without_filter text (without_tag text found)

  -- `_find_constructs`
  unfoldable pub find_constructs : String → List String
  unfolding services_of token_set
  find_constructs text =
      if has_text text then services_of text (token_set (rx.found construct_token text)) else []

  -- `detect_deployment_status_query`
  unfoldable pub detect_deployment_status_query : String → Bool
  unfolding lower
  detect_deployment_status_query text = rx.finds deployment_status_query (lower text)

  -- `detect_provisioning_request`
  unfoldable pub detect_provisioning_request : String → Bool
  detect_provisioning_request text =
      rx.finds_any_case fallback_provision_action text
      && rx.finds_any_case fallback_service_type text

  unfoldable pub matches_one : List String → String → Bool
  matches_one [] text = false
  matches_one (p ∷ ps) text = rx.finds_any_case p text || matches_one ps text

  -- `names_srv6`
  unfoldable pub names_srv6 : String → Bool
  unfolding matches_one
  names_srv6 text = if has_text text then matches_one srv6_name_patterns text else false

  -- `fallback_classification`
  unfoldable pub fallback_classification : String → Option RequestClassification
  unfolding detect_provisioning_request
  fallback_classification content =
      if rx.finds_any_case fallback_informational content
      then some informational
      else if detect_provisioning_request content
      then some provisionable
      else none

  named_class : String → List RequestClassification → Option RequestClassification
  unfolding class_value format
  named_class low [] = none
  named_class low (c ∷ cs) =
      let later = named_class low cs in
      if rx.finds (format ("\\b" ∷ class_value c ∷ "\\b" ∷ [])) low then some c else later

  unfoldable pub exact_class : String → List RequestClassification → Option RequestClassification
  unfolding class_value
  exact_class low [] = none
  exact_class low (c ∷ cs) =
      let later = exact_class low cs in if str_eq low (class_value c) then some c else later

  unfoldable pub class_of : String → Option RequestClassification
  unfolding named_class exact_class
  class_of low = elim (exact_class low (provisionable ∷ informational ∷ unsupported ∷ [])) [
    | none ↦ named_class low (provisionable ∷ informational ∷ unsupported ∷ [])
    | some c ↦ some c
  ]

  -- `parse_classification`
  unfoldable pub parse_classification : String → Option RequestClassification
  unfolding class_of strip_of strip lower
  parse_classification content =
      if has_text content
      then class_of (strip_of (46 ∷ 33 ∷ 63 ∷ 34 ∷ 39 ∷ 32 ∷ []) (lower (strip content)))
      else none
