-- ===== src/Tests/Listings.antt =====
-- agents/provisioning/deployer: readings of the cluster, and requests, on small inputs.
use agentic_netops.Deployer.{
  IntentApi, Outcome, answer, failed, ok, plain_error, port_bound, pre_flight,
}
use agentic_netops.Deployer.Free.{IsFree, OneHolder, preflight_acl_binding-IsFree}
use agentic_netops.Deployer.Preflight.{
  after_networks, against, asked_by, bindings_of, check_bindings, conflict, existing_bindings,
  holder, is_network, or_conflict, own_bindings, ports, preflight_acl_binding, stage_of, verdict_of,
  when_free,
}
use agentic_netops.Deployer.Client.{
  Http, Response, after_kind, items_of, iterated, kubernetes_intent_client, list_kinds,
  listed_objects, plurals,
}
use agentic_netops.Deployer.Complete.{AllRead, list_by_correlation_complete}
use agentic_netops.Deployer.Exclusive.{Exclusive, check_bindings-Exclusive}
use agentic_netops.Deployer.Requests.{
  HasValidContext, Parsing, is_envelope, parse_deployment_envelope, parse_deployment_envelope_valid,
}
use agentic_netops.Deployer.Status.{Summary}
use agentic_netops.Intent.BridgeDomain.{UsesVlan, bridge_domain_iff}
use agentic_netops.Intent.Endpoints.{bridge_domain_causes}
use agentic_netops.Json.{
  Fields, arr, dicts_of, end, field, fields_or_empty, get, has_key, is_text, is_true, item, nil,
  obj, str, text_of, text_or,
}
use agentic_netops.Prelude.{
  All, Bool, List, String, [], ap, arith, false, inl, inr, none, refl, some, str_eq, subst, sym,
  true, ℕ, ◌+◌, ◌∙◌, ◌↔◌, ◌∷◌, ◌≡◌,
}
use agentic_netops.Prelude.Text.{lower, strip}
use agentic_netops.Tests.Deployments.{hex_id, network, one_object, plain_python}
use agentic_netops.Tests.Intents.{at}

-- A network whose access list is bound to a port, as the cluster and the bundle have it.
abbrev bound : String → String → Fields
bound name port = field "apiVersion" (str "network.kubenet.dev/v1alpha1") (
    field "kind" (str "Network") (
      field "metadata" (obj (field "name" (str name) end)) (
        field "spec"
          (obj (
            field "attachments" (arr (item (obj (field "attachment" (str port) end)) nil)) (
              field "accessLists"
                (arr
                  (item (obj (field "name" (str "web") (field "stage" (str "Ingress") end))) nil))
                end)))
          end)))

abbrev with_list : IntentApi Bool
with_list = record one_object { list_networks = λ c. (answer (bound "net-x" "ethernet-1" ∷ []), c) }

-- The check, open.
checked : String → String → Outcome (Unit {0})
unfolding preflight_acl_binding after_networks verdict_of check_bindings or_conflict conflict
    against own_bindings when_free existing_bindings bindings_of is_network holder ports stage_of
    dicts_of fields_or_empty text_or text_of is_true is_text get lower
checked name port = (preflight_acl_binding with_list (bound name port ∷ []) true).0

own_port_passes : checked "net-x" "ethernet-1" ≡ ok tt
unfolding checked
own_port_passes = refl

other_port_passes : checked "net-y" "ethernet-2" ≡ ok tt
unfolding checked
other_port_passes = refl

taken_port_fails :
    checked "net-y" "ethernet-1"
    ≡ failed (plain_error pre_flight (port_bound "ethernet-1" "ingress" "net-x" "web") none)
unfolding checked
taken_port_fails = refl

abbrev net_x : List Fields
net_x = bound "net-x" "ethernet-1" ∷ []

-- The Network of the listing is the only one.
net_x-OneHolder : OneHolder net_x
unfolding checked
net_x-OneHolder g h (inl (inl e)) (inl (inl f)) p s = ap (λ b. b.service) (sym e ∙ f)
net_x-OneHolder g h (inl (inl e)) (inl (inr f)) p s = absurd f
net_x-OneHolder g h (inl (inl e)) (inr f) p s = absurd f
net_x-OneHolder g h (inl (inr e)) k p s = absurd e
net_x-OneHolder g h (inr e) k p s = absurd e

listed-OneHolder :
    (existing : List Fields)
    → (with_list.list_networks true).0 ≡ answer existing
    → OneHolder existing
listed-OneHolder existing e =
    let same : net_x ≡ existing = ground arith in subst OneHolder same net_x-OneHolder

preflight_acl_binding-IsFree_example :
    (existing : List Fields) × ((with_list.list_networks true).0 ≡ answer existing)
    × All (λ m. All (IsFree existing) (asked_by m)) (bound "net-y" "ethernet-2" ∷ [])
unfolding checked
preflight_acl_binding-IsFree_example =
    preflight_acl_binding-IsFree with_list (bound "net-y" "ethernet-2" ∷ []) true listed-OneHolder
      refl

-- Only the last Network that binds a port is compared with: a bundle for it passes, though another
-- binds the port too.
last_holder_passes :
    (preflight_acl_binding
      (record one_object {
        list_networks =
            λ c. (answer (bound "net-a" "ethernet-1" ∷ bound "net-b" "ethernet-1" ∷ []), c);
      })
      (bound "net-b" "ethernet-1" ∷ [])
      true).0
    ≡ ok tt
unfolding checked
last_holder_passes = refl

abbrev bundle : List Fields
bundle = bound "net-x" "ethernet-1" ∷ bound "net-y" "ethernet-2" ∷ []

bundle_passes : check_bindings [] bundle ≡ none
unfolding checked
bundle_passes = refl

check_bindings-Exclusive_example : Exclusive bundle
check_bindings-Exclusive_example = check_bindings-Exclusive [] bundle bundle_passes

abbrev ready_summary : Summary
ready_summary = record {
  kind = "Network";
  name = "net-a";
  namespace = "agentic-netops-intent";
  service_type = "mac-vrf";
  source_type = none;
  ready = some (record { status = some true; reason = ""; message = ""; at = "" });
  degraded = none;
}

-- An HTTP server where the SRv6 services' definition is not installed.
abbrev answer_list : Bool → Response
answer_list true = record {
  code = 200;
  text = "";
  body = some (obj (field "items" (arr (item (obj (network "net-a")) nil)) end));
}
answer_list false = record { code = 404; text = "not found"; body = none }

abbrev server : Http ℕ
server = record {
  patch = λ dry p name m n. (none, n);
  get = λ p name n. (none, n);
  list = λ p cid n. (some (answer_list (str_eq p "networks")), n + 1);
  delete = λ p name n. (none, n);
}

listing_answers :
    (kubernetes_intent_client server).list_by_correlation hex_id 0
    ≡ (answer (network "net-a" ∷ []), 2)
unfolding kubernetes_intent_client list_kinds after_kind listed_objects items_of iterated dicts_of
    get has_key
listing_answers = refl

list_by_correlation_complete_example : AllRead server hex_id plurals 0 (network "net-a" ∷ [])
list_by_correlation_complete_example =
    list_by_correlation_complete server hex_id 0 (network "net-a" ∷ [])
      (ap (λ r. r.0) listing_answers)

abbrev request : Fields
request = field "intent" (obj end) (
    field "context"
      (obj (
        field "correlationId" (str hex_id)
          (field "threadId" (str " thread-1 ") (field "principal" (str "alice") end))))
      end)

abbrev parsing : Parsing
parsing = record { unfenced = λ s. s; loads = λ s. some (obj request); digest32 = λ fs. hex_id }

parse_deployment_envelope_valid_example :
    HasValidContext (parse_deployment_envelope parsing "a request")
unfolding is_envelope text_or text_of is_true get has_key lower strip
parse_deployment_envelope_valid_example =
    parse_deployment_envelope_valid parsing "a request" request refl refl

bridge_domain_iff_example :
    (bridge_domain_causes 0 0 (at "a" (some 7) ∷ at "b" (some 7) ∷ []) ≡ [])
    ↔ ((v : ℕ) × UsesVlan (at "a" (some 7) ∷ at "b" (some 7) ∷ []) v)
bridge_domain_iff_example = bridge_domain_iff 0 (at "a" (some 7)) (at "b" (some 7) ∷ [])
