-- ===== src/Tests/Turns.antt =====
-- agents/supervisors/provisioning/graph/graph.py: the theorems on the supervisor at a small thread.
use agentic_netops.Tests.Deployments.{plain_python}
use agentic_netops.Tests.Threads.{
  asking, empty_state, interpretation, outside, to_deploy, to_deploy-Submittable, to_deploy-tool,
  walk,
}
use agentic_netops.Capability.{SiteInventory, Srv6Capability}
use agentic_netops.Capability.Site.{keep_letters, knows, normalize_site_name}
use agentic_netops.Supervisor.Contract.{
  checked_intent, extract_payload_and_text, first_data, matched, validate_allocator_payload,
  validate_mapper_payload, whole_intent, wrap_worker_text,
}
use agentic_netops.Json.{Fields, end, obj}
use agentic_netops.Supervisor.Guard.{
  endpoint_reasons, first_reason, guard_reasons, holder_reason, holder_reasons, is_verifiable,
  named_spine, reason_if, signalling_of, site_reason, spine_reason, srv6_guard_refusal,
  srv6_port_holder, variant_of, variant_reason, verifiable_reasons,
}
use agentic_netops.Supervisor.Preconditions.{
  IsEnvelope, Reaches-Submittable, Sends, submission-Sends,
}
use agentic_netops.Supervisor.Stale.{
  IsExhausted, OnlySends, second_confirmed-Sends, supervisor_node-IsExhausted,
}
use agentic_netops.Supervisor.Submittable.{Submittable}
use agentic_netops.Interpretation.{Interpretation, ip_vrf, srv6, value}
use agentic_netops.Prelude.{
  Option, [], arith, inr, length, none, refl, some, true, ℕ, ◌↔◌, ◌∷◌, ◌≡◌, ◌⊎◌,
}
use agentic_netops.Prelude.Regex.{format, has_any, is_part, replace, starts_with}
use agentic_netops.Prelude.Text.{lower}
use agentic_netops.Supervisor.{
  Done, GraphState, Outside, WorkflowStatus, confirm, decline, deployer, failed, status_tool,
  supervisor, worker_unavailable,
}
use agentic_netops.Supervisor.Bounded.{turn-Bounded}
use agentic_netops.Supervisor.Confirm.{
  answer_pending, decision, first_confirmed, reading, second_confirmed, take_answer,
}
use agentic_netops.Supervisor.Consent.{Agreed}
use agentic_netops.Supervisor.Deploying.{deployer_node, submission}
use agentic_netops.Supervisor.Entry.{
  answer_message, asks_outcome, awaited, by_correlation, by_detectors, by_outcome, by_removal,
  by_status, fresh_request, last_human, supervisor_node, user_message,
}
use agentic_netops.Supervisor.Servable.{IsServable, srv6_guard_refusal-IsServable}
use agentic_netops.Supervisor.Silent.{Audits, Silent, supervisor_node-Silent}
use agentic_netops.Supervisor.Sound.{AllocatedFor, validate_allocator_payload-AllocatedFor}
use agentic_netops.Supervisor.Thread.{Holds, Reaches-Holds}
use agentic_netops.Supervisor.Turn.{
  asked_question, edge, failed_or_reflection, is_terminal, joined, loop_or_end, reflect,
  reflection_node, run_node, seeded, turn,
}
use agentic_netops.Tests.Intents.{vlan_intent}
use agentic_netops.Intent.Constructs.{vlan_causes}
use agentic_netops.Intent.Endpoints.{bridge_domain_causes, endpoint_vlan_causes, next_vlan}
use agentic_netops.Intent.Transport.{transport_causes, vxlan_checks}
use agentic_netops.Intent.Validate.{all_causes, basic_causes, construct_causes}
use agentic_netops.Supervisor.Allocation.{
  after_allocator, allocate_mapped, allocate_stored, allocation_judged, allocation_ready,
  allocator_node, allocator_replied, call_allocator,
}
use agentic_netops.Supervisor.Classify.{
  after_model, by_class, classify_and_route, start_provisioning,
}
use agentic_netops.Supervisor.Detect.{
  add_once, class_of, detect_deployment_status_query, detect_direct_device,
  detect_provisioning_request, detect_unsupported_feature, device_hit, exact_class, families,
  feature_hit, find_constructs, matches_one, names_srv6, parse_classification, services_of,
  token_set,
}
use agentic_netops.Supervisor.Mapping.{
  after, after_mapper, call_mapper, guard_of, guarded, interpretation_ready, interpreted, judged,
  map_message, mapper_node, mapper_replied, told,
}
use agentic_netops.Supervisor.Refusal.{bounded_exit, deadline_exceeded, ended}

Reaches-Submittable_example :
    Audits (deployer_node outside to_deploy).1
    ⊎ (Submittable outside to_deploy
        × (Agreed to_deploy.confirmation_1 × Agreed to_deploy.confirmation_2))
Reaches-Submittable_example = Reaches-Submittable outside to_deploy walk to_deploy-tool

Reaches-Holds_example : Holds deployer to_deploy
Reaches-Holds_example = Reaches-Holds walk

turn-Bounded_example : (d : Done GraphState) × (turn 12 (λ n. outside) supervisor asking ≡ some d)
turn-Bounded_example = turn-Bounded (λ n. outside) asking

supervisor_node-Silent_example : Silent asking (supervisor_node outside asking)
supervisor_node-Silent_example = supervisor_node-Silent outside asking

submission-Sends_example :
    (body : Fields) × IsEnvelope outside to_deploy to_deploy-Submittable.value body
    × Sends
        (wrap_worker_text (outside.redact_prompt (outside.canonical_json (obj body))) outside.nonce)
        (submission outside to_deploy).1
submission-Sends_example = submission-Sends outside to_deploy to_deploy-Submittable

validate_allocator_payload-AllocatedFor_example :
    (validate_allocator_payload outside (some end) interpretation ≡ inr vlan_intent)
    ↔ AllocatedFor outside interpretation end vlan_intent
validate_allocator_payload-AllocatedFor_example =
    validate_allocator_payload-AllocatedFor outside interpretation end vlan_intent

abbrev routed : Interpretation
routed = record interpretation {
  service_type = ip_vrf;
  transport = some srv6;
  preferred_spine = some "spine-1";
}

abbrev named_site : SiteInventory
named_site = record {
  nodes = "Leaf-01" ∷ "Leaf-02" ∷ [];
  attachments = "Ethernet2" ∷ "Ethernet1" ∷ [];
  spines = "Spine1" ∷ [];
}

abbrev proven : Srv6Capability
proven = record {
  available = true;
  supported = "ip-vrf/vpn" ∷ [];
  verifiable_attachments = "Leaf01/Ethernet1" ∷ [];
  lab_profile = none;
  sonic_image = none;
}

routed-accepted : srv6_guard_refusal (λ n. "") named_site proven routed ≡ none
unfolding srv6_guard_refusal guard_reasons first_reason variant_reason spine_reason endpoint_reasons
    verifiable_reasons holder_reasons holder_reason srv6_port_holder site_reason reason_if
    variant_of signalling_of is_verifiable value format lower named_spine knows normalize_site_name
    keep_letters
routed-accepted = refl

srv6_guard_refusal-IsServable_example : IsServable named_site proven routed
srv6_guard_refusal-IsServable_example =
    srv6_guard_refusal-IsServable (λ n. "") named_site proven routed routed-accepted

abbrev with_tool : GraphState
with_tool = record empty_state {
  tool_action = some status_tool;
  tool_request = some "{\"action\":\"status\"}";
}

second_confirmed-Sends_example :
    OnlySends
      (wrap_worker_text (outside.redact_prompt "{\"action\":\"status\"}") outside.nonce)
      (deployer_node outside (second_confirmed outside with_tool).0).1
second_confirmed-Sends_example =
    second_confirmed-Sends outside outside with_tool status_tool "{\"action\":\"status\"}" refl refl
      refl

abbrev used_up : GraphState
used_up = record empty_state { iteration_count = 3 }

supervisor_node-IsExhausted_example :
    IsExhausted used_up
      (supervisor_node outside (seeded "vlan 120 please" "c1" "operator" "" used_up))
supervisor_node-IsExhausted_example =
    supervisor_node-IsExhausted outside "vlan 120 please" "c1" "operator" "" used_up refl
      (omega arith)

-- A refusal that contains a word of approval is read as an approval.
read_as_approval : reading "no, do not proceed" ≡ some confirm
unfolding reading has_any is_part starts_with
read_as_approval = refl

read_as_refusal : reading "stop" ≡ some decline
unfolding reading has_any is_part starts_with
read_as_refusal = refl

-- Two spellings of one construct count as two constructs.
counted_twice : token_set ("mac-vrf" ∷ "MacVRF" ∷ []) ≡ "mac-vrf" ∷ "macvrf" ∷ []
unfolding token_set add_once lower replace
counted_twice = refl

abbrev no_mapper : Outside
no_mapper = record outside { call = λ w s. worker_unavailable }

-- What one turn with an unavailable mapper leaves.
abbrev exhausted : Option (Done GraphState) → Option (WorkflowStatus × (ℕ × ℕ))
exhausted none = none
exhausted (some (s, es)) = some (s.workflow_status, (s.iteration_count, length es))

-- The mapper is called three times in one turn, and the thread is left with its iterations used up.
used_up_by_mapper : exhausted (turn 12 (λ n. no_mapper) supervisor asking) ≡ some (failed, (3, 4))
unfolding run_node edge seeded reflection_node reflect asked_question failed_or_reflection
    supervisor_node answer_message user_message last_human by_outcome asks_outcome by_status
    by_removal by_correlation fresh_request by_detectors awaited answer_pending take_answer reading
    first_confirmed second_confirmed decision classify_and_route after_model by_class
    start_provisioning find_constructs services_of token_set detect_direct_device families
    device_hit detect_unsupported_feature feature_hit detect_provisioning_request
    detect_deployment_status_query parse_classification class_of exact_class names_srv6 matches_one
    mapper_node map_message call_mapper after after_mapper mapper_replied judged interpreted guarded
    guard_of interpretation_ready allocator_node allocate_mapped allocate_stored call_allocator
    after_allocator allocator_replied allocation_judged allocation_ready validate_mapper_payload
    validate_allocator_payload checked_intent whole_intent matched extract_payload_and_text
    first_data deadline_exceeded all_causes basic_causes transport_causes vxlan_checks
    construct_causes vlan_causes bridge_domain_causes endpoint_vlan_causes next_vlan turn joined
    loop_or_end is_terminal told bounded_exit ended
used_up_by_mapper = refl
