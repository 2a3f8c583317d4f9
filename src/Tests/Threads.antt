-- ===== src/Tests/Threads.antt =====
-- agents/supervisors/provisioning/graph/graph.py on a small thread: the outside of the graph, its
-- states, and the walk of a thread to a deployment.
use agentic_netops.Capability.{SiteInventory, unavailable}
use agentic_netops.Interpretation.{Interpretation, vlan}
use agentic_netops.Tests.Deployments.{plain_python}
use agentic_netops.Json.{arr, end, field, nil, obj}
use agentic_netops.Prelude.{[], false, inr, none, refl, some, true, ◌∷◌, ◌≡◌}
use agentic_netops.Prelude.Regex.{Regex}
use agentic_netops.Supervisor.{
  GraphState, Node, Outside, allocator, data_part, deployer, finish, mapper, parts,
  received_request, reflection, supervisor,
}
use agentic_netops.Supervisor.Turn.{
  asked_question, edge, failed_or_reflection, reflect, reflection_node, run_node, seeded,
}
use agentic_netops.Tests.Intents.{env, vlan_intent}
use agentic_netops.Supervisor.Allocation.{
  after_allocator, allocate_mapped, allocate_stored, allocation_judged, allocation_ready,
  allocator_node, allocator_replied, call_allocator,
}
use agentic_netops.Supervisor.Classify.{
  after_model, by_class, classify_and_route, start_provisioning,
}
use agentic_netops.Supervisor.Confirm.{
  answer_pending, decision, first_confirmed, reading, second_confirmed, take_answer,
}
use agentic_netops.Supervisor.Contract.{
  checked_intent, extract_payload_and_text, first_data, matched, validate_allocator_payload,
  validate_mapper_payload, whole_intent,
}
use agentic_netops.Supervisor.Detect.{
  class_of, detect_deployment_status_query, detect_direct_device, detect_provisioning_request,
  detect_unsupported_feature, device_hit, exact_class, families, feature_hit, find_constructs,
  matches_one, names_srv6, parse_classification, services_of, token_set,
}
use agentic_netops.Supervisor.Entry.{
  answer_message, asks_outcome, awaited, by_correlation, by_detectors, by_outcome, by_removal,
  by_status, fresh_request, last_human, supervisor_node, user_message,
}
use agentic_netops.Supervisor.Mapping.{
  after, after_mapper, call_mapper, guard_of, guarded, interpretation_ready, interpreted, judged,
  map_message, mapper_node, mapper_replied,
}
use agentic_netops.Supervisor.Refusal.{deadline_exceeded}
use agentic_netops.Supervisor.Thread.{IsFresh, Reaches, begin, fresh, run}
use agentic_netops.Intent.Constructs.{vlan_causes}
use agentic_netops.Intent.Endpoints.{bridge_domain_causes, endpoint_vlan_causes, next_vlan}
use agentic_netops.Intent.Transport.{transport_causes, vxlan_checks}
use agentic_netops.Intent.Validate.{all_causes, basic_causes, construct_causes}
use agentic_netops.Supervisor.Submittable.{Submittable}

abbrev pub interpretation : Interpretation
interpretation = record {
  service_id = "svc-1";
  service_type = vlan;
  source_service_type = none;
  tenant = "acme";
  endpoints =
      record {
        site_or_node = "leaf01";
        attachment = "ethernet1";
        vlan_id = some 120;
        prefixes = none;
      }
      ∷ [];
  bandwidth = none;
  sla = none;
  ipv4_prefixes = [];
  ipv6_prefixes = [];
  access_list = none;
  anycast_gateway = none;
  transport = none;
  signalling = none;
  preferred_spine = none;
  alternate_spine = none;
  missing_fields = [];
  unsupported_properties = [];
}

abbrev pub no_regex : Regex
no_regex = record {
  finds = λ p s. false;
  finds_any_case = λ p s. false;
  found = λ p s. [];
  group = λ p s. none;
  whole = λ p s. true;
}

abbrev pub site : SiteInventory
site = record { nodes = []; attachments = []; spines = [] }

-- The model answers with a class, every worker with a data part, and every payload validates.
abbrev pub outside : Outside
outside = record {
  regex = no_regex;
  expired = λ d. none;
  now = "now";
  nonce = "0f";
  thread_id = "thread-1";
  model = λ s. some "provisionable";
  provider_unavailable = "no provider";
  redact_prompt = λ s. s;
  redact_model_response = λ s. s;
  redact_reason = λ s. s;
  call = λ w s. parts (data_part (field "submitted" (arr nil) end) ∷ []);
  loads = λ s. some (obj end);
  loads_error = λ s. "";
  dumps = λ j. "{}";
  canonical_json = λ j. "{}";
  validate_interpretation = λ j. inr interpretation;
  validate_interpretation_json = λ s. inr interpretation;
  dump_interpretation = λ i. end;
  validate_intent = λ j. inr vlan_intent;
  dump_intent = λ i. end;
  validate_resource = λ j. inr end;
  cause_text = λ cs. "";
  surroundings = env;
  capability = unavailable;
  inventory = site;
  spine_nodes = [];
  decimal = λ n. "";
  before_comment = λ s. s;
  first_400 = λ s. s;
}

abbrev pub empty_state : GraphState
empty_state = record {
  messages = [];
  next_node = finish;
  iteration_count = 0;
  awaiting_confirmation = false;
  mapped_parameters = none;
  allocated_resources = none;
  missing_fields = none;
  pending_action = none;
  correlation_id = "";
  workflow_status = received_request;
  claimed_ids = [];
  deadline = "";
  principal = "operator";
  confirmation_1 = none;
  confirmation_2 = none;
  refusal_reason = none;
  suggestion = none;
  classification = none;
  tool_action = none;
  tool_request = none;
  tool_result = none;
  convergence = none;
  submitted_resources = none;
  submitted_correlation_id = none;
}

-- One run of a node of this thread.
abbrev ran : Node → GraphState → GraphState
ran node s = (run_node outside node s).0

abbrev pub asking : GraphState
asking = seeded "vlan 120 please" "c1" "operator" "" empty_state

abbrev to_map : GraphState
to_map = ran supervisor asking

abbrev mapped_state : GraphState
mapped_state = ran mapper to_map

abbrev first_question : GraphState
first_question = ran reflection mapped_state

abbrev first_answer : GraphState
first_answer = seeded "confirm" "c1" "operator" "" first_question

abbrev to_allocate : GraphState
to_allocate = ran supervisor first_answer

abbrev allocated_state : GraphState
allocated_state = ran allocator to_allocate

abbrev second_question : GraphState
second_question = ran reflection allocated_state

abbrev second_answer : GraphState
second_answer = seeded "confirm" "c1" "operator" "" second_question

abbrev pub to_deploy : GraphState
to_deploy = ran supervisor second_answer

abbrev fresh_start : IsFresh empty_state
fresh_start = record { nothing_pending = refl; nothing_approved = refl }

-- The thread of a deployment: a request, its interpretation confirmed, and its allocation confirmed.
pub walk : Reaches deployer to_deploy
unfolding run_node edge seeded reflection_node reflect asked_question failed_or_reflection
    supervisor_node answer_message user_message last_human by_outcome asks_outcome by_status
    by_removal by_correlation fresh_request by_detectors awaited answer_pending take_answer reading
    first_confirmed second_confirmed decision classify_and_route after_model by_class
    start_provisioning find_constructs services_of token_set detect_direct_device families
    device_hit detect_unsupported_feature feature_hit detect_provisioning_request
    detect_deployment_status_query parse_classification class_of exact_class names_srv6 matches_one
    mapper_node map_message call_mapper after after_mapper mapper_replied judged interpreted guarded
    guard_of interpretation_ready allocator_node allocate_mapped allocate_stored call_allocator
    after_allocator allocator_replied allocation_judged allocation_ready validate_mapper_payload
    validate_allocator_payload checked_intent whole_intent matched extract_payload_and_text
    first_data deadline_exceeded all_causes basic_causes transport_causes vxlan_checks
    construct_causes vlan_causes bridge_domain_causes endpoint_vlan_causes next_vlan
walk =
    let asked_ : Reaches supervisor asking =
      begin "vlan 120 please" "c1" "operator" "" (fresh empty_state fresh_start) in
    let r1 : Reaches mapper to_map = run outside asked_ in
    let r2 : Reaches reflection mapped_state = run outside r1 in
    let r3 : Reaches finish first_question = run outside r2 in
    let r4 : Reaches supervisor first_answer = begin "confirm" "c1" "operator" "" r3 in
    let r5 : Reaches allocator to_allocate = run outside r4 in
    let r6 : Reaches reflection allocated_state = run outside r5 in
    let r7 : Reaches finish second_question = run outside r6 in
    let r8 : Reaches supervisor second_answer = begin "confirm" "c1" "operator" "" r7 in
    run outside r8

pub to_deploy-tool : to_deploy.tool_action ≡ none
unfolding run_node edge seeded reflection_node reflect asked_question failed_or_reflection
    supervisor_node answer_message user_message last_human by_outcome asks_outcome by_status
    by_removal by_correlation fresh_request by_detectors awaited answer_pending take_answer reading
    first_confirmed second_confirmed decision classify_and_route after_model by_class
    start_provisioning find_constructs services_of token_set detect_direct_device families
    device_hit detect_unsupported_feature feature_hit detect_provisioning_request
    detect_deployment_status_query parse_classification class_of exact_class names_srv6 matches_one
    mapper_node map_message call_mapper after after_mapper mapper_replied judged interpreted guarded
    guard_of interpretation_ready allocator_node allocate_mapped allocate_stored call_allocator
    after_allocator allocator_replied allocation_judged allocation_ready validate_mapper_payload
    validate_allocator_payload checked_intent whole_intent matched extract_payload_and_text
    first_data deadline_exceeded all_causes basic_causes transport_causes vxlan_checks
    construct_causes vlan_causes bridge_domain_causes endpoint_vlan_causes next_vlan
to_deploy-tool = refl

pub to_deploy-Submittable : Submittable outside to_deploy
unfolding run_node edge seeded reflection_node reflect asked_question failed_or_reflection
    supervisor_node answer_message user_message last_human by_outcome asks_outcome by_status
    by_removal by_correlation fresh_request by_detectors awaited answer_pending take_answer reading
    first_confirmed second_confirmed decision classify_and_route after_model by_class
    start_provisioning find_constructs services_of token_set detect_direct_device families
    device_hit detect_unsupported_feature feature_hit detect_provisioning_request
    detect_deployment_status_query parse_classification class_of exact_class names_srv6 matches_one
    mapper_node map_message call_mapper after after_mapper mapper_replied judged interpreted guarded
    guard_of interpretation_ready allocator_node allocate_mapped allocate_stored call_allocator
    after_allocator allocator_replied allocation_judged allocation_ready validate_mapper_payload
    validate_allocator_payload checked_intent whole_intent matched extract_payload_and_text
    first_data deadline_exceeded all_causes basic_causes transport_causes vxlan_checks
    construct_causes vlan_causes bridge_domain_causes endpoint_vlan_causes next_vlan
to_deploy-Submittable = record {
  status = refl;
  decision = refl;
  text = "{}";
  stored = refl;
  given = refl;
  value = obj end;
  read = refl;
  intent = vlan_intent;
  valid = refl;
}
