-- ===== src/Tests/Allocations.antt =====
-- agents/provisioning/allocator/agent.py on small requests.
use agentic_netops.Allocator.{Allocators, Gives, and_then, claimed, several_vlans}
use agentic_netops.Allocator.Building.{build_intent, by_transport, checked}
use agentic_netops.Allocator.Built.{
  Allocated, build_intent-Allocated, build_intent_claims_prefixes, ordered,
}
use agentic_netops.Allocator.Declared.{NamesVlan, build_intent-declared}
use agentic_netops.Allocator.Endpoints.{
  add_number, declared_vlans, deterministic_endpoints, endpoint_leb, endpoint_of, l2_endpoints,
  on_claimed, on_declared, on_vlan, vlan_field, with_named,
}
use agentic_netops.Allocator.Memo.{
  Reader, after_build, after_calls, ainvoke, alloc_node, allocate_once, by_reading, handed_on,
  read_fields, read_message, recall, recalled,
}
use agentic_netops.Allocator.Parts.{Site, normalized_acl, or_text, plain_intent}
use agentic_netops.Allocator.Repeats.{ainvoke-repeats}
use agentic_netops.Allocator.Shared.{OneVlan, l2_endpoints-OneVlan}
use agentic_netops.Allocator.Vxlan.{vxlan_intent}
use agentic_netops.Intent.{Endpoint, ServiceIntent}
use agentic_netops.Intent.Constructs.{vlan_causes, vlan_checks}
use agentic_netops.Intent.Endpoints.{bridge_domain_causes, endpoint_vlan_causes, next_vlan}
use agentic_netops.Intent.Transport.{claims_te_policy, is_srv6, transport_causes, vxlan_checks}
use agentic_netops.Intent.Validate.{
  all_causes, basic_causes, claim_causes, construct_causes, name_checks, validate_all_or_nothing,
}
use agentic_netops.Interpretation.{EndpointIntent, Interpretation, ip_vrf, srv6, value}
use agentic_netops.Json.{end, field, get, is_true, obj, remove, str, text_of, text_or}
use agentic_netops.Kuid.{Result, err, ok, unreachable}
use agentic_netops.Prelude.{
  List, Option, String, [], ap, arith, eq_iff, inl, inr, map, none, refl, some, ℕ, ◌+◌, ◌∷◌, ◌≡◌,
}
use agentic_netops.Prelude.Regex.{text_leb}
use agentic_netops.Prelude.Sort.{insert_sorted, sort}
use agentic_netops.Prelude.Text.{pos, ℤ}
use agentic_netops.Tests.Deployments.{plain_python}
use agentic_netops.Tests.Threads.{interpretation}

abbrev number : String → ℕ → Result ℤ × ℕ
number cid n = (ok (pos (120 + n)), n + 1)

-- A client that counts the claims.
abbrev counting : Allocators ℕ
counting = record {
  allocate_vlan = number;
  allocate_l2vni = number;
  allocate_l3vni = λ cid n. (ok (pos (10120 + n)), n + 1);
  allocate_rd_rt = λ cid n. (ok (record { rd = "65000:1"; import_rt = []; export_rt = [] }), n + 1);
  allocate_client_prefix = λ cid attachment n. (ok "10.8.0.0/24", n + 1);
}

-- The same prefixes, and no other number.
abbrev prefixes_only : Allocators ℕ
prefixes_only = record counting {
  allocate_vlan = λ cid n. (err unreachable, n);
  allocate_l2vni = λ cid n. (err unreachable, n);
  allocate_l3vni = λ cid n. (err unreachable, n);
  allocate_rd_rt = λ cid n. (err unreachable, n);
}

abbrev here : Site
here = record {
  surroundings = record { spine_nodes = none; ip_version = λ s. none };
  stand_in_id = "c0";
  first_host = λ s. some "10.8.0.1/24";
}

abbrev site_endpoint : String → Option ℕ → EndpointIntent
site_endpoint node v = record {
  site_or_node = node;
  attachment = "ethernet1";
  vlan_id = v;
  prefixes = none;
}

-- Two sites, which are not in order and declare no vlan.
abbrev two_sites : Interpretation
two_sites = record interpretation {
  endpoints = site_endpoint "leaf02" none ∷ site_endpoint "leaf01" none ∷ [];
}

abbrev two_sites_over_srv6 : Interpretation
two_sites_over_srv6 = record two_sites { service_type = ip_vrf; transport = some srv6 }

abbrev placed_at : String → Option ℕ → Endpoint
placed_at node v = record {
  node = node;
  attachment = "ethernet1";
  vlan = v;
  vrf = none;
  prefixes = none;
}

abbrev placed_sites : Option ℕ → List Endpoint
placed_sites v = placed_at "leaf01" v ∷ placed_at "leaf02" v ∷ []

abbrev expected : ServiceIntent
expected = record {
  service_id = "svc-1";
  type = "vlan";
  tenant = "acme";
  rd_rt = none;
  l2vni = none;
  l3vni = none;
  address_families = none;
  anycast_gateway = none;
  transport = "vxlan";
  signalling = none;
  preferred_spine = none;
  endpoints = placed_sites (some 120);
  policies = none;
  unsupported = none;
  acl = none;
}

built : build_intent counting here two_sites "c1" 0 ≡ (inr expected, 1)
unfolding build_intent by_transport vxlan_intent l2_endpoints on_declared declared_vlans with_named
    on_claimed vlan_field on_vlan claimed and_then plain_intent value normalized_acl checked
    validate_all_or_nothing all_causes basic_causes claim_causes name_checks transport_causes
    is_srv6 vxlan_checks claims_te_policy construct_causes vlan_causes vlan_checks
    bridge_domain_causes next_vlan endpoint_vlan_causes deterministic_endpoints endpoint_of sort
    insert_sorted endpoint_leb text_leb or_text
built = refl

two_vlans_refused :
    l2_endpoints counting (placed_at "leaf01" (some 7) ∷ placed_sites (some 9)) "c1" "vlan" 0
    ≡ (inl (several_vlans "vlan" (7 ∷ 9 ∷ [])), 0)
unfolding l2_endpoints on_declared declared_vlans with_named add_number
two_vlans_refused = refl

-- Every text reads as the request for two sites.
abbrev reader : Reader
reader = record {
  fenced = λ s. none;
  load = λ s. some (obj (field "correlationId" (str s) end));
  validate = λ fields. some two_sites;
  key = λ i. i.service_id;
}

read_first : read_message counting here reader "c1" ≡ some (two_sites, "c1")
unfolding read_message read_fields text_or text_of is_true get remove
read_first = refl

read_last : read_message counting here reader "c3" ≡ some (two_sites, "c3")
unfolding read_message read_fields text_or text_of is_true get remove
read_last = refl

first_answer : (ainvoke counting here reader "c1" ([], 0)).0 ≡ inr expected
unfolding ainvoke alloc_node by_reading read_message read_fields recall recalled allocate_once
    after_build handed_on text_or text_of is_true get remove
first_answer =
    ap (λ r. (handed_on counting here reader (after_build counting here reader "svc-1" [] [] r)).0)
      built

l2_endpoints-OneVlan_example :
    Gives (OneVlan (placed_sites none)) (l2_endpoints counting (placed_sites none) "c1" "mac-vrf" 0)
l2_endpoints-OneVlan_example = l2_endpoints-OneVlan counting (placed_sites none) "c1" "mac-vrf" 0

build_intent-Allocated_example :
    Gives (Allocated here.surroundings two_sites) (build_intent counting here two_sites "c1" 0)
build_intent-Allocated_example = build_intent-Allocated counting here two_sites "c1" 0

build_intent_claims_prefixes_example :
    build_intent counting here two_sites_over_srv6 "c1" 0
    ≡ build_intent prefixes_only here two_sites_over_srv6 "c1" 0
build_intent_claims_prefixes_example =
    build_intent_claims_prefixes counting prefixes_only here two_sites_over_srv6 refl "c1" 0 refl

ainvoke-repeats_example :
    ainvoke counting here reader "c3"
      (after_calls counting here reader ("c2" ∷ []) (ainvoke counting here reader "c1" ([], 0)).1)
    ≡ (
      inr expected,
      after_calls counting here reader ("c2" ∷ []) (ainvoke counting here reader "c1" ([], 0)).1,
    )
ainvoke-repeats_example =
    ainvoke-repeats counting here reader "c1" "c3" "c1" "c3" two_sites two_sites ("c2" ∷ []) ([], 0)
      expected read_first read_last refl first_answer

-- The two sites, which both declare vlan 7.
abbrev on_seven : Interpretation
on_seven = record interpretation {
  endpoints = site_endpoint "leaf02" (some 7) ∷ site_endpoint "leaf01" (some 7) ∷ [];
}

on_seven-NamesVlan : NamesVlan on_seven 7
on_seven-NamesVlan = record {
  service_id = λ h. ground (arith, eq_iff "svc-1" "");
  tenant = λ h. ground (arith, eq_iff "acme" "");
  kind = refl;
  over = λ h. ground arith;
  low = omega arith;
  high = omega arith;
  attached = λ h. ground arith;
  named = (refl, (refl, tt));
}

build_intent-declared_example :
    build_intent counting here on_seven "c1" 0
    ≡ (inr (plain_intent on_seven (map (on_vlan (some 7)) (ordered on_seven))), 0)
build_intent-declared_example =
    build_intent-declared counting here on_seven 7 "c1" 0 on_seven-NamesVlan
