-- ===== src/Allocator/Declared.antt =====
-- agents/provisioning/allocator/agent.py: a vlan that the operator named on every endpoint is used, and
-- nothing is claimed.
use agentic_netops.Allocator.{Allocators, and_then}
use agentic_netops.Allocator.Building.{build_intent, by_transport, checked}
use agentic_netops.Allocator.Built.{ordered}
use agentic_netops.Allocator.Endpoints.{
  add_number, declared_vlans, endpoint_leb, endpoint_of, l2_endpoints, on_declared, on_vlan,
  with_named,
}
use agentic_netops.Allocator.Parts.{Site, plain_intent}
use agentic_netops.Allocator.Vxlan.{vxlan_intent}
use agentic_netops.Intent.{Endpoint, Surroundings}
use agentic_netops.Intent.Accepted.{validate_all_or_nothing-IsVlan}
use agentic_netops.Intent.Validate.{validate_all_or_nothing}
use agentic_netops.Interpretation.{
  EndpointIntent, Interpretation, ServiceType, Transport, srv6, value, vlan, vxlan,
}
use agentic_netops.Prelude.{
  All, List, Option, String, [], ap, arith, eq_iff, false, if-When, inr, map, none, refl, some, ℕ,
  ◌<◌, ◌∷◌, ◌≡◌, ◌≢◌, ◌≤◌,
}
use agentic_netops.Prelude.Sort.{insert_sorted, sort}

abbrev Names : ℕ → List Endpoint → Type 0
Names v es = All (λ e. e.vlan ≡ some v) es

add_number_same : (v : ℕ) → add_number v (v ∷ []) ≡ v ∷ []
unfolding add_number
add_number_same v = ground arith

with_named_same : (o : Option ℕ) (v : ℕ) → 1 ≤ v → o ≡ some v → with_named o (v ∷ []) ≡ v ∷ []
unfolding with_named
with_named_same none v low h = absurd (ground arith)
with_named_same (some u) v low h = ground (arith, add_number_same v)

with_named_first : (o : Option ℕ) (v : ℕ) → 1 ≤ v → o ≡ some v → with_named o [] ≡ v ∷ []
unfolding with_named add_number
with_named_first none v low h = absurd (ground arith)
with_named_first (some u) v low h = ground arith

declared_vlans-eq :
    (e : Endpoint) (es : List Endpoint) (v : ℕ)
    → 1 ≤ v
    → Names v (e ∷ es)
    → declared_vlans (e ∷ es) ≡ v ∷ []
unfolding declared_vlans
declared_vlans-eq e [] v low h = with_named_first e.vlan v low h.0
declared_vlans-eq e (d ∷ es) v low h =
    rw (declared_vlans-eq d es v low h.1) (with_named_same e.vlan v low h.0)

module _ {C : Type 0} (kuid : Allocators C) where
  l2_endpoints-declared :
      (es : List Endpoint) (v : ℕ) (cid service : String) (c : C)
      → 1 ≤ v
      → es ≢ []
      → Names v es
      → l2_endpoints kuid es cid service c ≡ (inr (map (on_vlan (some v)) es), c)
  unfolding l2_endpoints on_declared
  l2_endpoints-declared [] v cid service c low attached h = absurd (attached refl)
  l2_endpoints-declared (e ∷ es) v cid service c low attached h =
      rw (declared_vlans-eq e es v low h) refl

-- Sorting keeps what all elements have.
insert_sorted-All :
    (v : ℕ) (e : Endpoint) (es : List Endpoint)
    → e.vlan ≡ some v
    → Names v es
    → Names v (insert_sorted endpoint_leb e es)
unfolding insert_sorted
insert_sorted-All v e [] q h = (q, tt)
insert_sorted-All v e (d ∷ es) q h =
    if-When (λ l. Names v l) (endpoint_leb e d) (λ _. (q, h))
      (λ _. (h.0, insert_sorted-All v e es q h.1))

sort-All : (v : ℕ) (es : List Endpoint) → Names v es → Names v (sort endpoint_leb es)
unfolding sort
sort-All v [] h = tt
sort-All v (e ∷ es) h = insert_sorted-All v e (sort endpoint_leb es) h.0 (sort-All v es h.1)

insert_sorted-ne_nil : (e : Endpoint) (es : List Endpoint) → insert_sorted endpoint_leb e es ≢ []
unfolding insert_sorted
insert_sorted-ne_nil e [] = λ h. ground arith
insert_sorted-ne_nil e (d ∷ es) =
    if-When (λ l. l ≢ []) (endpoint_leb e d) (λ _ h. ground arith) (λ _ h. ground arith)

ordered-ne_nil : (es : List EndpointIntent) → es ≢ [] → sort endpoint_leb (map endpoint_of es) ≢ []
unfolding sort
ordered-ne_nil [] attached = λ _. attached refl
ordered-ne_nil (e ∷ es) attached =
    insert_sorted-ne_nil (endpoint_of e) (sort endpoint_leb (map endpoint_of es))

endpoint_of-All :
    (v : ℕ) (es : List EndpointIntent)
    → All (λ e. e.vlan_id ≡ some v) es
    → Names v (map endpoint_of es)
unfolding endpoint_of
endpoint_of-All v [] h = tt
endpoint_of-All v (e ∷ es) h = (h.0, endpoint_of-All v es h.1)

on_vlan-Names : (v : ℕ) (es : List Endpoint) → Names v (map (on_vlan (some v)) es)
unfolding on_vlan
on_vlan-Names v [] = tt
on_vlan-Names v (e ∷ es) = (refl, on_vlan-Names v es)

map-ne_nil : (v : ℕ) (es : List Endpoint) → es ≢ [] → map (on_vlan (some v)) es ≢ []
map-ne_nil v [] attached = λ _. attached refl
map-ne_nil v (e ∷ es) attached = λ h. ground arith

-- A vlan request that names one usable vlan on every endpoint.
pub record NamesVlan (i : Interpretation) (v : ℕ) : Type 0 where
  pub service_id : i.service_id ≢ ""
  pub tenant : i.tenant ≢ ""
  pub kind : i.service_type ≡ vlan
  pub over : i.transport ≢ some srv6
  pub low : 0 < v
  pub high : v ≤ 4000
  pub attached : i.endpoints ≢ []
  pub named : All (λ e. e.vlan_id ≡ some v) i.endpoints

vlan-ne_empty : (t : String) → t ≡ "vlan" → t ≢ ""
vlan-ne_empty t h q = ground (arith, eq_iff "vlan" "")

module _ (env : Surroundings) (i : Interpretation) (v : ℕ) (h : NamesVlan i v) where
  plain_intent-accepted :
      (es : List Endpoint)
      → es ≢ []
      → Names v es
      → validate_all_or_nothing env false (plain_intent i es) ≡ none
  unfolding plain_intent value
  plain_intent-accepted es attached named =
      (validate_all_or_nothing-IsVlan env (plain_intent i es) refl (ap value h.kind)).1 (
        record {
          service_id = h.service_id;
          tenant = h.tenant;
          type = vlan-ne_empty _ (ap value h.kind);
          no_claims = refl;
          endpoints = attached;
        },
        record { signalling = refl; preferred_spine = refl },
        record {
          no_l2vni = refl;
          no_l3vni = refl;
          no_rd_rt = refl;
          no_gateway = refl;
          shared_vlan = (v, (h.low, h.high, named));
        },
      )

module _ {C : Type 0} (kuid : Allocators C) (site : Site) (i : Interpretation) where
  by_transport-vxlan :
      (t : Option Transport) (es : List Endpoint) (cid : String) (c : C)
      → t ≢ some srv6
      → by_transport kuid site i t es cid c ≡ vxlan_intent kuid i i.service_type es cid c
  unfolding by_transport
  by_transport-vxlan none es cid c h = refl
  by_transport-vxlan (some vxlan) es cid c h = refl
  by_transport-vxlan (some srv6) es cid c h = absurd (h refl)

  vxlan_intent-declared :
      (kind : ServiceType) (es : List Endpoint) (v : ℕ) (cid : String) (c : C)
      → kind ≡ vlan
      → 1 ≤ v
      → es ≢ []
      → Names v es
      → vxlan_intent kuid i kind es cid c ≡ (inr (plain_intent i (map (on_vlan (some v)) es)), c)
  unfolding vxlan_intent and_then
  vxlan_intent-declared kind es v cid c k low attached h =
      rw k (rw (l2_endpoints-declared kuid es v cid "vlan" c low attached h) refl)

  -- A vlan request, not over srv6, that has its names, has an endpoint, and names one vlan from 1 to
  -- 4000 on every endpoint is built on that vlan, and the cluster is unchanged: nothing is claimed.
  pub build_intent-declared :
      (v : ℕ) (cid : String) (c : C)
      → NamesVlan i v
      → build_intent kuid site i cid c
        ≡ (inr (plain_intent i (map (on_vlan (some v)) (ordered i))), c)
  unfolding build_intent and_then checked
  build_intent-declared v cid c h =
      let es = sort endpoint_leb (map endpoint_of i.endpoints) in
      let named =
        sort-All v (map endpoint_of i.endpoints) (endpoint_of-All v i.endpoints h.named) in
      let filled = ordered-ne_nil i.endpoints h.attached in
      let accepted =
        plain_intent-accepted site.surroundings i v h (map (on_vlan (some v)) es)
          (map-ne_nil v es filled) (on_vlan-Names v es) in
      rw (by_transport-vxlan i.transport es _ c h.over) (
        rw
          (vxlan_intent-declared i.service_type es v _ c h.kind (omega (arith, h.low)) filled named)
          (rw accepted refl))
