-- ===== src/Tests/Leases.antt =====
-- agents/provisioning/allocator/kuid.py on a small cluster, whose state is the names of its leases.
use agentic_netops.Kuid.{Lease, LeaseApi, LeaseName, Reply, answer, is_success, ok}
use agentic_netops.Kuid.Claimed.{Allocates, allocate_client_prefix-Allocates}
use agentic_netops.Kuid.Claims.{is_settled}
use agentic_netops.Kuid.Leases.{allocate_fallback_lease, lease_name}
use agentic_netops.Kuid.Pool.{AllHeld, Allocated, LeaseLaws, allocate_fallback_lease_fresh}
use agentic_netops.Kuid.Prefix.{
  IpClaim, PrefixApi, after_lookup, after_poll, allocate_client_prefix, await_prefix, is_foreign,
  prefix_from, prefix_result,
}
use agentic_netops.Kuid.Row.{handed_out, handed_out-NoRepeat}
use agentic_netops.Prelude.{
  Bool, List, NoRepeat, String, [], arith, eq_iff, false, if◌then◌else◌, none, refl, some, str_eq,
  true, ℕ, ◌&&◌, ◌+◌, ◌==◌, ◌||◌, ◌∷◌, ◌≡◌,
}
use agentic_netops.Prelude.Text.{lower}

abbrev same_lease : LeaseName → LeaseName → Bool
same_lease m n = str_eq m.prefix n.prefix && (m.value == n.value)

abbrev has_lease : List LeaseName → LeaseName → Bool
has_lease [] n = false
has_lease (m ∷ ms) n = same_lease m n || has_lease ms n

abbrev create_unless : Bool → Lease → List LeaseName → Reply (Unit {0}) × List LeaseName
create_unless true b c = (answer 409 "already exists" tt, c)
create_unless false b c = (answer 201 "" tt, b.name ∷ c)

-- A cluster whose listing names no ids, so that the creations alone tell what is taken.
abbrev small_cluster : LeaseApi (List LeaseName)
small_cluster = record {
  list_pool = λ pool c. (answer 200 "" [], c);
  create = λ b c. create_unless (has_lease c b.name) b c;
}

abbrev Held : LeaseName → List LeaseName → Type 0
Held n c = has_lease c n ≡ true

same : (n : LeaseName) → same_lease n n ≡ true
same n = ground (arith, eq_iff n.prefix n.prefix)

free_of :
    (h : Bool) (b : Lease) (c : List LeaseName) (status : ℕ) (body : String)
    → (create_unless h b c).0 ≡ answer status body tt
    → is_success status ≡ true
    → h ≡ true
    → ⊥
free_of true b c status body e good k = absurd (ground arith)
free_of false b c status body e good k = absurd (ground arith)

lands_of :
    (h : Bool) (b : Lease) (c : List LeaseName) (status : ℕ) (body : String)
    → (create_unless h b c).0 ≡ answer status body tt
    → is_success status ≡ true
    → Held b.name (create_unless h b c).1
lands_of true b c status body e good = absurd (ground arith)
lands_of false b c status body e good = ground (arith, same b.name)

keeps_of :
    (h : Bool) (b : Lease) (c : List LeaseName) (n : LeaseName)
    → Held n c
    → Held n (create_unless h b c).1
keeps_of true b c n k = k
keeps_of false b c n k = ground arith

small_laws : LeaseLaws small_cluster Held
small_laws = record {
  free = λ b c. free_of (has_lease c b.name) b c;
  lands = λ b c. lands_of (has_lease c b.name) b c;
  create_keeps = λ b c. keeps_of (has_lease c b.name) b c;
  list_keeps = λ pool c n h. h;
}

-- Where 100 and 101 are taken.
abbrev taken_two : List LeaseName
taken_two = lease_name "vlan" "pool" 100 ∷ lease_name "vlan" "pool" 101 ∷ []

taken_held : AllHeld small_cluster Held small_laws "vlan" "pool" (101 ∷ 100 ∷ []) taken_two
taken_held = (
  ground (arith, same (lease_name "vlan" "pool" 101)),
  (ground (arith, same (lease_name "vlan" "pool" 100)), tt),
)

allocate_fallback_lease_fresh_example :
    Allocated small_cluster Held small_laws "vlan" "pool" 100 110
      (101 ∷ 100 ∷ [])
      (allocate_fallback_lease small_cluster "vlan" "pool" "cid" 100 110 taken_two)
allocate_fallback_lease_fresh_example =
    allocate_fallback_lease_fresh small_cluster Held small_laws "vlan" "pool" "cid" 100 110
      (101 ∷ 100 ∷ []) taken_two (omega arith) taken_held

handed_out-NoRepeat_example :
    let (vs, c') =
      handed_out small_cluster Held small_laws "vlan" "pool" 100 110
        ("a" ∷ "b" ∷ [])
        (101 ∷ 100 ∷ [])
        taken_two in
    NoRepeat vs × AllHeld small_cluster Held small_laws "vlan" "pool" vs c'
handed_out-NoRepeat_example =
    handed_out-NoRepeat small_cluster Held small_laws "vlan" "pool" 100 110 ("a" ∷ "b" ∷ [])
      (101 ∷ 100 ∷ []) taken_two (omega arith) ((λ e. absurd (omega arith), tt), (tt, tt))
      taken_held

-- A claim of the request's own from an earlier pass, which becomes ready at the second read.
abbrev own_claim : ℕ → IpClaim
own_claim n = record {
  held_by = some "mine";
  status = record {
    id = none;
    value = none;
    allocated = none;
    assigned = none;
    conditions = [];
    phase = if n == 0 then "Pending" else "Ready";
    state = "";
  };
  prefix = some "10.1.0.0/24";
}

abbrev one_claim : PrefixApi ℕ
one_claim = record {
  read = λ name n. (answer 200 "" (own_claim n), n + 1);
  create = λ name cid n. (answer 201 "" tt, n + 1);
}

claim_allocates : allocate_client_prefix one_claim 3 "claim-1" "mine" 0 ≡ (ok "10.1.0.0/24", 2)
unfolding allocate_client_prefix after_lookup is_foreign prefix_from prefix_result await_prefix
    after_poll is_settled lower
claim_allocates = refl

allocate_client_prefix-Allocates_example :
    Allocates one_claim "claim-1" "mine"
      (one_claim.read "claim-1" 0).0
      (allocate_client_prefix one_claim 3 "claim-1" "mine" 0)
allocate_client_prefix-Allocates_example =
    allocate_client_prefix-Allocates one_claim 3 "claim-1" "mine" 0
