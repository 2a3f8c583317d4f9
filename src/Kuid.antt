-- ===== src/Kuid.antt =====
-- agents/provisioning/allocator/kuid.py: the client of the allocation authority. The HTTP API is
-- outside the program: it is a record of calls over an abstract cluster, which other clients may
-- change within any call. A reply is a status with the text and the part of the body that is read.
pub mod Claims
pub mod Leases
pub mod Fallback
pub mod Pool
pub mod Row
pub mod Prefix
pub mod Claimed
pub mod Release
pub mod Others
use agentic_netops.Prelude.{
  ℕ, ◌-◌, String, Bool, true, false, Option, none, some, List, [], ◌∷◌, ◌&&◌, ◌||◌, not, ◌==◌, leb,
  str_eq, is_some, if◌then◌else◌,
}
use agentic_netops.Prelude.Text.{lower}
use text.Mathlib.Text.{find?}

-- `KUIDCollisionError`, `KUIDExhaustionError`, the plain `KUIDAPIError`, and an exception of the
-- HTTP client, which is none of these.
pub data KuidError : Type 0 where
  collision exhaustion api : String → KuidError
  unreachable : KuidError

pub data Result (A : Type 0) : Type 0 where
  ok : A → Result A
  err : KuidError → Result A

pub data Reply (A : Type 0) : Type 0 where
  answer : ℕ → String → A → Reply A
  no_answer : Reply A

-- `status_code // 100 == 2`
abbrev pub is_success : ℕ → Bool
is_success status = leb 200 status && leb status 299

-- `t in s`
abbrev pub mentions : String → String → Bool
mentions s t = is_some (find? s t)

-- `KUIDClient._classify_http_error`
unfoldable pub classify_http_error : ℕ → String → KuidError
unfolding lower
classify_http_error status body =
    let low = lower body in
    if (status == 409) && (mentions low "already exists" || mentions low "conflict")
    then collision body
    else if ((status == 409) || ((status == 422) || (status == 429)))
        && (mentions low "exhaust" || mentions low "no available")
    then exhaustion body
    else api body

-- The index pools, their ranges and the fallback switch of agents/config/config.py.
pub record Config : Type 0 where
  pub l2vni_index : String
  pub l3vni_index : String
  pub vlan_index : String
  pub extcomm_index : String
  pub fabric_asn : String
  pub fallback : String
  pub l2vni_min : ℕ
  pub l2vni_max : ℕ
  pub l3vni_min : ℕ
  pub l3vni_max : ℕ
  pub extcomm_min : ℕ
  pub extcomm_max : ℕ
  pub vlan_min : ℕ
  pub vlan_max : ℕ

-- A Lease's name, `{prefix}-{value}`, as the two parts that its text is made of.
pub record LeaseName : Type 0 where
  pub prefix : String
  pub value : ℕ

-- A lease object: its labels for kind and pool, its annotations for the correlation id and the
-- allocated id, and its holder. What is the same in every lease is left out.
pub record Lease : Type 0 where
  pub name : LeaseName
  pub kind : String
  pub pool : String
  pub correlation_id : String
  pub id : ℕ
  pub holder : String

-- What the lease fallback asks of the cluster: the id annotations of the leases with a pool's
-- label, and the creation of a lease.
pub record LeaseApi (C : Type 0) : Type 0 where
  pub list_pool : String → C → Reply (List (Option String)) × C
  pub create : Lease → C → Reply (Unit {0}) × C
