-- ===== src/Kuid/Fallback.antt =====
-- agents/provisioning/allocator/kuid.py: `_with_lease_fallback` and the allocators that use it.
use agentic_netops.Kuid.{Config, LeaseApi, Result, api, collision, err, exhaustion, ok, unreachable}
use agentic_netops.Kuid.Claims.{ClaimApi, Family, allocate_claim, extcomm, genid, vlan}
use agentic_netops.Kuid.Leases.{allocate_fallback_lease}
use agentic_netops.Prelude.{String, if◌then◌else◌, str_eq, ℕ}
use agentic_netops.Prelude.Text.{pos, ℤ}

module _ {C : Type 0} (config : Config) (polls : ℕ) (served : ClaimApi C)
    (leases : LeaseApi C) where
  from_leases : String → String → ℕ → ℕ → String → C → Result ℤ × C
  from_leases what index first last correlation_id c =
      let (result, c') = allocate_fallback_lease leases what index correlation_id first last c in
      (elim result [ ok n ↦ ok (pos n) | err e ↦ err e ], c')

  -- `_with_lease_fallback`: collisions and exhaustion are raised again, and so is an exception that
  -- is no API error; a plain API error goes to the leases if they are enabled.
  unfoldable pub with_lease_fallback : Family → String → String → ℕ → ℕ → String → C → Result ℤ × C
  unfolding from_leases
  with_lease_fallback family what index first last correlation_id c =
      let (result, c') = allocate_claim served family polls what index correlation_id c in
      elim result [
        | ok n ↦ (ok n, c')
        | err (api message) ↦
            if str_eq config.fallback "lease"
            then from_leases what index first last correlation_id c'
            else (err (api message), c')
        | err (collision message) ↦ (err (collision message), c')
        | err (exhaustion message) ↦ (err (exhaustion message), c')
        | err unreachable ↦ (err unreachable, c')
      ]

  unfoldable pub allocate_l2vni : String → C → Result ℤ × C
  allocate_l2vni =
      with_lease_fallback genid "l2vni" config.l2vni_index config.l2vni_min config.l2vni_max

  unfoldable pub allocate_l3vni : String → C → Result ℤ × C
  allocate_l3vni =
      with_lease_fallback genid "l3vni" config.l3vni_index config.l3vni_min config.l3vni_max

  unfoldable pub allocate_vlan : String → C → Result ℤ × C
  allocate_vlan = with_lease_fallback vlan "vlan" config.vlan_index config.vlan_min config.vlan_max

  -- The number of `allocate_rd_rt`: the route target and the route distinguisher are both
  -- `{FABRIC_ASN}:{number}`.
  unfoldable pub allocate_rt : String → C → Result ℤ × C
  allocate_rt =
      with_lease_fallback extcomm "rt" config.extcomm_index config.extcomm_min config.extcomm_max
