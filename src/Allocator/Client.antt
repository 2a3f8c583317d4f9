-- ===== src/Allocator/Client.antt =====
-- agents/provisioning/allocator/agent.py: the calls of the agent, made by the model of
-- agents/provisioning/allocator/kuid.py.
use agentic_netops.Allocator.{Allocators}
use agentic_netops.Intent.{RdRt}
use agentic_netops.Kuid.{Config, LeaseApi, Result, err, ok}
use agentic_netops.Kuid.Claims.{ClaimApi}
use agentic_netops.Kuid.Fallback.{allocate_l2vni, allocate_l3vni, allocate_rt, allocate_vlan}
use agentic_netops.Kuid.Prefix.{PrefixApi, allocate_client_prefix}
use agentic_netops.Prelude.{String, [], append, ℕ, ◌∷◌}
use agentic_netops.Prelude.Text.{ℤ}

-- The texts that the client builds: a number in decimal, and the name of the claim that a
-- correlation id has for an attachment.
pub record Wording : Type 0 where
  pub decimal : ℤ → String
  pub claim_name : String → String → String

-- `f"{FABRIC_ASN}:{rt_id}"`, as the route distinguisher and as both targets
unfoldable pub rd_rt_of : Config → Wording → ℤ → RdRt
rd_rt_of config wording n =
    let rt = append config.fabric_asn (append ":" (wording.decimal n)) in
    record { rd = rt; import_rt = rt ∷ []; export_rt = rt ∷ [] }

unfoldable pub with_rd_rt : {C : Type 0} → Config → Wording → Result ℤ × C → Result RdRt × C
unfolding rd_rt_of
with_rd_rt config wording (ok n, c) = (ok (rd_rt_of config wording n), c)
with_rd_rt config wording (err e, c) = (err e, c)

module _ {C : Type 0} (config : Config) (wording : Wording) (polls : ℕ) (served : ClaimApi C)
    (prefixes : PrefixApi C) (leases : LeaseApi C) where
  -- `KUIDClient`
  unfoldable pub kuid_client : Allocators C
  unfolding with_rd_rt
  kuid_client = record {
    allocate_vlan = allocate_vlan config polls served leases;
    allocate_l2vni = allocate_l2vni config polls served leases;
    allocate_l3vni = allocate_l3vni config polls served leases;
    allocate_rd_rt =
        λ cid c. with_rd_rt config wording (allocate_rt config polls served leases cid c);
    allocate_client_prefix = λ cid attachment c.
        allocate_client_prefix prefixes polls (wording.claim_name cid attachment) cid c;
  }
