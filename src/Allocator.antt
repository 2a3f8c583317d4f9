-- ===== src/Allocator.antt =====
-- agents/provisioning/allocator/agent.py: the agent that claims the identifiers of a service and
-- builds its normalized intent. The allocation client is a record of calls over an abstract
-- cluster, which Client fills from the model of allocator/kuid.py.
pub mod Endpoints
pub mod Parts
pub mod Srv6
pub mod Vxlan
pub mod Building
pub mod Memo
pub mod Client
pub mod Shared
pub mod Order
pub mod Requested
pub mod Declared
pub mod Built
pub mod Repeats
use agentic_netops.Intent.{Cause, RdRt}
use agentic_netops.Kuid.{KuidError, Result, err, ok}
use agentic_netops.Prelude.{List, String, inl, inr, ℕ, ◌⊎◌}
use agentic_netops.Prelude.Text.{ℤ}

-- What the agent raises: an error of the client, a request that contradicts itself, a gateway on a
-- bridged service, a construct that has no srv6 form, a value that the intent's model refuses, and
-- the causes of the intent's validation.
pub data AllocationError : Type 0 where
  claim_failed : KuidError → AllocationError
  several_vlans : String → List ℕ → AllocationError
  bridged_gateway malformed : AllocationError
  not_over_srv6 : String → AllocationError
  refused : List Cause → AllocationError

-- The calls that the agent makes of `KUIDClient`.
pub record Allocators (C : Type 0) : Type 0 where
  pub allocate_vlan : String → C → Result ℤ × C
  pub allocate_l2vni : String → C → Result ℤ × C
  pub allocate_l3vni : String → C → Result ℤ × C
  pub allocate_rd_rt : String → C → Result RdRt × C
  pub allocate_client_prefix : String → String → C → Result String × C

module _ {C A : Type 0} where
  unfoldable pub claimed : Result A × C → (AllocationError ⊎ A) × C
  claimed (ok a, c) = (inr a, c)
  claimed (err e, c) = (inl (claim_failed e), c)

-- The next statement, unless this one raised.
unfoldable pub and_then :
    {C A B : Type 0}
    → (AllocationError ⊎ A) × C
    → (A → C → (AllocationError ⊎ B) × C)
    → (AllocationError ⊎ B) × C
and_then (inl e, c) next = (inl e, c)
and_then (inr a, c) next = next a c

-- As above, for statements that call nothing.
unfoldable pub and_value :
    {A B : Type 0} → AllocationError ⊎ A → (A → AllocationError ⊎ B) → AllocationError ⊎ B
and_value (inl e) next = inl e
and_value (inr a) next = next a

-- A run that raised, or that returned a value with a property.
pub data Gives {C A : Type 0} (P : A → Type 0) : (AllocationError ⊎ A) × C → Type 0 where
  fails : (e : AllocationError) (c : C) → Gives P (inl e, c)
  gives : (a : A) (c : C) → P a → Gives P (inr a, c)

pub and_then-Gives :
    {C A B : Type 0} {P : A → Type 0} {Q : B → Type 0} {r : (AllocationError ⊎ A) × C}
    {next : A → C → (AllocationError ⊎ B) × C}
    → Gives P r
    → ((a : A) (c : C) → P a → Gives Q (next a c))
    → Gives Q (and_then r next)
unfolding and_then
and_then-Gives {r = (inl e, c)} _ _ = fails e c
and_then-Gives {r = (inr a, c)} (gives _ _ p) later = later a c p

pub and_then_any :
    {C A B : Type 0} {Q : B → Type 0} (r : (AllocationError ⊎ A) × C)
    {next : A → C → (AllocationError ⊎ B) × C}
    → ((a : A) (c : C) → Gives Q (next a c))
    → Gives Q (and_then r next)
unfolding and_then
and_then_any (inl e, c) _ = fails e c
and_then_any (inr a, c) later = later a c

pub and_value-Gives :
    {C A B : Type 0} {P : A → Type 0} {Q : B → Type 0} {r : AllocationError ⊎ A}
    {next : A → AllocationError ⊎ B} {c : C}
    → Gives P (r, c)
    → ((a : A) → P a → Gives Q (next a, c))
    → Gives Q (and_value r next, c)
unfolding and_value
and_value-Gives {r = inl e} {c = c} _ _ = fails e c
and_value-Gives {r = inr a} (gives _ _ p) later = later a p

pub and_value_any :
    {C A B : Type 0} {Q : B → Type 0} (r : AllocationError ⊎ A) {next : A → AllocationError ⊎ B}
    {c : C}
    → ((a : A) → Gives Q (next a, c))
    → Gives Q (and_value r next, c)
unfolding and_value
and_value_any (inl e) {c = c} _ = fails e c
and_value_any (inr a) later = later a
