-- ===== src/Allocator/Building.antt =====
-- agents/provisioning/allocator/agent.py: `_build_intent`.
use agentic_netops.Allocator.{AllocationError, Allocators, and_then, refused}
use agentic_netops.Allocator.Endpoints.{deterministic_endpoints, endpoint_of}
use agentic_netops.Allocator.Parts.{Site, or_text}
use agentic_netops.Allocator.Srv6.{srv6_intent}
use agentic_netops.Allocator.Vxlan.{vxlan_intent}
use agentic_netops.Intent.{Cause, Endpoint, ServiceIntent}
use agentic_netops.Intent.Validate.{validate_all_or_nothing}
use agentic_netops.Interpretation.{Interpretation, Transport, srv6, vxlan}
use agentic_netops.Prelude.{List, Option, String, false, inl, inr, map, none, some, ◌⊎◌}

unfoldable pub checked : ServiceIntent → Option (List Cause) → AllocationError ⊎ ServiceIntent
checked intent none = inr intent
checked intent (some causes) = inl (refused causes)

module _ {C : Type 0} (kuid : Allocators C) (site : Site) where
  unfoldable pub by_transport :
      Interpretation
      → Option Transport
      → List Endpoint
      → String
      → C
      → (AllocationError ⊎ ServiceIntent) × C
  unfolding srv6_intent vxlan_intent
  by_transport i (some srv6) es correlation_id c =
      srv6_intent site kuid.allocate_client_prefix i i.service_type es correlation_id c
  by_transport i (some vxlan) es correlation_id c =
      vxlan_intent kuid i i.service_type es correlation_id c
  by_transport i none es correlation_id c = vxlan_intent kuid i i.service_type es correlation_id c

  -- `_build_intent`
  unfoldable pub build_intent : Interpretation → String → C → (AllocationError ⊎ ServiceIntent) × C
  unfolding and_then by_transport checked deterministic_endpoints endpoint_of
      validate_all_or_nothing or_text
  build_intent i correlation_id c =
      and_then
        (by_transport i i.transport (deterministic_endpoints (map endpoint_of i.endpoints))
          (or_text (some correlation_id) site.stand_in_id) c)
        (λ intent c'. (checked intent (validate_all_or_nothing site.surroundings false intent), c'))
