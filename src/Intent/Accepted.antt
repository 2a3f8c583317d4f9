-- ===== src/Intent/Accepted.antt =====
-- agents/common/schemas/normalized_intent.py: the verdict of `validate_all_or_nothing` on each of
-- the three services that the vxlan transport carries.
use agentic_netops.Intent.{ServiceIntent, Surroundings}
use agentic_netops.Intent.Kinds.{construct-ip_vrf, construct-mac_vrf, construct-vlan}
use agentic_netops.Intent.Named.{IsNamed, accepted_iff}
use agentic_netops.Intent.Validate.{construct_causes, validate_all_or_nothing}
use agentic_netops.Intent.Vxlan.{
  IsIpVrf, IsMacVrf, IsPlain, IsVlan, ip_vrf_causes_iff, mac_vrf_causes_iff, not_srv6,
  vlan_causes_iff, vxlan_transport_iff,
}
use agentic_netops.Prelude.{[], false, none, ◌↔◌, ◌≡◌, ◌≢◌}

module _ (env : Surroundings) (s : ServiceIntent) (plain : s.transport ≡ "vxlan") where
  -- The verdict, once the construct's own part is characterised.
  verdict :
      {P : Type 0}
      → (s.endpoints ≢ [] → (construct_causes env s ≡ []) ↔ P)
      → (validate_all_or_nothing env false s ≡ none) ↔ (IsNamed s × IsPlain s × P)
  verdict own = (
    λ h.
        let (n, t, c) = (accepted_iff env s).0 h in
        (n, (vxlan_transport_iff env.spine_nodes s plain n).0 t, (own n.endpoints).0 c),
    λ h.
        (accepted_iff env s).1
          (h.0, (vxlan_transport_iff env.spine_nodes s plain h.0).1 h.1, (own h.0.endpoints).1 h.2),
  )

  -- On vxlan a vlan is accepted exactly when it has its names, claims nothing unsupported, uses no
  -- srv6 field, carries no VNI, rdRt block or gateway, and all its endpoints name one
  -- vlan from 1 to 4000.
  pub validate_all_or_nothing-IsVlan :
      s.type ≡ "vlan"
      → (validate_all_or_nothing env false s ≡ none) ↔ (IsNamed s × IsPlain s × IsVlan s)
  validate_all_or_nothing-IsVlan kind =
      verdict (λ h. rw (construct-vlan env s kind) (rw (not_srv6 s plain) (vlan_causes_iff s h)))

  -- On vxlan a mac-vrf is accepted exactly when it has its names, claims nothing unsupported, uses
  -- no srv6 field, has an L2VNI and an rdRt block, at least two endpoints (one with an
  -- anycast gateway) that all name one vlan from 1 to 4000, and an L3VNI from 10000 to 14094 if it
  -- has a gateway, whatever the gateway's addresses, and none if it has not.
  pub validate_all_or_nothing-IsMacVrf :
      s.type ≡ "mac-vrf"
      → (validate_all_or_nothing env false s ≡ none) ↔ (IsNamed s × IsPlain s × IsMacVrf s)
  validate_all_or_nothing-IsMacVrf kind =
      verdict
        (λ h. rw (construct-mac_vrf env s kind) (rw (not_srv6 s plain) (mac_vrf_causes_iff s h)))

  -- On vxlan an ip-vrf is accepted exactly when it has its names, claims nothing unsupported, uses
  -- no srv6 field, has an L3VNI from 10000 to 14094, an rdRt block and a prefix, neither
  -- an L2VNI nor a gateway, and a VRF on every endpoint.
  pub validate_all_or_nothing-IsIpVrf :
      s.type ≡ "ip-vrf"
      → (validate_all_or_nothing env false s ≡ none) ↔ (IsNamed s × IsPlain s × IsIpVrf s)
  validate_all_or_nothing-IsIpVrf kind =
      verdict
        (λ h. rw (construct-ip_vrf env s kind) (rw (not_srv6 s plain) (ip_vrf_causes_iff s h)))
