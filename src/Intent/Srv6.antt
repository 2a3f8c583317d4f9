-- ===== src/Intent/Srv6.antt =====
-- agents/common/schemas/normalized_intent.py: which intents are accepted on the srv6 transport.
use agentic_netops.Intent.{Endpoint, ServiceIntent, Surroundings}
use agentic_netops.Intent.Constructs.{
  gateway_causes, ip_vrf_causes, ip_vrf_checks, mac_vrf_causes, mac_vrf_checks, vrf_causes,
}
use agentic_netops.Intent.Endpoints.{bridge_domain_causes}
use agentic_netops.Intent.Kinds.{construct-ip_vrf, construct-mac_vrf}
use agentic_netops.Intent.Named.{IsNamed, accepted_iff}
use agentic_netops.Intent.Transport.{
  claims_te_policy, is_srv6, joins_two_nodes, spine_causes, spines_of, srv6_causes, srv6_checks,
  transport_causes,
}
use agentic_netops.Intent.Validate.{construct_causes, validate_all_or_nothing}
use agentic_netops.Intent.Vxlan.{no_te_policy}
use agentic_netops.Prelude.{
  AllFalse, List, Option, String, [], append-eq-nil, arith, contains, eq_iff, failing-eq-nil, false,
  has_text, has_text?, inl, inr, none, not, or_else, some, str_eq, true, truthy, ◌&&◌, ◌↔◌, ◌∷◌,
  ◌≡◌, ◌≢◌, ◌⊎◌,
}

-- V7: the preferred spine is one of the site's, if the site names its spines.
abbrev pub KnowsSpine : Option String → Option String → Type 0
KnowsSpine spine_env none = Unit
KnowsSpine spine_env (some spine) =
    has_text spine ≡ true
    → has_text? spine_env ≡ true
    → contains (spines_of (or_else spine_env "")) spine ≡ true

-- V6: two endpoints, on distinct named nodes.
abbrev pub JoinsTwoNodes : List Endpoint → Type 0
JoinsTwoNodes (a ∷ b ∷ []) = (a.node ≢ "") × (a.node ≢ b.node)
JoinsTwoNodes _ = ⊥

-- An intent over srv6: an ip-vrf or a mac-vrf between two nodes that brings no identifier of its
-- own, a mac-vrf without vpn signalling, and a spine of the site.
pub record IsSrv6 (spine_env : Option String) (s : ServiceIntent) : Type 0 where
  pub kind : (s.type ≡ "ip-vrf") ⊎ (s.type ≡ "mac-vrf")
  pub no_l2vni : truthy s.l2vni ≡ false
  pub no_l3vni : truthy s.l3vni ≡ false
  pub no_rd_rt : s.rd_rt ≡ none
  pub bridged : s.type ≡ "mac-vrf" → s.signalling ≢ some "vpn"
  pub topology : JoinsTwoNodes s.endpoints
  pub spine : KnowsSpine spine_env s.preferred_spine

module _ (s : ServiceIntent) (over : s.transport ≡ "srv6") where
  transport_known : (t : String) → t ≡ "srv6" → contains ("vxlan" ∷ "srv6" ∷ []) t ≡ true
  transport_known t e = rw e

  pub over_srv6 : is_srv6 s ≡ true
  unfolding is_srv6
  over_srv6 = self s.transport over
    where
      self : (t : String) → t ≡ "srv6" → str_eq t "srv6" ≡ true
      self t e = rw e

  srv6_transport_causes : (env : Option String) → transport_causes env s ≡ srv6_causes env s
  unfolding transport_causes
  srv6_transport_causes env = rw (transport_known s.transport over, over_srv6)

kind_iff :
    (t : String)
    → (not (contains ("ip-vrf" ∷ "mac-vrf" ∷ []) t) ≡ false) ↔ ((t ≡ "ip-vrf") ⊎ (t ≡ "mac-vrf"))
kind_iff t = ground (arith, eq_iff "ip-vrf" t, eq_iff "mac-vrf" t)

signalling_iff :
    (t : String) (o : Option String)
    → (str_eq t "mac-vrf" && str_eq (or_else o "") "vpn" ≡ false) ↔ (t ≡ "mac-vrf" → o ≢ some "vpn")
signalling_iff t none = (λ h e q. cc, λ h. ground arith)
signalling_iff t (some g) = ground (arith, eq_iff t "mac-vrf", eq_iff g "vpn")

topology_iff : (es : List Endpoint) → (not (joins_two_nodes es) ≡ false) ↔ JoinsTwoNodes es
unfolding joins_two_nodes
topology_iff [] = (λ h. cc, λ h. absurd h)
topology_iff (a ∷ []) = (λ h. cc, λ h. absurd h)
topology_iff (a ∷ b ∷ []) = ground (arith, eq_iff a.node "", eq_iff a.node b.node)
topology_iff (a ∷ b ∷ c ∷ es) = (λ h. cc, λ h. absurd h)

spine_iff :
    (env : Option String) (s : ServiceIntent)
    → claims_te_policy s.unsupported ≡ false
    → (spine_causes env s ≡ []) ↔ KnowsSpine env s.preferred_spine
unfolding spine_causes
spine_iff env s h = ground arith

srv6_checks_iff :
    (s : ServiceIntent)
    → AllFalse (srv6_checks s) ↔ (
        ((s.type ≡ "ip-vrf") ⊎ (s.type ≡ "mac-vrf"))
        × ((truthy s.l2vni ≡ false) × (truthy s.l3vni ≡ false) × (s.rd_rt ≡ none))
        × (s.type ≡ "mac-vrf" → s.signalling ≢ some "vpn")
        × JoinsTwoNodes s.endpoints)
unfolding srv6_checks
srv6_checks_iff s =
    ground (arith, kind_iff s.type, signalling_iff s.type s.signalling, topology_iff s.endpoints)

-- Over srv6 the construct's own part names no cause.
construct_free :
    (env : Surroundings) (s : ServiceIntent)
    → is_srv6 s ≡ true
    → (s.type ≡ "ip-vrf") ⊎ (s.type ≡ "mac-vrf")
    → construct_causes env s ≡ []
unfolding mac_vrf_causes ip_vrf_causes mac_vrf_checks ip_vrf_checks vrf_causes gateway_causes
    bridge_domain_causes
construct_free env s over (inl k) = rw (construct-ip_vrf env s k) (rw over)
construct_free env s over (inr k) = rw (construct-mac_vrf env s k) (rw over (ground arith))

module _ (env : Surroundings) (s : ServiceIntent) where
  srv6_causes_iff : IsNamed s → (srv6_causes env.spine_nodes s ≡ []) ↔ IsSrv6 env.spine_nodes s
  unfolding srv6_causes
  srv6_causes_iff n = (
    λ h.
        let (checks, spine) = (append-eq-nil _ _).0 h in
        let (kind, free, bridged, topology) =
          (srv6_checks_iff s).0 ((failing-eq-nil (srv6_checks s)).0 checks) in
        record {
          kind = kind;
          no_l2vni = free.0;
          no_l3vni = free.1;
          no_rd_rt = free.2;
          bridged = bridged;
          topology = topology;
          spine = (spine_iff env.spine_nodes s (no_te_policy s.unsupported n.no_claims)).0 spine;
        },
    λ h. (append-eq-nil _ _).1 (
      (failing-eq-nil (srv6_checks s)).1 (
          (srv6_checks_iff s).1
            (h.kind, (h.no_l2vni, h.no_l3vni, h.no_rd_rt), h.bridged, h.topology)),
      (spine_iff env.spine_nodes s (no_te_policy s.unsupported n.no_claims)).1 h.spine,
    ),
  )

  -- Over srv6 an intent is accepted exactly when it has its names, claims nothing unsupported, is
  -- an ip-vrf or a mac-vrf, brings no L2VNI, L3VNI or rdRt block, a mac-vrf does not ask
  -- for vpn signalling, its two endpoints are on distinct named nodes, and a preferred spine is
  -- letter for letter one of the site's if the site names its spines.
  pub validate_all_or_nothing-IsSrv6 :
      s.transport ≡ "srv6"
      → (validate_all_or_nothing env false s ≡ none) ↔ (IsNamed s × IsSrv6 env.spine_nodes s)
  validate_all_or_nothing-IsSrv6 over = (
    λ h.
        let (n, t, c) = (accepted_iff env s).0 h in
        (n, (srv6_causes_iff n).0 (rw (srv6_transport_causes s over env.spine_nodes) at t)),
    λ h. (accepted_iff env s).1 (
      h.0,
      rw (srv6_transport_causes s over env.spine_nodes) ((srv6_causes_iff h.0).1 h.1),
      construct_free env s (over_srv6 s over) h.1.kind,
    ),
  )
