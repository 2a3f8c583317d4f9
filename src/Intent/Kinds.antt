-- ===== src/Intent/Kinds.antt =====
-- agents/common/schemas/normalized_intent.py: which branch of the validation a construct takes.
use agentic_netops.Prelude.{String, ◌≡◌, str_eq, if◌then◌else◌}
use agentic_netops.Intent.{ServiceIntent, Surroundings}
use agentic_netops.Intent.Transport.{is_srv6}
use agentic_netops.Intent.Constructs.{vlan_causes, mac_vrf_causes, ip_vrf_causes}
use agentic_netops.Intent.AccessList.{acl_causes}
use agentic_netops.Intent.Validate.{construct_causes}

module _ {ℓ} {A : Type ℓ} (a b c d e : A) where
  abbrev pub by_kind : String → A
  by_kind t =
      if str_eq t "vlan"
      then a
      else if str_eq t "mac-vrf"
      then b
      else if str_eq t "ip-vrf"
      then c
      else if str_eq t "acl"
      then d
      else e

  by_kind-vlan : (t : String) → t ≡ "vlan" → by_kind t ≡ a
  by_kind-vlan t h = rw h

  by_kind-mac_vrf : (t : String) → t ≡ "mac-vrf" → by_kind t ≡ b
  by_kind-mac_vrf t h = rw h

  by_kind-ip_vrf : (t : String) → t ≡ "ip-vrf" → by_kind t ≡ c
  by_kind-ip_vrf t h = rw h

  by_kind-acl : (t : String) → t ≡ "acl" → by_kind t ≡ d
  by_kind-acl t h = rw h

module _ (env : Surroundings) (s : ServiceIntent) where
  pub construct-vlan : s.type ≡ "vlan" → construct_causes env s ≡ vlan_causes (is_srv6 s) s
  unfolding construct_causes
  construct-vlan = by_kind-vlan _ _ _ _ _ s.type

  pub construct-mac_vrf : s.type ≡ "mac-vrf" → construct_causes env s ≡ mac_vrf_causes (is_srv6 s) s
  unfolding construct_causes
  construct-mac_vrf = by_kind-mac_vrf _ _ _ _ _ s.type

  pub construct-ip_vrf : s.type ≡ "ip-vrf" → construct_causes env s ≡ ip_vrf_causes (is_srv6 s) s
  unfolding construct_causes
  construct-ip_vrf = by_kind-ip_vrf _ _ _ _ _ s.type

  pub construct-acl :
      s.type ≡ "acl" → construct_causes env s ≡ acl_causes env.ip_version (is_srv6 s) s
  unfolding construct_causes
  construct-acl = by_kind-acl _ _ _ _ _ s.type
