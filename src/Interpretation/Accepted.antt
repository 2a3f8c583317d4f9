-- ===== src/Interpretation/Accepted.antt =====
-- agents/common/schemas/interpretation.py: what an accepted request guarantees.
use agentic_netops.Interpretation.{
  AclIntent, EndpointIntent, Interpretation, RuleIntent, ServiceType, acl, ip_vrf, mac_vrf, vlan,
}
use agentic_netops.Interpretation.Checks.{
  Fault, Texts, acl_faults, acl_required_and_bounded, allowed_protocols, both_terminal,
  endpoint_faults, endpoint_named, endpoint_vlan_band, endpoints_needed, faults, field_faults,
  first_faults, gateway_outside_mac_vrf, gateway_scoped_to_mac_vrf, is_acl, is_mac_vrf,
  is_refused_protocol, is_short_id, label_pattern, mutual_exclusion, place_faults, protocol_faults,
  service_id_length, tenant_label, value_faults, vlan_faults,
}
use agentic_netops.Intent.{Protocol, number, word}
use agentic_netops.Prelude.Text.{lower, strip}
use agentic_netops.Prelude.{
  All, Bool, List, contains, eq_iff, Option, String, [], append-eq-nil, arith, false, has_text,
  if-When, if◌then◌else◌, inl, inr, is_empty, is_some, leb, none, not, refl, some, subst, suc, true,
  when, when-append, ℕ, ◌&&◌, ◌||◌, ◌++◌, ◌∷◌, ◌≡◌, ◌≢◌, ◌≤◌, ◌⊎◌,
}

-- An endpoint that is named and whose vlan, if it has one, is in the band.
abbrev InVlanBand : Option ℕ → Type 0
InVlanBand none = Unit
InVlanBand (some v) = (1 ≤ v) × (v ≤ 4094)

pub record IsNamedEndpoint (e : EndpointIntent) : Type 0 where
  pub site : has_text e.site_or_node ≡ true
  pub port : has_text e.attachment ≡ true
  pub band : InVlanBand e.vlan_id

-- No protocol, any integer, or a text that, stripped and in lower case, is empty, one of the names, or
-- made of digits, and is no name of ICMPv6.
abbrev pub IsTaken : Texts → Option Protocol → Type 0
IsTaken t none = Unit
IsTaken t (some (number n)) = Unit
IsTaken t (some (word w)) =
    ((lower (strip w) ≡ "")
      ⊎ ((contains allowed_protocols (lower (strip w)) ≡ true)
          ⊎ (t.is_digits (lower (strip w)) ≡ true)))
    × ((lower (strip w) ≢ "icmpv6") × (lower (strip w) ≢ "ipv6-icmp"))

taken_parts :
    (p : String) (named digits : Bool)
    → (has_text p && (not named && not digits)) || contains ("icmpv6" ∷ "ipv6-icmp" ∷ []) p ≡ false
    → ((p ≡ "") ⊎ ((named ≡ true) ⊎ (digits ≡ true))) × ((p ≢ "icmpv6") × (p ≢ "ipv6-icmp"))
taken_parts p named digits e =
    ground (arith, e, eq_iff p "", eq_iff "icmpv6" p, eq_iff "ipv6-icmp" p)

is_refused_protocol-IsTaken :
    (t : Texts) (p : Option Protocol) → is_refused_protocol t p ≡ false → IsTaken t p
unfolding is_refused_protocol
is_refused_protocol-IsTaken t none e = tt
is_refused_protocol-IsTaken t (some (number n)) e = tt
is_refused_protocol-IsTaken t (some (word w)) e =
    taken_parts (lower (strip w)) (contains allowed_protocols (lower (strip w)))
      (t.is_digits (lower (strip w))) e

-- A list of which every rule's protocol is taken.
abbrev pub Supports : Texts → Option AclIntent → Type 0
Supports t none = ⊥
Supports t (some a) = All (λ (r : RuleIntent). IsTaken t r.protocol) a.rules

pub record IsSound (t : Texts) (i : Interpretation) : Type 0 where
  pub tenant : t.regex.whole label_pattern i.tenant ≡ true
  pub some_endpoint : i.endpoints ≢ []
  pub endpoints : All IsNamedEndpoint i.endpoints
  pub one_ending : (i.missing_fields ≡ []) ⊎ (i.unsupported_properties ≡ [])
  pub gateway : (i.anycast_gateway ≡ none) ⊎ (i.service_type ≡ mac_vrf)
  pub access_list : i.service_type ≡ acl → Supports t i.access_list

AllEmpty : List (List Fault) → Type 0
AllEmpty = All (λ (fs : List Fault). fs ≡ [])

first_faults-AllEmpty : (l : List (List Fault)) → first_faults l ≡ [] → AllEmpty l
unfolding first_faults AllEmpty
first_faults-AllEmpty [] e = tt
first_faults-AllEmpty ([] ∷ l) e = (refl, first_faults-AllEmpty l e)
first_faults-AllEmpty ((f ∷ fs) ∷ l) e = absurd (ground arith)

when-nil {ℓ} : {A : Type ℓ} (b : Bool) (c : A) → when b c ≡ [] → b ≡ false
when-nil true c e = absurd (ground arith)
when-nil false c e = refl

vlan_faults-InVlanBand : (n : ℕ) (v : Option ℕ) → vlan_faults n v ≡ [] → InVlanBand v
unfolding vlan_faults
vlan_faults-InVlanBand n none e = tt
vlan_faults-InVlanBand n (some v) e =
    let b = when-nil (not (leb 1 v && leb v 4094)) (endpoint_vlan_band n v) e in
    (ground (arith, b), ground (arith, b))

endpoint_faults-IsNamedEndpoint :
    (n : ℕ) (es : List EndpointIntent) → endpoint_faults n es ≡ [] → All IsNamedEndpoint es
unfolding endpoint_faults
endpoint_faults-IsNamedEndpoint n [] e = tt
endpoint_faults-IsNamedEndpoint n (ep ∷ es) e =
    let h =
      (when-append (not (has_text ep.site_or_node && has_text ep.attachment)) (endpoint_named n)
          (vlan_faults n ep.vlan_id ++ endpoint_faults (suc n) es)).0
        e in
    let k = (append-eq-nil (vlan_faults n ep.vlan_id) (endpoint_faults (suc n) es)).0 h.1 in
    (
      record {
        site = ground (arith, h.0);
        port = ground (arith, h.0);
        band = vlan_faults-InVlanBand n ep.vlan_id k.0;
      },
      endpoint_faults-IsNamedEndpoint (suc n) es k.1,
    )

protocol_faults-nil :
    (t : Texts) (n : ℕ) (rs : List RuleIntent)
    → protocol_faults t n rs ≡ []
    → All (λ (r : RuleIntent). IsTaken t r.protocol) rs
unfolding protocol_faults
protocol_faults-nil t n [] e = tt
protocol_faults-nil t n (r ∷ rs) e =
    if-When (λ (fs : List Fault). fs ≡ [] → All (λ (q : RuleIntent). IsTaken t q.protocol) (r ∷ rs))
      (is_refused_protocol t r.protocol) (λ b f. absurd (ground arith))
      (λ b f. (is_refused_protocol-IsTaken t r.protocol b, protocol_faults-nil t (suc n) rs f)) e

acl_faults-Supports : (t : Texts) (a : Option AclIntent) → acl_faults t a ≡ [] → Supports t a
unfolding acl_faults
acl_faults-Supports t none e = absurd (ground arith)
acl_faults-Supports t (some a) e = protocol_faults-nil t 0 a.rules e

acl_required-Supports :
    (t : Texts) (i : Interpretation)
    → acl_required_and_bounded t i ≡ []
    → i.service_type ≡ acl
    → Supports t i.access_list
unfolding acl_required_and_bounded is_acl
acl_required-Supports t i e s =
    acl_faults-Supports t i.access_list
      (subst (λ k. (if is_acl k then acl_faults t i.access_list else []) ≡ []) s e)

exclusive :
    (missing unsupported : List String)
    → (not (is_empty missing) && not (is_empty unsupported)) ≡ false
    → (missing ≡ []) ⊎ (unsupported ≡ [])
exclusive [] us e = inl refl
exclusive (m ∷ ms) [] e = inr refl
exclusive (m ∷ ms) (u ∷ us) e = absurd (ground arith)

scoped :
    {A : Type 0} (g : Option A) (k : ServiceType)
    → (is_some g && not (is_mac_vrf k)) ≡ false
    → (g ≡ none) ⊎ (k ≡ mac_vrf)
unfolding is_mac_vrf
scoped none k e = inl refl
scoped (some g) mac_vrf e = inr refl
scoped (some g) vlan e = absurd (ground arith)
scoped (some g) ip_vrf e = absurd (ground arith)
scoped (some g) acl e = absurd (ground arith)

some-of_test : {A : Type 0} (l : List A) → is_empty l ≡ false → l ≢ []
some-of_test [] e n = ground arith
some-of_test (x ∷ l) e n = ground arith

-- A request that the schema finds no fault with has a tenant in the form of a label, at least one
-- endpoint, and names and a vlan in the band for every endpoint; it names missing fields or unsupported
-- properties but never both; only a mac-vrf has an anycast gateway; and an acl has its list, of which
-- each rule's protocol is missing, an integer, or a text that is empty, one of the ten names, or made
-- of digits, whatever number they make.
pub faults-IsSound : (t : Texts) (i : Interpretation) → faults t i ≡ [] → IsSound t i
unfolding faults AllEmpty field_faults place_faults mutual_exclusion gateway_scoped_to_mac_vrf
faults-IsSound t i e =
    let h : AllEmpty (
        field_faults t i
        ∷ mutual_exclusion i
        ∷ gateway_scoped_to_mac_vrf i
        ∷ acl_required_and_bounded t i
        ∷ []) =
      first_faults-AllEmpty _ e in
    let a =
      (when-append (not (is_short_id t i)) service_id_length (
          when (not (t.regex.whole label_pattern i.tenant)) (tenant_label i.tenant)
          ++ place_faults t i)).0
        h.0 in
    let b =
      (when-append (not (t.regex.whole label_pattern i.tenant)) (tenant_label i.tenant)
          (place_faults t i)).0
        a.1 in
    let c =
      (when-append (is_empty i.endpoints) endpoints_needed
          (endpoint_faults 0 i.endpoints ++ value_faults t i)).0
        b.1 in
    let d = (append-eq-nil (endpoint_faults 0 i.endpoints) (value_faults t i)).0 c.1 in
    record {
      tenant = ground (arith, b.0);
      some_endpoint = some-of_test i.endpoints c.0;
      endpoints = endpoint_faults-IsNamedEndpoint 0 i.endpoints d.0;
      one_ending = exclusive i.missing_fields i.unsupported_properties (
          when-nil (not (is_empty i.missing_fields) && not (is_empty i.unsupported_properties))
            (both_terminal i.missing_fields i.unsupported_properties) h.1.0);
      gateway = scoped i.anycast_gateway i.service_type (
          when-nil (is_some i.anycast_gateway && not (is_mac_vrf i.service_type))
            (gateway_outside_mac_vrf i.service_type) h.1.1.0);
      access_list = acl_required-Supports t i h.1.1.1.0;
    }
