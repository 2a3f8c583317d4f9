-- ===== src/Supervisor/Servable.antt =====
-- agents/supervisors/provisioning/graph/graph.py: what an SRv6 request satisfies that is not refused.
use agentic_netops.Capability.{SiteInventory, Srv6Capability}
use agentic_netops.Capability.Site.{knows, normalize_site_name}
use agentic_netops.Interpretation.{EndpointIntent, Interpretation}
use agentic_netops.Prelude.{
  All, Bool, Bool-cases, List, Option, String, [], arith, contains, eq_iff, false, has_text?, inl,
  inr, is_empty, map, none, not, refl, str_eq, some, suc, true, ℕ, ◌&&◌, ◌++◌, ◌∷◌, ◌≡◌, ◌≢◌, ◌⊎◌,
}
use agentic_netops.Prelude.Regex.{format}
use agentic_netops.Prelude.Text.{lower}
use agentic_netops.Supervisor.Guard.{
  endpoint_reasons, first_reason, guard_reasons, is_verifiable, named_spine, reason_if, site_reason,
  spine_reason, srv6_guard_refusal, variant_of, variant_reason, verifiable_reasons,
}

-- The name is one of the names, up to case and separators.
abbrev pub Matches : List String → String → Type 0
Matches [] wanted = ⊥
Matches (n ∷ ns) wanted = (normalize_site_name n ≡ normalize_site_name wanted) ⊎ Matches ns wanted

-- The name is one of the names of the site, if the site names any.
abbrev pub IsKnown : List String → String → Type 0
IsKnown names wanted = names ≢ [] → Matches names wanted

-- The same, of a spine that the request may name.
abbrev pub IsKnownSpine : List String → Option String → Type 0
IsKnownSpine spines none = Unit
IsKnownSpine spines (some wanted) = wanted ≢ "" → IsKnown spines wanted

-- A text is one of a list of texts in lower case.
abbrev pub InLower : List String → String → Type 0
InLower [] wanted = ⊥
InLower (v ∷ vs) wanted = (lower v ≡ wanted) ⊎ InLower vs wanted

pub record IsServableAt (inv : SiteInventory) (c : Srv6Capability) (ep : EndpointIntent)
    : Type 0 where
  pub node : IsKnown inv.nodes ep.site_or_node
  pub attachment : IsKnown inv.attachments ep.attachment
  pub verifiable :
      InLower c.verifiable_attachments (format (ep.site_or_node ∷ "/" ∷ ep.attachment ∷ []))

pub record IsServable (inv : SiteInventory) (c : Srv6Capability) (i : Interpretation) : Type 0 where
  pub variant : contains c.supported (variant_of i) ≡ true
  pub preferred : IsKnownSpine inv.spines i.preferred_spine
  pub alternate : IsKnownSpine inv.spines i.alternate_spine
  pub endpoints : All (IsServableAt inv c) i.endpoints

abbrev AllNone : List (Option String) → Type 0
AllNone = All (λ (r : Option String). r ≡ none)

first_reason-AllNone : (rs : List (Option String)) → first_reason rs ≡ none → AllNone rs
unfolding first_reason
first_reason-AllNone [] e = tt
first_reason-AllNone (none ∷ rs) e = (refl, first_reason-AllNone rs e)
first_reason-AllNone (some why ∷ rs) e = absurd (ground arith)

AllNone-append : (rs ss : List (Option String)) → AllNone (rs ++ ss) → AllNone rs × AllNone ss
AllNone-append [] ss h = (tt, h)
AllNone-append (r ∷ rs) ss h = let both = AllNone-append rs ss h.1 in ((h.0, both.0), both.1)

reason_if-none : (b : Bool) (why : String) → reason_if b why ≡ none → b ≡ false
unfolding reason_if
reason_if-none true why e = absurd (ground arith)
reason_if-none false why e = refl

knows-Matches :
    (names : List String) (wanted : String) → knows names wanted ≡ true → Matches names wanted
unfolding knows
knows-Matches [] wanted e = absurd (ground arith)
knows-Matches (n ∷ ns) wanted e =
    elim (Bool-cases (str_eq (normalize_site_name n) (normalize_site_name wanted))) [
      | inl same ↦ inl ((eq_iff _ _).0 same)
      | inr other ↦ inr (knows-Matches ns wanted (ground (arith, e, other)))
    ]

contains-InLower :
    (vs : List String) (wanted : String) → contains (map lower vs) wanted ≡ true → InLower vs wanted
contains-InLower [] wanted e = absurd (ground arith)
contains-InLower (v ∷ vs) wanted e = elim (Bool-cases (str_eq (lower v) wanted)) [
  | inl same ↦ inl ((eq_iff _ _).0 same)
  | inr other ↦ inr (contains-InLower vs wanted (ground (arith, e, other)))
]

is_verifiable-InLower :
    (vs : List String) (ep : EndpointIntent)
    → is_verifiable vs ep ≡ true
    → InLower vs (format (ep.site_or_node ∷ "/" ∷ ep.attachment ∷ []))
unfolding is_verifiable
is_verifiable-InLower vs ep e = contains-InLower vs _ e

IsKnown-of_test :
    (names : List String) (wanted : String)
    → (not (is_empty names) && not (knows names wanted)) ≡ false
    → IsKnown names wanted
IsKnown-of_test [] wanted e = λ given. absurd (given refl)
IsKnown-of_test (n ∷ ns) wanted e = λ _. knows-Matches (n ∷ ns) wanted (ground (arith, e))

IsKnownSpine-of_test :
    (spines : List String) (wanted : Option String)
    → (not (is_empty spines) && (has_text? wanted && not (knows spines (named_spine wanted))))
      ≡ false
    → IsKnownSpine spines wanted
unfolding named_spine
IsKnownSpine-of_test spines none e = tt
IsKnownSpine-of_test spines (some wanted) e =
    λ given. IsKnown-of_test spines wanted (ground (arith, e, eq_iff wanted ""))

spine_reason-IsKnownSpine :
    (f : String) (spines : List String) (wanted : Option String)
    → spine_reason f spines wanted ≡ none
    → IsKnownSpine spines wanted
unfolding spine_reason
spine_reason-IsKnownSpine f spines wanted e =
    IsKnownSpine-of_test spines wanted (reason_if-none _ _ e)

site_reason-IsKnown :
    (i f what : String) (names : List String) (wanted : String)
    → site_reason i f what names wanted ≡ none
    → IsKnown names wanted
unfolding site_reason
site_reason-IsKnown i f what names wanted e = IsKnown-of_test names wanted (reason_if-none _ _ e)

endpoints-IsServableAt :
    (decimal : ℕ → String) (inv : SiteInventory) (c : Srv6Capability) (n : ℕ)
    (eps : List EndpointIntent)
    → AllNone (endpoint_reasons decimal inv n eps)
    → AllNone (verifiable_reasons c.verifiable_attachments eps)
    → All (IsServableAt inv c) eps
unfolding endpoint_reasons verifiable_reasons
endpoints-IsServableAt decimal inv c n [] h k = tt
endpoints-IsServableAt decimal inv c n (ep ∷ eps) h k = (
  record {
    node = site_reason-IsKnown _ _ _ inv.nodes ep.site_or_node h.0;
    attachment = site_reason-IsKnown _ _ _ inv.attachments ep.attachment h.1.0;
    verifiable =
        is_verifiable-InLower c.verifiable_attachments ep (ground (arith, reason_if-none _ _ k.0));
  },
  endpoints-IsServableAt decimal inv c (suc n) eps h.1.1 k.1,
)

-- A complete SRv6 request that is not refused names a supported variant; each spine that it names is
-- one of the site's spines, if the site names any; the node and the attachment of each endpoint are
-- among the site's, if the site names any; and each endpoint is one of the verifiable attachments,
-- of which an empty list has none.
pub srv6_guard_refusal-IsServable :
    (decimal : ℕ → String) (inv : SiteInventory) (c : Srv6Capability) (i : Interpretation)
    → srv6_guard_refusal decimal inv c i ≡ none
    → IsServable inv c i
unfolding srv6_guard_refusal guard_reasons variant_reason
srv6_guard_refusal-IsServable decimal inv c i e =
    let h : AllNone (guard_reasons decimal inv c i) =
      first_reason-AllNone (guard_reasons decimal inv c i) e in
    let rest = AllNone-append (endpoint_reasons decimal inv 0 i.endpoints) _ h.1.1.1 in
    let verified =
      AllNone-append (verifiable_reasons c.verifiable_attachments i.endpoints) _ rest.1 in
    record {
      variant = ground (arith, reason_if-none _ _ h.0);
      preferred = spine_reason-IsKnownSpine _ inv.spines i.preferred_spine h.1.0;
      alternate = spine_reason-IsKnownSpine _ inv.spines i.alternate_spine h.1.1.0;
      endpoints = endpoints-IsServableAt decimal inv c 0 i.endpoints rest.0 verified.0;
    }
