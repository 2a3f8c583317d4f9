-- ===== src/Allocator/Shared.antt =====
-- agents/provisioning/allocator/agent.py: what `_l2_endpoints` returns is on one vlan.
use agentic_netops.Allocator.{Allocators, Gives, and_then, claimed, fails, gives}
use agentic_netops.Allocator.Endpoints.{
  add_number, declared_vlans, l2_endpoints, on_claimed, on_declared, on_vlan, vlan_field,
  with_named,
}
use agentic_netops.Intent.{Endpoint}
use agentic_netops.Kuid.{Result, err, ok}
use agentic_netops.Prelude.{
  All, List, Option, String, [], ap, arith, contains_number, inl, inr, map, none, refl, some, true,
  ℕ, ◌∷◌, ◌≡◌, ◌⊎◌,
}
use agentic_netops.Prelude.Text.{ℤ}

abbrev pub place_of : Endpoint → String × String
place_of e = (e.node, e.attachment)

-- A vlan that the endpoint declares is one of the numbers; 0 declares none.
abbrev Within : List ℕ → Endpoint → Type 0
Within vs e = (v : ℕ) → e.vlan ≡ some v → (v ≡ 0) ⊎ (contains_number vs v ≡ true)

add_number_has : (v : ℕ) (vs : List ℕ) → contains_number (add_number v vs) v ≡ true
unfolding add_number
add_number_has v [] = ground arith
add_number_has v (w ∷ ws) = ground (arith, add_number_has v ws)

add_number_keeps :
    (v w : ℕ) (vs : List ℕ)
    → contains_number vs w ≡ true
    → contains_number (add_number v vs) w ≡ true
unfolding add_number
add_number_keeps v w [] h = ground arith
add_number_keeps v w (x ∷ vs) h = ground (arith, add_number_keeps v w vs)

with_named_keeps :
    (o : Option ℕ) (w : ℕ) (vs : List ℕ)
    → contains_number vs w ≡ true
    → contains_number (with_named o vs) w ≡ true
unfolding with_named
with_named_keeps none w vs h = h
with_named_keeps (some v) w vs h = ground (arith, add_number_keeps v w vs h)

with_named_has :
    (o : Option ℕ) (v : ℕ) (vs : List ℕ)
    → o ≡ some v
    → (v ≡ 0) ⊎ (contains_number (with_named o vs) v ≡ true)
unfolding with_named
with_named_has none v vs h = absurd (ground arith)
with_named_has (some u) v vs h = ground (arith, add_number_has v vs)

Within-more :
    (o : Option ℕ) (vs : List ℕ) (es : List Endpoint)
    → All (Within vs) es
    → All (Within (with_named o vs)) es
Within-more o vs [] h = h
Within-more o vs (e ∷ es) h = (
  λ v q. elim (h.0 v q) [ inl z ↦ inl z | inr c ↦ inr (with_named_keeps o v vs c) ],
  Within-more o vs es h.1,
)

declared_vlans-Within : (es : List Endpoint) → All (Within (declared_vlans es)) es
unfolding declared_vlans
declared_vlans-Within [] = tt
declared_vlans-Within (e ∷ es) = (
  λ v. with_named_has e.vlan v (declared_vlans es),
  Within-more e.vlan (declared_vlans es) es (declared_vlans-Within es),
)

-- The endpoints are those of a list, on one vlan, which is the only one that the list declares.
pub record OneVlan (es eps : List Endpoint) : Type 0 where
  pub number : ℕ
  pub on_it : All (λ e. e.vlan ≡ some number) eps
  pub same_places : map place_of eps ≡ map place_of es
  pub respected : All (Within (number ∷ [])) es

on_vlan-All : (v : ℕ) (es : List Endpoint) → All (λ e. e.vlan ≡ some v) (map (on_vlan (some v)) es)
unfolding on_vlan
on_vlan-All v [] = tt
on_vlan-All v (e ∷ es) = (refl, on_vlan-All v es)

pub place_of-on_vlan :
    (o : Option ℕ) (es : List Endpoint) → map place_of (map (on_vlan o) es) ≡ map place_of es
unfolding on_vlan
place_of-on_vlan o [] = refl
place_of-on_vlan o (e ∷ es) = ap (λ l. place_of e ∷ l) (place_of-on_vlan o es)

Within-any : (v : ℕ) (es : List Endpoint) → All (Within []) es → All (Within (v ∷ [])) es
Within-any v [] h = h
Within-any v (e ∷ es) h =
    (λ u q. elim (h.0 u q) [ inl z ↦ inl z | inr c ↦ absurd (ground arith) ], Within-any v es h.1)

placed :
    (v : ℕ) (es : List Endpoint) → All (Within (v ∷ [])) es → OneVlan es (map (on_vlan (some v)) es)
placed v es h = record {
  number = v;
  on_it = on_vlan-All v es;
  same_places = place_of-on_vlan (some v) es;
  respected = h;
}

on_claimed-OneVlan :
    {C : Type 0} (es : List Endpoint) (o : Option ℕ) (c : C)
    → All (Within []) es
    → Gives (OneVlan es) (on_claimed es o, c)
unfolding on_claimed
on_claimed-OneVlan [] o c h = gives _ c (placed 0 [] (Within-any 0 [] h))
on_claimed-OneVlan (e ∷ es) none c h = fails _ c
on_claimed-OneVlan (e ∷ es) (some v) c h = gives _ c (placed v (e ∷ es) (Within-any v (e ∷ es) h))

module _ {C : Type 0} (kuid : Allocators C) where
  claimed-OneVlan :
      (es : List Endpoint) (r : Result ℤ × C)
      → All (Within []) es
      → Gives (OneVlan es) (and_then (claimed r) (λ n c'. (on_claimed es (vlan_field n), c')))
  unfolding claimed and_then
  claimed-OneVlan es (ok n, c) h = on_claimed-OneVlan es (vlan_field n) c h
  claimed-OneVlan es (err e, c) h = fails _ c

  on_declared-OneVlan :
      (es : List Endpoint) (cid service : String) (vs : List ℕ) (c : C)
      → All (Within vs) es
      → Gives (OneVlan es) (on_declared kuid es cid service vs c)
  unfolding on_declared
  on_declared-OneVlan es cid service [] c h = claimed-OneVlan es (kuid.allocate_vlan cid c) h
  on_declared-OneVlan es cid service (v ∷ []) c h = gives _ c (placed v es h)
  on_declared-OneVlan es cid service (v ∷ w ∷ vs) c h = fails _ c

  -- What `_l2_endpoints` returns is on one vlan, in the same places and order, and no endpoint had
  -- declared another vlan.
  pub l2_endpoints-OneVlan :
      (es : List Endpoint) (cid service : String) (c : C)
      → Gives (OneVlan es) (l2_endpoints kuid es cid service c)
  unfolding l2_endpoints
  l2_endpoints-OneVlan es cid service c =
      on_declared-OneVlan es cid service (declared_vlans es) c (declared_vlans-Within es)
