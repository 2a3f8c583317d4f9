-- ===== src/Allocator/Order.antt =====
-- agents/provisioning/allocator/agent.py: `_deterministic_endpoints` puts the endpoints in the order of
-- node and attachment, and neither adds nor loses one.
use mathlib.Core.List.{Perm}
use mathlib.Core.List.Perm
use agentic_netops.Allocator.Endpoints.{deterministic_endpoints, endpoint_leb, endpoint_of}
use agentic_netops.Allocator.Shared.{place_of}
use agentic_netops.Intent.{Endpoint}
use agentic_netops.Interpretation.{EndpointIntent}
use agentic_netops.Prelude.{
  Bool-cases, List, String, [], ap, arith, eq_iff, false, if-When, inl, inr, map, refl, str_eq,
  subst, sym, true, ◌∷◌, ◌≡◌, ◌≢◌, ◌⊎◌,
}
use agentic_netops.Prelude.Regex.{text_leb}
use agentic_netops.Prelude.Sort.{insert_sorted, sort}

text_leb-total : (s t : String) → text_leb s t ≡ false → text_leb t s ≡ true
unfolding text_leb
text_leb-total String.[] t h = absurd (ground arith)
text_leb-total (String.◌∷◌ c s) String.[] h = refl
text_leb-total (String.◌∷◌ c s) (String.◌∷◌ d t) h = ground (arith, text_leb-total s t)

-- A place comes no later than another: its node is earlier, or it is the same node and the attachment
-- is no later.
abbrev pub NoLater : String × String → String × String → Type 0
NoLater p q = ((p.0 ≢ q.0) × (text_leb p.0 q.0 ≡ true)) ⊎ ((p.0 ≡ q.0) × (text_leb p.1 q.1 ≡ true))

-- Each place comes no later than the next.
abbrev pub Ascending : List (String × String) → Type 0
Ascending [] = Unit
Ascending (p ∷ []) = Unit
Ascending (p ∷ q ∷ ps) = NoLater p q × Ascending (q ∷ ps)

endpoint_leb-NoLater :
    (a b : Endpoint) → endpoint_leb a b ≡ true → NoLater (place_of a) (place_of b)
unfolding endpoint_leb
endpoint_leb-NoLater a b h = elim (Bool-cases (str_eq a.node b.node)) [
  | inl same ↦ inr (ground (arith, same, eq_iff a.node b.node), ground (arith, same, h))
  | inr other ↦ inl (λ e. ground (arith, other, e, eq_iff a.node b.node), ground (arith, h))
]

text_leb_refl : (s : String) → text_leb s s ≡ true
unfolding text_leb
text_leb_refl String.[] = refl
text_leb_refl (String.◌∷◌ c s) = ground (arith, text_leb_refl s)

endpoint_leb-else : (a b : Endpoint) → endpoint_leb a b ≡ false → NoLater (place_of b) (place_of a)
unfolding endpoint_leb
endpoint_leb-else a b h = elim (Bool-cases (str_eq a.node b.node)) [
  | inl same ↦
      let e : a.node ≡ b.node = (eq_iff a.node b.node).0 same in
      let equal : text_leb a.node b.node ≡ true =
        subst (λ n. text_leb a.node n ≡ true) e (text_leb_refl a.node) in
      inr (sym e, text_leb-total a.attachment b.attachment (ground (arith, same, equal, h)))
  | inr other ↦ inl (
    λ e. ground (arith, other, e, eq_iff a.node b.node),
    text_leb-total a.node b.node (ground (arith, other, h)),
  )
]

module _ (e : Endpoint) where
  -- An element that comes no later than the head and the new one comes no later than the new head.
  Ascending-insert :
      (d : Endpoint) (es : List Endpoint)
      → NoLater (place_of d) (place_of e)
      → Ascending (map place_of (d ∷ es))
      → Ascending (map place_of (insert_sorted endpoint_leb e es))
      → Ascending (map place_of (d ∷ insert_sorted endpoint_leb e es))
  unfolding insert_sorted
  Ascending-insert d [] below h = λ k. (below, tt)
  Ascending-insert d (f ∷ fs) below h =
      if-When (λ l. Ascending (map place_of l) → Ascending (map place_of (d ∷ l)))
        (endpoint_leb e f) (λ _ k. (below, k)) (λ _ k. (h.0, k))

  insert_sorted-Ascending :
      (es : List Endpoint)
      → Ascending (map place_of es)
      → Ascending (map place_of (insert_sorted endpoint_leb e es))
  unfolding insert_sorted
  insert_sorted-Ascending [] h = tt
  insert_sorted-Ascending (d ∷ []) h =
      if-When (λ l. Ascending (map place_of l)) (endpoint_leb e d)
        (λ b. (endpoint_leb-NoLater e d b, tt)) (λ b. (endpoint_leb-else e d b, tt))
  insert_sorted-Ascending (d ∷ f ∷ fs) h =
      if-When (λ l. Ascending (map place_of l)) (endpoint_leb e d)
        (λ b. (endpoint_leb-NoLater e d b, h))
        (λ b.
          Ascending-insert d (f ∷ fs) (endpoint_leb-else e d b) h
            (insert_sorted-Ascending (f ∷ fs) h.1))

  insert_sorted-Perm :
      (es : List Endpoint)
      → Perm (map place_of (insert_sorted endpoint_leb e es)) (place_of e ∷ map place_of es)
  unfolding insert_sorted
  insert_sorted-Perm [] = Perm.rfl
  insert_sorted-Perm (d ∷ es) =
      if-When (λ l. Perm (map place_of l) (place_of e ∷ place_of d ∷ map place_of es))
        (endpoint_leb e d) (λ _. Perm.rfl)
        (λ _.
          Perm.trans (Perm.cons (place_of d) (insert_sorted-Perm es))
            (Perm.swap (place_of e) (place_of d) (map place_of es)))

pub deterministic_endpoints-Ascending :
    (es : List Endpoint) → Ascending (map place_of (deterministic_endpoints es))
unfolding deterministic_endpoints sort
deterministic_endpoints-Ascending [] = tt
deterministic_endpoints-Ascending (e ∷ es) =
    insert_sorted-Ascending e (sort endpoint_leb es) (deterministic_endpoints-Ascending es)

pub deterministic_endpoints-Perm :
    (es : List Endpoint) → Perm (map place_of (deterministic_endpoints es)) (map place_of es)
unfolding deterministic_endpoints sort
deterministic_endpoints-Perm [] = Perm.rfl
deterministic_endpoints-Perm (e ∷ es) =
    Perm.trans (insert_sorted-Perm e (sort endpoint_leb es))
      (Perm.cons (place_of e) (deterministic_endpoints-Perm es))

-- The place that a request names.
abbrev pub site_of : EndpointIntent → String × String
site_of e = (e.site_or_node, e.attachment)

pub place_of-endpoint_of :
    (es : List EndpointIntent) → map place_of (map endpoint_of es) ≡ map site_of es
unfolding endpoint_of
place_of-endpoint_of [] = refl
place_of-endpoint_of (e ∷ es) = ap (λ l. site_of e ∷ l) (place_of-endpoint_of es)
