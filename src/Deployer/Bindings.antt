-- ===== src/Deployer/Bindings.antt =====
-- agents/provisioning/deployer/submit.py: what the check of the access lists' ports promises.
use agentic_netops.Deployer.{IntentApi, Reply, TransactionError, answer, ok, raised}
use agentic_netops.Deployer.Preflight.{
  Binding, after_networks, against, asked_by, check_bindings, conflict, existing_bindings, holder,
  or_conflict, own_bindings, preflight_acl_binding, verdict_of, when_free,
}
use agentic_netops.Json.{Fields, Python}
use agentic_netops.Prelude.{
  All, Bool-cases, List, Option, String, [], ap, arith, eq_iff, inl, inr, none, refl, some, str_eq,
  subst, sym, true, ◌&&◌, ◌++◌, ◌∙◌, ◌∷◌, ◌≡◌,
}

module _ ⦃py : Python⦄ where
  -- Whoever holds the binding's port and stage is the same service.
  abbrev pub SameService : Option Binding → Binding → Type 0
  SameService none b = Unit
  SameService (some h) b = h.service ≡ b.service

  abbrev pub Agrees : List Binding → Binding → Type 0
  Agrees held b = SameService (holder held b.port b.stage) b

  against-none :
      (found : Option Binding) (b : Binding) (rest : Option Binding)
      → against found b rest ≡ none
      → (rest ≡ none) × SameService found b
  unfolding against
  against-none none b rest e = (e, tt)
  against-none (some g) b rest e = ground (arith, eq_iff g.service b.service)

  pub conflict-All : (held bs : List Binding) → conflict held bs ≡ none → All (Agrees held) bs
  unfolding conflict
  conflict-All held [] e = tt
  conflict-All held (b ∷ bs) e =
      let (rest, agrees) = against-none (holder held b.port b.stage) b (conflict held bs) e in
      (agrees, conflict-All held bs rest)

  pub holder-append :
      (xs ys : List Binding) (p s : String)
      → holder xs p s ≡ none
      → holder (xs ++ ys) p s ≡ holder ys p s
  unfolding holder
  holder-append [] ys p s e = refl
  holder-append (x ∷ xs) ys p s e = ground (arith, holder-append xs ys p s)

  -- A manifest adds only bindings that nobody holds.
  module _ (held : List Binding) (p s : String) (h : Binding) (e : holder held p s ≡ some h) where
    same_place :
        (b : Binding) → str_eq b.port p && str_eq b.stage s ≡ true → (b.port ≡ p) × (b.stage ≡ s)
    same_place b hit = ground (arith, eq_iff b.port p, eq_iff b.stage s)

    clash : none ≡ some h → ⊥
    clash k = ground arith

    not_here : (b : Binding) → holder held b.port b.stage ≡ none → holder (b ∷ []) p s ≡ none
    unfolding holder
    not_here b free = elim (Bool-cases (str_eq b.port p && str_eq b.stage s)) [
      | inl hit ↦
          let (same_port, same_stage) = same_place b hit in
          absurd (
            clash (
              sym free
              ∙ ap (λ q. holder held q b.stage) same_port
              ∙ ap (holder held p) same_stage
              ∙ e))
      | inr miss ↦ ground arith
    ]

    when_free-none :
        (found : Option Binding) (b : Binding) (rest : List Binding)
        → holder held b.port b.stage ≡ found
        → holder rest p s ≡ none
        → holder (when_free found b rest) p s ≡ none
    unfolding when_free
    when_free-none none b rest free k = holder-append rest (b ∷ []) p s k ∙ not_here b free
    when_free-none (some g) b rest free k = k

    pub own-none : (bs : List Binding) → holder (own_bindings held bs) p s ≡ none
    unfolding own_bindings holder
    own-none [] = refl
    own-none (b ∷ bs) =
        when_free-none (holder held b.port b.stage) b (own_bindings held bs) refl (own-none bs)

  Agrees-before :
      (held bs : List Binding) (b : Binding) (found : Option Binding)
      → holder held b.port b.stage ≡ found
      → Agrees (own_bindings held bs ++ held) b
      → SameService found b
  Agrees-before held bs b none e k = tt
  Agrees-before held bs b (some h) e k =
      subst (λ o. SameService o b)
        (holder-append (own_bindings held bs) held b.port b.stage
            (own-none held b.port b.stage h e bs)
          ∙ e)
        k

  All-before :
      (held bs as' : List Binding)
      → All (Agrees (own_bindings held bs ++ held)) as'
      → All (Agrees held) as'
  All-before held bs [] k = tt
  All-before held bs (a ∷ as') k =
      (Agrees-before held bs a (holder held a.port a.stage) refl k.0, All-before held bs as' k.1)

  -- Every binding that the manifests ask for.
  abbrev pub AllAgree : List Binding → List Fields → Type 0
  AllAgree held ms = All (λ m. All (Agrees held) (asked_by m)) ms

  AllAgree-before :
      (held bs : List Binding) (ms : List Fields)
      → AllAgree (own_bindings held bs ++ held) ms
      → AllAgree held ms
  AllAgree-before held bs [] k = tt
  AllAgree-before held bs (m ∷ ms) k =
      (All-before held bs (asked_by m) k.0, AllAgree-before held bs ms k.1)

  pub or_conflict-none :
      (found : Option Binding) (rest : Option TransactionError)
      → or_conflict found rest ≡ none
      → (found ≡ none) × (rest ≡ none)
  unfolding or_conflict
  or_conflict-none none rest e = (refl, e)
  or_conflict-none (some h) rest e = absurd (ground arith)

  pub check_bindings-AllAgree :
      (held : List Binding) (ms : List Fields) → check_bindings held ms ≡ none → AllAgree held ms
  unfolding check_bindings
  check_bindings-AllAgree held [] e = tt
  check_bindings-AllAgree held (m ∷ ms) e =
      let later = own_bindings held (asked_by m) ++ held in
      let (none_here, none_later) =
        or_conflict-none (conflict held (asked_by m)) (check_bindings later ms) e in
      (
        conflict-All held (asked_by m) none_here,
        AllAgree-before held (asked_by m) ms (check_bindings-AllAgree later ms none_later),
      )

  -- What a check that passed was made on.
  abbrev pub NoneTaken : List Fields → Reply (List Fields) → Type 0
  NoneTaken ms reply =
      (existing : List Fields) × (reply ≡ answer existing)
      × AllAgree (existing_bindings [] existing) ms

  verdict-none : (o : Option TransactionError) → verdict_of o ≡ ok tt → o ≡ none
  unfolding verdict_of
  verdict-none none e = refl
  verdict-none (some x) e = absurd (ground arith)

  after_networks-NoneTaken :
      (ms : List Fields) (reply : Reply (List Fields))
      → after_networks ms reply ≡ ok tt
      → NoneTaken ms reply
  unfolding after_networks
  after_networks-NoneTaken ms (raised message) e = absurd (ground arith)
  after_networks-NoneTaken ms (answer existing) e = (
    existing,
    refl,
    check_bindings-AllAgree (existing_bindings [] existing) ms
        (verdict-none (check_bindings (existing_bindings [] existing) ms) e),
  )

  -- The pre-flight passes only if the cluster's Networks could be read, and then no port and stage
  -- that a manifest of the bundle asks an access list for is bound by another service's Network.
  pub preflight_free :
      {C : Type 0} (cluster : IntentApi C) (manifests : List Fields) (c : C)
      → (preflight_acl_binding cluster manifests c).0 ≡ ok tt
      → NoneTaken manifests (cluster.list_networks c).0
  unfolding preflight_acl_binding
  preflight_free cluster manifests c e =
      after_networks-NoneTaken manifests (cluster.list_networks c).0 e
