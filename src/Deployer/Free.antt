-- ===== src/Deployer/Free.antt =====
-- agents/provisioning/deployer/submit.py: what `_preflight_acl_binding` promises of all the Networks
-- that it has read. It compares with the last one that binds a port at a stage, so the promise is for
-- Networks of which no two services bind one port at one stage.
use mathlib.Core.List.{reverse-cons}
use agentic_netops.Deployer.{IntentApi, answer, ok}
use agentic_netops.Deployer.Bindings.{AllAgree, Agrees, SameService, preflight_free}
use agentic_netops.Deployer.Preflight.{
  Binding, asked_by, bindings_of, existing_bindings, holder, preflight_acl_binding,
}
use agentic_netops.Json.{Fields, Python}
use agentic_netops.Prelude.{
  All, Bool-cases, List, String, [], arith, eq_iff, inl, inr, refl, reverse, some, str_eq, subst,
  sym, ◌&&◌, ◌++◌, ◌∙◌, ◌∷◌, ◌≡◌, ◌⊎◌,
}

abbrev In : Binding → List Binding → Type 0
In g [] = ⊥
In g (x ∷ xs) = (x ≡ g) ⊎ In g xs

In-left : (g : Binding) (xs ys : List Binding) → In g xs → In g (xs ++ ys)
In-left g [] ys h = absurd h
In-left g (x ∷ xs) ys (inl e) = inl e
In-left g (x ∷ xs) ys (inr h) = inr (In-left g xs ys h)

In-right : (g : Binding) (xs ys : List Binding) → In g ys → In g (xs ++ ys)
In-right g [] ys h = h
In-right g (x ∷ xs) ys h = inr (In-right g xs ys h)

In-append : (g : Binding) (xs ys : List Binding) → In g (xs ++ ys) → In g xs ⊎ In g ys
In-append g [] ys h = inr h
In-append g (x ∷ xs) ys (inl e) = inl (inl e)
In-append g (x ∷ xs) ys (inr h) = elim (In-append g xs ys h) [ inl l ↦ inl (inr l) | inr r ↦ inr r ]

In-reverse : (g : Binding) (xs : List Binding) → In g xs → In g (reverse xs)
In-reverse g [] h = h
In-reverse g (x ∷ xs) h = subst (In g) (sym (reverse-cons x xs)) (elim h [
  | inl e ↦ In-right g (reverse xs) (x ∷ []) (inl e)
  | inr i ↦ In-left g (reverse xs) (x ∷ []) (In-reverse g xs i)
])

In-of_reverse : (g : Binding) (xs : List Binding) → In g (reverse xs) → In g xs
In-of_reverse g [] h = h
In-of_reverse g (x ∷ xs) h =
    elim (In-append g (reverse xs) (x ∷ []) (subst (In g) (reverse-cons x xs) h)) [
      | inl i ↦ inr (In-of_reverse g xs i)
      | inr (inl e) ↦ inl e
      | inr (inr i) ↦ absurd i
    ]

holder-In :
    (held : List Binding) (g : Binding) (p s : String)
    → In g held
    → g.port ≡ p
    → g.stage ≡ s
    → (h : Binding) × (holder held p s ≡ some h) × In h held × (h.port ≡ p) × (h.stage ≡ s)
unfolding holder
holder-In [] g p s i e f = absurd i
holder-In (x ∷ xs) g p s i e f = elim (Bool-cases (str_eq x.port p && str_eq x.stage s)) [
  | inl hit ↦ (
    x,
    ground (arith, hit),
    inl refl,
    ground (arith, hit, eq_iff x.port p),
    ground (arith, hit, eq_iff x.stage s),
  )
  | inr miss ↦ elim i [
    | inl same ↦ absurd (ground (arith, miss, same, e, f, eq_iff x.port p, eq_iff x.stage s))
    | inr later ↦
        let (h, found, there, q, r) = holder-In xs g p s later e f in
        (h, ground (arith, miss, found), inr there, q, r)
  ]
]

module _ ⦃py : Python⦄ where
  -- One of the Networks binds so.
  abbrev pub Binds : List Fields → Binding → Type 0
  Binds [] g = ⊥
  Binds (m ∷ ms) g = In g (bindings_of m) ⊎ Binds ms g

  -- No two services bind one port at one stage.
  abbrev pub OneHolder : List Fields → Type 0
  OneHolder existing =
      (g h : Binding)
      → Binds existing g
      → Binds existing h
      → g.port ≡ h.port
      → g.stage ≡ h.stage
      → g.service ≡ h.service

  -- No service but its own binds what a binding asks for.
  abbrev pub IsFree : List Fields → Binding → Type 0
  IsFree existing b =
      (g : Binding) → Binds existing g → g.port ≡ b.port → g.stage ≡ b.stage → g.service ≡ b.service

  existing_bindings-keeps :
      (held : List Binding) (ms : List Fields) (g : Binding)
      → In g held
      → In g (existing_bindings held ms)
  unfolding existing_bindings
  existing_bindings-keeps held [] g h = h
  existing_bindings-keeps held (m ∷ ms) g h =
      existing_bindings-keeps (reverse (bindings_of m) ++ held) ms g
        (In-right g (reverse (bindings_of m)) held h)

  existing_bindings-has :
      (held : List Binding) (ms : List Fields) (g : Binding)
      → Binds ms g
      → In g (existing_bindings held ms)
  unfolding existing_bindings
  existing_bindings-has held [] g h = absurd h
  existing_bindings-has held (m ∷ ms) g (inl i) =
      existing_bindings-keeps (reverse (bindings_of m) ++ held) ms g
        (In-left g (reverse (bindings_of m)) held (In-reverse g (bindings_of m) i))
  existing_bindings-has held (m ∷ ms) g (inr h) =
      existing_bindings-has (reverse (bindings_of m) ++ held) ms g h

  existing_bindings-only :
      (held : List Binding) (ms : List Fields) (g : Binding)
      → In g (existing_bindings held ms)
      → In g held ⊎ Binds ms g
  unfolding existing_bindings
  existing_bindings-only held [] g h = inl h
  existing_bindings-only held (m ∷ ms) g h =
      elim (existing_bindings-only (reverse (bindings_of m) ++ held) ms g h) [
        | inr b ↦ inr (inr b)
        | inl i ↦ elim (In-append g (reverse (bindings_of m)) held i) [
          | inl r ↦ inr (inl (In-of_reverse g (bindings_of m) r))
          | inr k ↦ inl k
        ]
      ]

  module _ (existing : List Fields) (one : OneHolder existing) where
    Agrees-IsFree : (b : Binding) → Agrees (existing_bindings [] existing) b → IsFree existing b
    Agrees-IsFree b agrees g binds same_port same_stage =
        let (h, found, there, port, stage) =
          holder-In (existing_bindings [] existing) g b.port b.stage
            (existing_bindings-has [] existing g binds) same_port same_stage in
        elim (existing_bindings-only [] existing h there) [
          | inl i ↦ absurd i
          | inr held ↦
              one g h binds held (same_port ∙ sym port) (same_stage ∙ sym stage)
              ∙ subst (λ o. SameService o b) found agrees
        ]

    All-IsFree :
        (bs : List Binding)
        → All (Agrees (existing_bindings [] existing)) bs
        → All (IsFree existing) bs
    All-IsFree [] h = tt
    All-IsFree (b ∷ bs) h = (Agrees-IsFree b h.0, All-IsFree bs h.1)

    AllAgree-IsFree :
        (ms : List Fields)
        → AllAgree (existing_bindings [] existing) ms
        → All (λ m. All (IsFree existing) (asked_by m)) ms
    AllAgree-IsFree [] h = tt
    AllAgree-IsFree (m ∷ ms) h = (All-IsFree (asked_by m) h.0, AllAgree-IsFree ms h.1)

  -- The pre-flight passes only if the cluster's Networks could be read. If no two services among them
  -- bind one port at one stage, then none of them binds a port and stage that a manifest of the
  -- bundle asks an access list for, except as the manifest's own service.
  pub preflight_acl_binding-IsFree :
      {C : Type 0} (cluster : IntentApi C) (manifests : List Fields) (c : C)
      → ((existing : List Fields)
          → (cluster.list_networks c).0 ≡ answer existing
          → OneHolder existing)
      → (preflight_acl_binding cluster manifests c).0 ≡ ok tt
      → (existing : List Fields) × ((cluster.list_networks c).0 ≡ answer existing)
        × All (λ m. All (IsFree existing) (asked_by m)) manifests
  preflight_acl_binding-IsFree cluster manifests c one e =
      let (existing, read, agree) = preflight_free cluster manifests c e in
      (existing, read, AllAgree-IsFree existing (one existing read) manifests agree)
