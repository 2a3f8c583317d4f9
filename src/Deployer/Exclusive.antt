-- ===== src/Deployer/Exclusive.antt =====
-- agents/provisioning/deployer/submit.py: the check of the access lists' ports within one bundle.
use agentic_netops.Deployer.Bindings.{
  Agrees, AllAgree, SameService, check_bindings-AllAgree, conflict-All, holder-append,
  or_conflict-none, own-none,
}
use agentic_netops.Deployer.Held.{
  Asks, OfService, ServedBy, asked_by-OfService, own-served, served-append, service_of,
}
use agentic_netops.Deployer.Preflight.{
  Binding, asked_by, check_bindings, conflict, holder, own_bindings,
}
use agentic_netops.Json.{Fields, Python}
use agentic_netops.Prelude.{
  All, Bool-cases, List, Option, String, [], ap, arith, eq_iff, false, inl, inr, none, refl, some,
  str_eq, subst, sym, true, ◌&&◌, ◌++◌, ◌∙◌, ◌∷◌, ◌≡◌, ◌⊎◌,
}

module _ ⦃py : Python⦄ where
  module _ (svc p s : String) (held asked : List Binding) where
    agreed :
        (bs : List Binding) (h : Binding)
        → All (Agrees held) bs
        → OfService svc bs
        → Asks svc p s bs
        → holder held p s ≡ some h
        → h.service ≡ svc
    agreed [] h a o k e = absurd k
    agreed (b ∷ bs) h a o (inr k) e = agreed bs h a.1 o.1 k e
    agreed (b ∷ bs) h a o (inl (same_port, same_stage)) e =
        subst (λ q. SameService q b)
          (ap (λ q. holder held q b.stage) same_port ∙ ap (holder held p) same_stage ∙ e) a.0
        ∙ o.0

    -- After a manifest was registered, the ports and stages that it asked for are its service's.
    covered_by :
        (found : Option Binding)
        → holder held p s ≡ found
        → conflict held asked ≡ none
        → OfService svc asked
        → Asks svc p s asked
        → ServedBy svc (holder (own_bindings held asked ++ held) p s)
    covered_by none e free o k =
        served-append svc p s (own_bindings held asked) held (own-served svc p s held asked e o k)
    covered_by (some h) e free o k =
        subst (ServedBy svc)
          (sym (holder-append (own_bindings held asked) held p s (own-none held p s h e asked) ∙ e))
          (agreed asked h (conflict-All held asked free) o k e)

  -- Different ports or stages, or one service.
  abbrev pub Apart : Binding → Binding → Type 0
  Apart b c = (str_eq b.port c.port && str_eq b.stage c.stage ≡ false) ⊎ (c.service ≡ b.service)

  abbrev AllApart : List Binding → List Binding → Type 0
  AllApart bs cs = All (λ b. All (Apart b) cs) bs

  -- No two manifests of the bundle ask for one port and stage as different services.
  abbrev pub Exclusive : List Fields → Type 0
  Exclusive [] = Unit
  Exclusive (m ∷ ms) = All (λ n. AllApart (asked_by m) (asked_by n)) ms × Exclusive ms

  same_service :
      (svc : String) (o : Option Binding) (c : Binding)
      → ServedBy svc o
      → SameService o c
      → c.service ≡ svc
  same_service svc none c h k = absurd h
  same_service svc (some g) c h k = sym k ∙ h

  module _ (svc : String) (held asked : List Binding) where
    -- The map after the manifest was registered.
    abbrev later : List Binding
    later = own_bindings held asked ++ held

    Apart-one :
        (b c : Binding)
        → ServedBy svc (holder later b.port b.stage)
        → b.service ≡ svc
        → Agrees later c
        → Apart b c
    Apart-one b c h e k = elim (Bool-cases (str_eq b.port c.port && str_eq b.stage c.stage)) [
      | inr other ↦ inl other
      | inl here ↦
          let (same_port, same_stage) = same_places b c here in
          inr (
            same_service svc (holder later c.port c.stage) c
              (subst (ServedBy svc)
                (ap (λ q. holder later q b.stage) same_port ∙ ap (holder later c.port) same_stage)
                h)
              k
            ∙ sym e)
    ]
      where
        same_places :
            (b c : Binding)
            → str_eq b.port c.port && str_eq b.stage c.stage ≡ true
            → (b.port ≡ c.port) × (b.stage ≡ c.stage)
        same_places b c h = ground (arith, eq_iff b.port c.port, eq_iff b.stage c.stage)

    Apart-All :
        (b : Binding) (cs : List Binding)
        → ServedBy svc (holder later b.port b.stage)
        → b.service ≡ svc
        → All (Agrees later) cs
        → All (Apart b) cs
    Apart-All b [] h e k = tt
    Apart-All b (c ∷ cs) h e k = (Apart-one b c h e k.0, Apart-All b cs h e k.1)

    all_apart :
        (bs cs : List Binding)
        → ((p s : String) → Asks svc p s bs → ServedBy svc (holder later p s))
        → OfService svc bs
        → All (Agrees later) cs
        → AllApart bs cs
    all_apart [] cs h o k = tt
    all_apart (b ∷ bs) cs h o k = (
      Apart-All b cs (h b.port b.stage (inl (refl, refl))) o.0 k,
      all_apart bs cs (λ p s a. h p s (inr a)) o.1 k,
    )

    each_apart :
        (ms : List Fields)
        → conflict held asked ≡ none
        → OfService svc asked
        → AllAgree later ms
        → All (λ n. AllApart asked (asked_by n)) ms
    each_apart [] e o k = tt
    each_apart (n ∷ ns) e o k = (
      all_apart asked (asked_by n)
          (λ p s a. covered_by svc p s held asked (holder held p s) refl e o a) o k.0,
      each_apart ns e o k.1,
    )

  -- If the check passes, whatever the cluster held before, then no two manifests of the bundle ask for
  -- an access list at one port and stage, unless they are of one service.
  pub check_bindings-Exclusive :
      (held : List Binding) (ms : List Fields) → check_bindings held ms ≡ none → Exclusive ms
  unfolding check_bindings
  check_bindings-Exclusive held [] e = tt
  check_bindings-Exclusive held (m ∷ ms) e =
      let after = own_bindings held (asked_by m) ++ held in
      let (free, rest) =
        or_conflict-none (conflict held (asked_by m)) (check_bindings after ms) e in
      (
        each_apart (service_of m) held (asked_by m) ms free (asked_by-OfService m)
            (check_bindings-AllAgree after ms rest),
        check_bindings-Exclusive after ms rest,
      )
