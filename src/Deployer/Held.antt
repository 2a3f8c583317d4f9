-- ===== src/Deployer/Held.antt =====
-- agents/provisioning/deployer/submit.py: whose the bindings are that the check of the access lists'
-- ports has registered.
use agentic_netops.Deployer.Bindings.{holder-append}
use agentic_netops.Deployer.Preflight.{
  Binding, asked_by, bind_lists, bind_ports, bindings_of, holder, is_network, is_stage,
  own_bindings, ports, stage_of, when_free,
}
use agentic_netops.Json.{Fields, Python, dicts_of, fields_or_empty, get, text_or}
use agentic_netops.Prelude.{
  All, Bool, List, Option, String, [], ap, arith, eq_iff, false, if◌then◌else◌, inl, inr, none,
  refl, some, str_eq, subst, sym, true, ◌&&◌, ◌++◌, ◌∙◌, ◌∷◌, ◌≡◌, ◌⊎◌,
}

module _ ⦃py : Python⦄ where
  -- All bindings are of one service.
  abbrev pub OfService : String → List Binding → Type 0
  OfService svc bs = All (λ b. b.service ≡ svc) bs

  append-OfService :
      (svc : String) (xs ys : List Binding)
      → OfService svc xs
      → OfService svc ys
      → OfService svc (xs ++ ys)
  append-OfService svc [] ys h k = k
  append-OfService svc (x ∷ xs) ys h k = (h.0, append-OfService svc xs ys h.1 k)

  bind_ports-OfService :
      (svc stage acl : String) (ps : List String) → OfService svc (bind_ports svc stage acl ps)
  unfolding bind_ports
  bind_ports-OfService svc stage acl [] = tt
  bind_ports-OfService svc stage acl (p ∷ ps) = (refl, bind_ports-OfService svc stage acl ps)

  bind_lists-OfService :
      (svc : String) (ps : List String) (acls : List Fields)
      → OfService svc (bind_lists svc ps acls)
  unfolding bind_lists
  bind_lists-OfService svc ps [] = tt
  bind_lists-OfService svc ps (a ∷ acls) =
      choose (is_stage (stage_of a)) (bind_ports svc (stage_of a) (text_or "" (get "name" a)) ps)
        (bind_lists svc ps acls) (bind_lists-OfService svc ps acls)
        (bind_ports-OfService svc (stage_of a) (text_or "" (get "name" a)) ps)
    where
      choose :
          (b : Bool) (xs ys : List Binding)
          → OfService svc ys
          → OfService svc xs
          → OfService svc (if b then xs ++ ys else ys)
      choose true xs ys k h = append-OfService svc xs ys h k
      choose false xs ys k h = k

  unfoldable pub service_of : Fields → String
  service_of m = text_or "" (get "name" (fields_or_empty (get "metadata" m)))

  pub asked_by-OfService : (m : Fields) → OfService (service_of m) (asked_by m)
  unfolding bindings_of service_of
  asked_by-OfService m = choose (is_network m)
    where
      choose : (b : Bool) → OfService (service_of m) (if b then bindings_of m else [])
      choose true =
          bind_lists-OfService (service_of m)
            (ports (dicts_of (get "attachments" (fields_or_empty (get "spec" m)))))
            (dicts_of (get "accessLists" (fields_or_empty (get "spec" m))))
      choose false = tt

  -- A holder was found, and it is the service.
  abbrev pub ServedBy : String → Option Binding → Type 0
  ServedBy svc none = ⊥
  ServedBy svc (some h) = h.service ≡ svc

  module _ (svc p s : String) where
    pick :
        (b : Bool) (x : Binding) (o q : Option Binding)
        → (ServedBy svc o → ServedBy svc q)
        → ServedBy svc (if b then some x else o)
        → ServedBy svc (if b then some x else q)
    pick true x o q k h = h
    pick false x o q k h = k h

    pub served-append :
        (xs ys : List Binding) → ServedBy svc (holder xs p s) → ServedBy svc (holder (xs ++ ys) p s)
    unfolding holder
    served-append [] ys h = absurd h
    served-append (x ∷ xs) ys h =
        pick (str_eq x.port p && str_eq x.stage s) x (holder xs p s) (holder (xs ++ ys) p s)
          (served-append xs ys) h

    choose_served :
        (b : Bool) (x : Binding) (o : Option Binding)
        → x.service ≡ svc
        → (o ≡ none) ⊎ ServedBy svc o
        → ((if b then some x else o) ≡ none) ⊎ ServedBy svc (if b then some x else o)
    choose_served true x o e h = inr e
    choose_served false x o e h = h

    none_or_served :
        (xs : List Binding)
        → OfService svc xs
        → (holder xs p s ≡ none) ⊎ ServedBy svc (holder xs p s)
    unfolding holder
    none_or_served [] h = inl refl
    none_or_served (x ∷ xs) h =
        choose_served (str_eq x.port p && str_eq x.stage s) x (holder xs p s) h.0
          (none_or_served xs h.1)

    -- A binding of the port and the stage.
    abbrev pub Asks : List Binding → Type 0
    Asks [] = ⊥
    Asks (b ∷ bs) = ((b.port ≡ p) × (b.stage ≡ s)) ⊎ Asks bs

    module _ (held : List Binding) where
      when_free-OfService :
          (found : Option Binding) (b : Binding) (rest : List Binding)
          → b.service ≡ svc
          → OfService svc rest
          → OfService svc (when_free found b rest)
      unfolding when_free
      when_free-OfService none b rest e h = append-OfService svc rest (b ∷ []) h (e, tt)
      when_free-OfService (some g) b rest e h = h

      own-OfService : (bs : List Binding) → OfService svc bs → OfService svc (own_bindings held bs)
      unfolding own_bindings
      own-OfService [] h = tt
      own-OfService (b ∷ bs) h =
          when_free-OfService (holder held b.port b.stage) b (own_bindings held bs) h.0
            (own-OfService bs h.1)

      when_free-served :
          (found : Option Binding) (b : Binding) (rest : List Binding)
          → ServedBy svc (holder rest p s)
          → ServedBy svc (holder (when_free found b rest) p s)
      unfolding when_free
      when_free-served none b rest h = served-append rest (b ∷ []) h
      when_free-served (some g) b rest h = h

      last_served :
          (b : Binding)
          → b.service ≡ svc
          → b.port ≡ p
          → b.stage ≡ s
          → ServedBy svc (holder (b ∷ []) p s)
      unfolding holder
      last_served b e same_port same_stage =
          subst (λ t. ServedBy svc (if t then some b else none)) (sym (test b same_port same_stage))
            e
        where
          test :
              (b : Binding) → b.port ≡ p → b.stage ≡ s → str_eq b.port p && str_eq b.stage s ≡ true
          test b h k = ground (arith, eq_iff b.port p, eq_iff b.stage s)

      own-first :
          (b : Binding) (rest : List Binding)
          → b.service ≡ svc
          → b.port ≡ p
          → b.stage ≡ s
          → OfService svc rest
          → ServedBy svc (holder (rest ++ b ∷ []) p s)
      own-first b rest e same_port same_stage h = elim (none_or_served rest h) [
        | inl missing ↦
            subst (ServedBy svc) (sym (holder-append rest (b ∷ []) p s missing))
              (last_served b e same_port same_stage)
        | inr there ↦ served-append rest (b ∷ []) there
      ]

      pub own-served :
          (bs : List Binding)
          → holder held p s ≡ none
          → OfService svc bs
          → Asks bs
          → ServedBy svc (holder (own_bindings held bs) p s)
      unfolding own_bindings when_free
      own-served [] free h k = absurd k
      own-served (b ∷ bs) free h (inr k) =
          when_free-served (holder held b.port b.stage) b (own_bindings held bs)
            (own-served bs free h.1 k)
      own-served (b ∷ bs) free h (inl (same_port, same_stage)) =
          subst (λ o. ServedBy svc (holder (when_free o b (own_bindings held bs)) p s))
            (sym (ap (λ q. holder held q b.stage) same_port ∙ ap (holder held p) same_stage ∙ free))
            (own-first b (own_bindings held bs) h.0 same_port same_stage (own-OfService bs h.1))
