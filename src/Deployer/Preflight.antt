-- ===== src/Deployer/Preflight.antt =====
-- agents/provisioning/deployer/submit.py: `_preflight_acl_binding`.
use agentic_netops.Deployer.{
  IntentApi, Outcome, Reply, TransactionError, answer, failed, networks_unreadable, ok, plain_error,
  port_bound, pre_flight, raised,
}
use agentic_netops.Json.{Fields, Python, dicts_of, fields_or_empty, get, is_text, text_or}
use agentic_netops.Prelude.{
  Bool, List, Option, String, [], contains, has_text, if◌then◌else◌, none, reverse, some, str_eq,
  ◌&&◌, ◌++◌, ◌∷◌,
}
use agentic_netops.Prelude.Text.{lower}

-- A port and a stage, with the service that binds a list there and the list's name.
pub record Binding : Type 0 where
  pub port : String
  pub stage : String
  pub service : String
  pub acl : String

-- `port_stage_to_holder.get((p, stage))`: the latest binding stands first.
unfoldable pub holder : List Binding → String → String → Option Binding
holder [] port stage = none
holder (b ∷ bs) port stage =
    let rest = holder bs port stage in
    if str_eq b.port port && str_eq b.stage stage then some b else rest

module _ ⦃py : Python⦄ where
  -- The ports of a service: its attachments that name one.
  unfoldable pub ports : List Fields → List String
  ports [] = []
  ports (a ∷ as') =
      let port = text_or "" (get "attachment" a) in
      let rest = ports as' in if has_text port then port ∷ rest else rest

  -- The stage of an access list, in lower case, and its name.
  unfoldable pub stage_of : Fields → String
  stage_of a = lower (text_or "" (get "stage" a))

  abbrev pub is_stage : String → Bool
  is_stage stage = contains ("ingress" ∷ "egress" ∷ []) stage

  unfoldable pub bind_ports : String → String → String → List String → List Binding
  bind_ports service stage acl [] = []
  bind_ports service stage acl (p ∷ ps) =
      record { port = p; stage = stage; service = service; acl = acl }
      ∷ bind_ports service stage acl ps

  unfoldable pub bind_lists : String → List String → List Fields → List Binding
  unfolding bind_ports
  bind_lists service ps [] = []
  bind_lists service ps (a ∷ acls) =
      let rest = bind_lists service ps acls in
      if is_stage (stage_of a)
      then bind_ports service (stage_of a) (text_or "" (get "name" a)) ps ++ rest
      else rest

  -- The bindings that a Network object asks for, in the order of its lists and ports.
  unfoldable pub bindings_of : Fields → List Binding
  unfolding bind_lists
  bindings_of m =
      let spec = fields_or_empty (get "spec" m) in
      bind_lists (text_or "" (get "name" (fields_or_empty (get "metadata" m))))
        (ports (dicts_of (get "attachments" spec))) (dicts_of (get "accessLists" spec))

  -- The map of the existing Networks; a later entry replaces an earlier one.
  unfoldable pub existing_bindings : List Binding → List Fields → List Binding
  existing_bindings held [] = held
  existing_bindings held (m ∷ ms) = existing_bindings (reverse (bindings_of m) ++ held) ms

  unfoldable pub is_network : Fields → Bool
  is_network m =
      is_text "network.kubenet.dev/v1alpha1" (get "apiVersion" m)
      && is_text "Network" (get "kind" m)

  -- Whether a binding's holder is another service.
  unfoldable pub against : Option Binding → Binding → Option Binding → Option Binding
  against none b rest = rest
  against (some h) b rest = if str_eq h.service b.service then rest else some h

  -- Each binding that a manifest asks for, against the map: the first that another service holds.
  unfoldable pub conflict : List Binding → List Binding → Option Binding
  unfolding against
  conflict held [] = none
  conflict held (b ∷ bs) = against (holder held b.port b.stage) b (conflict held bs)

  unfoldable pub when_free : Option Binding → Binding → List Binding → List Binding
  when_free none b rest = rest ++ b ∷ []
  when_free (some h) b rest = rest

  -- Its bindings that nobody holds yet: `own_bindings`, the latest first.
  unfoldable pub own_bindings : List Binding → List Binding → List Binding
  unfolding when_free
  own_bindings held [] = []
  own_bindings held (b ∷ bs) = when_free (holder held b.port b.stage) b (own_bindings held bs)

  port_error : Binding → TransactionError
  port_error h = plain_error pre_flight (port_bound h.port h.stage h.service h.acl) none

  abbrev pub asked_by : Fields → List Binding
  asked_by m = if is_network m then bindings_of m else []

  unfoldable pub or_conflict : Option Binding → Option TransactionError → Option TransactionError
  unfolding port_error
  or_conflict none rest = rest
  or_conflict (some h) rest = some (port_error h)

  -- `for m in manifests`, with the map so far.
  unfoldable pub check_bindings : List Binding → List Fields → Option TransactionError
  unfolding or_conflict
  check_bindings held [] = none
  check_bindings held (m ∷ ms) =
      or_conflict (conflict held (asked_by m))
        (check_bindings (own_bindings held (asked_by m) ++ held) ms)

  unfoldable pub verdict_of : Option TransactionError → Outcome (Unit {0})
  verdict_of none = ok tt
  verdict_of (some e) = failed e

  -- The verdict, from the reply to the listing of all Networks.
  unfoldable pub after_networks : List Fields → Reply (List Fields) → Outcome (Unit {0})
  unfolding verdict_of
  after_networks manifests (raised message) =
      failed (plain_error pre_flight (networks_unreadable message) none)
  after_networks manifests (answer existing) =
      verdict_of (check_bindings (existing_bindings [] existing) manifests)

  -- `_preflight_acl_binding`
  unfoldable pub preflight_acl_binding :
      {C : Type 0} → IntentApi C → List Fields → C → Outcome (Unit {0}) × C
  unfolding after_networks
  preflight_acl_binding cluster manifests c =
      let (reply, c') = cluster.list_networks c in (after_networks manifests reply, c')
