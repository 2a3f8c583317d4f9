-- ===== src/Deployer/Status.antt =====
-- agents/provisioning/deployer/tools/deployer_tools.py: the status answer about a submitted service.
use Prim.Native.Char.{code}
use agentic_netops.Deployer.{IntentApi, Reply, answer, raised}
use agentic_netops.Json.{Fields, Python, dicts_of, fields_or_empty, get, str, text_or}
use agentic_netops.Prelude.{
  Bool, List, Option, String, [], all, any, contains, false, has_text, if◌then◌else◌, is_empty, map,
  none, not, or_else, some, str_eq, true, ℕ, ◌&&◌, ◌==◌, ◌||◌, ◌∷◌,
}
use agentic_netops.Prelude.Text.{lower}

-- The construct that a folded spelling names: `_DEF_TYPES`.
unfoldable pub construct_of : String → Option String
construct_of key =
    if str_eq key "vlan"
    then some "vlan"
    else if contains ("macvrf" ∷ "l2vni" ∷ "vpls" ∷ "vpws" ∷ "eline" ∷ "l2l3irb" ∷ "irb" ∷ []) key
    then some "mac-vrf"
    else if contains ("ipvrf" ∷ "l3vni" ∷ "l3vpn" ∷ []) key
    then some "ip-vrf"
    else if contains ("acl" ∷ "accesslist" ∷ []) key
    then some "acl"
    else none

is_separator : ℕ → Bool
is_separator n = (n == 45) || ((n == 95) || ((n == 32) || ((n == 46) || (n == 43))))

without_separators : String → String
unfolding is_separator
without_separators String.[] = ""
without_separators (String.◌∷◌ c s) =
    let rest = without_separators s in if is_separator (code c) then rest else String.◌∷◌ c rest

-- `_type_key`
unfoldable pub type_key : String → String
unfolding without_separators
type_key s = without_separators (lower s)

-- The state of a condition: true, false or not known.
unfoldable pub condition_state : String → Option Bool
condition_state s =
    if str_eq s "true" then some true else if str_eq s "false" then some false else none

-- One condition, as it is quoted.
pub record Quoted : Type 0 where
  pub status : Option Bool
  pub reason : String
  pub message : String
  pub at : String

-- One resource in the answer: `_condition_summary`, less the checks that did not run.
pub record Summary : Type 0 where
  pub kind : String
  pub name : String
  pub namespace : String
  pub service_type : String
  pub source_type : Option String
  pub ready : Option Quoted
  pub degraded : Option Quoted

pub data StatusPhase : Type 0 where
  deployed failed_phase converging not_found unknown : StatusPhase

state_of : Option Quoted → Option Bool
state_of none = none
state_of (some q) = q.status

abbrev says : Bool → Option Bool → Bool
says true (some b) = b
says false (some b) = not b
says _ none = false

-- `r.get("ready") is False or r.get("degraded") is True`
unfoldable pub has_failed : Summary → Bool
unfolding state_of
has_failed r = says false (state_of r.ready) || says true (state_of r.degraded)

-- `r.get("ready") is True`
unfoldable pub is_deployed : Summary → Bool
unfolding state_of
is_deployed r = says true (state_of r.ready)

-- `_phase_from`
unfoldable pub phase_from : List Summary → StatusPhase
phase_from resources =
    if is_empty resources
    then not_found
    else if any has_failed resources
    then failed_phase
    else if all is_deployed resources
    then deployed
    else converging

-- The answer: the phase, the resources, and whether an error is named.
pub record Answer : Type 0 where
  pub phase : StatusPhase
  pub resources : List Summary
  pub error : Option String

module _ ⦃py : Python⦄ where
  quote_condition : Fields → Quoted
  quote_condition c = record {
    status = condition_state (lower (text_or "" (get "status" c)));
    reason = text_or "" (get "reason" c);
    message = text_or "" (get "message" c);
    at = text_or "" (get "lastTransitionTime" c);
  }

  -- The last condition of a type, which is the one that `found` keeps.
  unfoldable pub last_condition : String → List Fields → Option Quoted
  unfolding quote_condition
  last_condition kind [] = none
  last_condition kind (c ∷ cs) =
      let rest = last_condition kind cs in
      elim rest [
        | some q ↦ some q
        | none ↦ if str_eq (text_or "" (get "type" c)) kind then some (quote_condition c) else none
      ]

  -- `_srv6_type_wording`
  unfoldable pub srv6_type_wording : Option String → Fields → String
  srv6_type_wording none m = ""
  srv6_type_wording (some construct) m =
      let annotations = fields_or_empty (get "annotations" (fields_or_empty (get "metadata" m))) in
      let signalling = lower (text_or "" (get "signalling" (fields_or_empty (get "spec" m)))) in
      let transport = lower (text_or "" (get "agentic-netops.io/transport" annotations)) in
      if not (str_eq (text_or "" (get "kind" m)) "SRv6Service" || str_eq transport "srv6")
      then construct
      else if str_eq construct "mac-vrf"
      then "mac-vrf over srv6"
      else if str_eq construct "ip-vrf" && str_eq signalling "evpn"
      then "ip-vrf over srv6 with evpn signalling"
      else "ip-vrf over srv6"

  -- An annotation that is a text; no other value is read as one.
  annotation : String → Fields → Option String
  annotation k fs = elim (get k fs) [ str s ↦ some s | _ ↦ none ]

  -- The stored spelling, if it is not the construct's own.
  alias_of : String → Option String → Option String
  alias_of stored none = none
  alias_of stored (some construct) =
      if str_eq (type_key stored) (type_key construct) then none else some stored

  provenance_of : Option String → String → Option String → Option String
  unfolding alias_of
  provenance_of none stored construct = alias_of stored construct
  provenance_of (some src) stored construct =
      if has_text src then some src else alias_of stored construct

  -- `_derive_construct_and_provenance`
  unfoldable pub derive_construct : Fields → Option String × Option String
  unfolding annotation provenance_of
  derive_construct annotations =
      let stored = or_else (annotation "agentic-netops.io/service-type" annotations) "" in
      let src = annotation "agentic-netops.io/source-service-type" annotations in
      if has_text stored
      then (
        construct_of (type_key stored),
        provenance_of src stored (construct_of (type_key stored)),
      )
      else (none, src)

  -- `_condition_summary`
  unfoldable pub condition_summary : Fields → Summary
  unfolding derive_construct
  condition_summary m =
      let meta = fields_or_empty (get "metadata" m) in
      let conditions = dicts_of (get "conditions" (fields_or_empty (get "status" m))) in
      let (construct, provenance) = derive_construct (fields_or_empty (get "annotations" meta)) in
      record {
        kind = text_or "" (get "kind" m);
        name = text_or "" (get "name" meta);
        namespace = text_or "" (get "namespace" meta);
        service_type = srv6_type_wording construct m;
        source_type = provenance;
        ready = last_condition "Ready" conditions;
        degraded = last_condition "Degraded" conditions;
      }

  unfoldable pub answer_from : Reply (List Fields) → Answer
  answer_from (raised message) = record { phase = unknown; resources = []; error = some message }
  answer_from (answer objects) = record {
    phase = phase_from (map condition_summary objects);
    resources = map condition_summary objects;
    error = none;
  }

  -- `get_service_status`, on the cluster that the default client reads
  unfoldable pub get_service_status : {C : Type 0} → IntentApi C → String → C → Answer × C
  unfolding answer_from
  get_service_status cluster correlation_id c =
      if not (has_text correlation_id)
      then (record { phase = unknown; resources = []; error = some "no correlation id" }, c)
      else (let (reply, c') = cluster.list_by_correlation correlation_id c in
          (answer_from reply, c'))
