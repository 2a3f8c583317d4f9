-- ===== src/Deployer/Order.antt =====
-- agents/provisioning/deployer/submit.py: `deterministic_apply_order`, the whole of
-- `validate_and_stamp_manifests`, and references to the objects that the cluster returns.
use Prim.Native.Nat.{Ordering}
use Prim.Native.String.{compare}
use agentic_netops.Deployer.{
  Context, Outcome, Reason, ResourceRef, crashed, empty_bundle, failed, intent_namespace,
  manifest_validation, ok, plain_error, request_validation,
}
use agentic_netops.Deployer.Manifest.{stamp_all, validate_context}
use agentic_netops.Json.{Fields, Json, Python, fields_or_empty, get, is_true, text_or}
use agentic_netops.Prelude.{
  Bool, List, Option, String, [], false, has_text, if◌then◌else◌, is_empty, none, some, true, ◌&&◌,
  ◌∷◌,
}
use agentic_netops.Prelude.Sort.{sort}

-- Python's order of tuples of texts.
text_le : String → String → Bool → Bool
text_le a b tie = elim (compare a b) [
  | Ordering.lt ↦ true
  | Ordering.eq ↦ tie
  | Ordering.gt ↦ false
]

abbrev pub Key : Type 0
Key = String × String × String

unfoldable pub key_le : Key → Key → Bool
unfolding text_le
key_le (a, b, c) (x, y, z) = text_le a x (text_le b y (text_le c z true))

module _ ⦃py : Python⦄ where
  -- The namespace, the kind and the name.
  unfoldable pub apply_key : Fields → Key
  apply_key m =
      let meta = fields_or_empty (get "metadata" m) in
      (text_or "" (get "namespace" meta), text_or "" (get "kind" m), text_or "" (get "name" meta))

  unfoldable pub manifest_le : Fields → Fields → Bool
  manifest_le a b = key_le (apply_key a) (apply_key b)

  -- `deterministic_apply_order`
  unfoldable pub apply_order : List Fields → List Fields
  apply_order = sort manifest_le

  -- The end of the loop: an empty bundle is refused, any other is put in order.
  unfoldable pub in_order : Outcome (List Fields) → Outcome (List Fields)
  in_order (ok prepared) =
      if is_empty prepared
      then failed (plain_error manifest_validation empty_bundle none)
      else ok (apply_order prepared)
  in_order (failed e) = failed e
  in_order crashed = crashed

  -- The context's verdict goes first.
  unfoldable pub if_valid : Option Reason → Outcome (List Fields) → Outcome (List Fields)
  if_valid (some reason) rest = failed (plain_error request_validation reason none)
  if_valid none rest = rest

  -- `validate_and_stamp_manifests`
  unfoldable pub validate_and_stamp : Context → String → List Json → Outcome (List Fields)
  unfolding in_order if_valid
  validate_and_stamp ctx timestamp manifests =
      if_valid (validate_context ctx) (in_order (stamp_all ctx timestamp [] manifests))

  uid_of : Json → Option String
  uid_of uid = if is_true uid then some (text_or "" uid) else none

  -- `_ref_from_object`; `none` where the model of a reference refuses an empty text.
  unfoldable pub ref_from_object : Fields → Option ResourceRef
  unfolding uid_of
  ref_from_object m =
      let meta = fields_or_empty (get "metadata" m) in
      let version = text_or "" (get "apiVersion" m) in
      let kind = text_or "" (get "kind" m) in
      let name = text_or "" (get "name" meta) in
      if has_text version && (has_text kind && has_text name)
      then some (record {
        api_version = version;
        kind = kind;
        namespace = text_or intent_namespace (get "namespace" meta);
        name = name;
        uid = uid_of (get "uid" meta);
        ready = none;
      })
      else none

  -- References of a list of objects; one that cannot be made is an exception.
  unfoldable pub refs_from : List Fields → Option (List ResourceRef)
  refs_from [] = some []
  refs_from (m ∷ ms) =
      let rest = refs_from ms in
      elim (ref_from_object m) [
        | none ↦ none
        | some r ↦ elim rest [ none ↦ none | some rs ↦ some (r ∷ rs) ]
      ]

unfoldable pub ref_le : ResourceRef → ResourceRef → Bool
ref_le a b = key_le (a.namespace, a.kind, a.name) (b.namespace, b.kind, b.name)

-- `sorted(refs, key=lambda r: (r.namespace, r.kind, r.name))`
unfoldable pub ref_order : List ResourceRef → List ResourceRef
ref_order = sort ref_le
