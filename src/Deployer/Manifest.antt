-- ===== src/Deployer/Manifest.antt =====
-- agents/provisioning/deployer/submit.py: the request's context, and `validate_and_stamp_manifests`.
use Prim.Native.Char.{code}
use Prim.Native.String.{count}
use agentic_netops.Deployer.{
  Context, Outcome, Reason, bad_correlation_id, bad_name, correlation_label, crashed,
  duplicate_resource, failed, intent_namespace, labels_not_objects, manifest_validation,
  metadata_not_object, not_an_object, ok, outside_allow_list, plain_error, principal_required,
  spec_not_object, thread_required,
}
use agentic_netops.Json.{
  Fields, Json, arr, end, fields_or_empty, get, has_key, obj, put, remove, str,
}
use agentic_netops.Prelude.{
  Bool, List, Option, String, [], false, has_text, if◌then◌else◌, leb, none, not, some, str_eq,
  true, ℕ, ◌&&◌, ◌==◌, ◌||◌, ◌∷◌,
}
use agentic_netops.Prelude.Text.{strip}

is_hex : ℕ → Bool
is_hex n = (leb 97 n && leb n 102) || (leb 48 n && leb n 57)

all_chars : (ℕ → Bool) → String → Bool
all_chars p String.[] = true
all_chars p (String.◌∷◌ c s) = p (code c) && all_chars p s

-- `_CORRELATION_ID.fullmatch`: 32 lowercase hexadecimal characters
unfoldable pub is_correlation_id : String → Bool
unfolding is_hex all_chars
is_correlation_id s = (count s == 32) && all_chars is_hex s

-- `DeploymentContext.validate`
unfoldable pub validate_context : Context → Option Reason
validate_context ctx =
    if not (is_correlation_id ctx.correlation_id)
    then some bad_correlation_id
    else if not (has_text (strip ctx.thread_id))
    then some thread_required
    else if not (has_text (strip ctx.principal))
    then some principal_required
    else none

is_alnum : ℕ → Bool
is_alnum n = (leb 97 n && leb n 122) || (leb 48 n && leb n 57)

-- `[-a-z0-9.]*[a-z0-9]` to the end of the text, or nothing
ends_well : String → Bool
ends_well String.[] = true
ends_well (String.◌∷◌ c s) =
    if has_text s
    then (is_alnum (code c) || ((code c == 45) || (code c == 46))) && ends_well s
    else is_alnum (code c)

-- `_DNS_SUBDOMAIN.fullmatch`
unfoldable pub is_dns_subdomain : String → Bool
unfolding is_alnum ends_well
is_dns_subdomain String.[] = false
is_dns_subdomain (String.◌∷◌ c s) = is_alnum (code c) && ends_well s

-- `(api_version, kind) in RESOURCE_PATHS`
unfoldable pub is_allowed : Json → Json → Bool
is_allowed (str v) (str k) =
    (str_eq v "network.kubenet.dev/v1alpha1" && str_eq k "Network")
    || (str_eq v "agentic-netops.io/v1alpha1" && str_eq k "SRv6Service")
is_allowed _ _ = false

-- `_resource_identity`: the kind and the name.
unfoldable pub resource_identity : Fields → Json × Json
resource_identity m = (get "kind" m, get "name" (fields_or_empty (get "metadata" m)))

-- `metadata.setdefault(k, {})`, with the dictionary that is then there, if it is one
unfoldable pub with_default : String → Fields → Fields
with_default k meta = if has_key k meta then meta else put k (obj end) meta

unfoldable pub stamp_labels : Context → Fields → Fields
stamp_labels ctx labels =
    put "agentic-netops.io/tier" (str "intent")
      (put correlation_label (str ctx.correlation_id) labels)

unfoldable pub stamp_annotations : Context → String → Fields → Fields
stamp_annotations ctx timestamp annotations =
    put "agentic-netops.io/intent-submitted-at" (str timestamp) (
      put "agentic-netops.io/intent-principal" (str ctx.principal)
        (put "agentic-netops.io/intent-thread-id" (str ctx.thread_id) annotations))

-- The namespace is the tier's own, and the fields that the server sets are dropped.
unfoldable pub own_metadata : Fields → Fields
unfolding with_default
own_metadata meta = with_default "annotations" (
    with_default "labels" (
      remove "managedFields" (
        remove "generation"
          (remove "resourceVersion" (remove "uid" (put "namespace" (str intent_namespace) meta))))))

-- The stamped metadata, if its labels and annotations are objects.
unfoldable pub stamped_with : Context → String → Fields → Json → Json → Option Fields
stamped_with ctx timestamp meta (obj labels) (obj annotations) = some (
    put "annotations" (obj (stamp_annotations ctx timestamp annotations))
      (put "labels" (obj (stamp_labels ctx labels)) meta))
stamped_with ctx timestamp meta _ _ = none

unfoldable pub stamp_metadata : Context → String → Fields → Option Fields
unfolding stamped_with
stamp_metadata ctx timestamp meta =
    let own = own_metadata meta in
    stamped_with ctx timestamp own (get "labels" own) (get "annotations" own)

-- An identity: api version, kind and name.
abbrev pub Identity : Type 0
Identity = String × String × String

abbrev pub same_identity : Identity → Identity → Bool
same_identity (v, k, n) (w, l, m) = str_eq v w && (str_eq k l && str_eq n m)

unfoldable pub seen_before : List Identity → Identity → Bool
seen_before [] i = false
seen_before (j ∷ js) i = same_identity j i || seen_before js i

abbrev refuse : {A : Type 0} → Reason → Fields → Outcome A
refuse reason m = failed (plain_error manifest_validation reason (some (resource_identity m)))

-- The manifest with its stamped metadata, if that could be made.
unfoldable pub with_metadata : Fields → Identity → Option Fields → Outcome (Fields × Identity)
with_metadata m identity none = refuse labels_not_objects m
with_metadata m identity (some meta) = ok (put "metadata" (obj meta) m, identity)

-- The last steps for one manifest, whose texts are known.
unfoldable pub stamp_checked :
    Context → String → List Identity → Fields → Fields → Identity → Outcome (Fields × Identity)
unfolding with_metadata
stamp_checked ctx timestamp seen m meta identity =
    if seen_before seen identity
    then refuse duplicate_resource m
    else with_metadata m identity (stamp_metadata ctx timestamp meta)

unfoldable pub is_object : Json → Bool
is_object (obj fs) = true
is_object _ = false

unfoldable pub name_of : Json → String
name_of (str n) = n
name_of _ = ""

unfoldable pub is_valid_name : Json → Bool
is_valid_name (str n) = leb (count n) 253 && is_dns_subdomain n
is_valid_name _ = false

unfoldable pub stamp_named :
    Context → String → List Identity → Fields → Fields → Outcome (Fields × Identity)
unfolding stamp_checked is_object name_of
stamp_named ctx timestamp seen m meta =
    if not (is_valid_name (get "name" meta))
    then refuse bad_name m
    else if not (is_object (get "spec" m))
    then refuse spec_not_object m
    else stamp_checked ctx timestamp seen m meta
        (name_of (get "apiVersion" m), name_of (get "kind" m), name_of (get "name" meta))

unfoldable pub stamp_described :
    Context → String → List Identity → Fields → Json → Outcome (Fields × Identity)
unfolding stamp_named
stamp_described ctx timestamp seen m (obj meta) = stamp_named ctx timestamp seen m meta
stamp_described ctx timestamp seen m _ = refuse metadata_not_object m

-- A key of a set: a list or a dictionary raises.
unfoldable pub is_hashable : Json → Bool
is_hashable (arr xs) = false
is_hashable (obj fs) = false
is_hashable _ = true

unfoldable pub stamp_hashed :
    Context → String → List Identity → Fields → Outcome (Fields × Identity)
unfolding stamp_described
stamp_hashed ctx timestamp seen m =
    if not (is_allowed (get "apiVersion" m) (get "kind" m))
    then refuse outside_allow_list m
    else stamp_described ctx timestamp seen m (get "metadata" m)

-- The body of `for raw in manifests`: one manifest, with the identities of those before it.
unfoldable pub stamp_one : Context → String → List Identity → Json → Outcome (Fields × Identity)
unfolding is_hashable stamp_hashed
stamp_one ctx timestamp seen (obj m) =
    if is_hashable (get "apiVersion" m) && is_hashable (get "kind" m)
    then stamp_hashed ctx timestamp seen m
    else crashed
stamp_one ctx timestamp seen _ = failed (plain_error manifest_validation not_an_object none)

-- What the later manifests give, behind a stamped one.
unfoldable pub behind : Fields → Outcome (List Fields) → Outcome (List Fields)
behind m (ok ms) = ok (m ∷ ms)
behind m (failed e) = failed e
behind m crashed = crashed

unfoldable pub after_stamp :
    (Identity → Outcome (List Fields)) → Outcome (Fields × Identity) → Outcome (List Fields)
unfolding behind
after_stamp later (ok (m, identity)) = behind m (later identity)
after_stamp later (failed e) = failed e
after_stamp later crashed = crashed

unfoldable pub stamp_all : Context → String → List Identity → List Json → Outcome (List Fields)
unfolding after_stamp
stamp_all ctx timestamp seen [] = ok []
stamp_all ctx timestamp seen (raw ∷ raws) =
    after_stamp (λ identity. stamp_all ctx timestamp (identity ∷ seen) raws)
      (stamp_one ctx timestamp seen raw)
