-- ===== src/Deployer/Client.antt =====
-- agents/provisioning/deployer/submit.py: `KubernetesIntentClient`, which implements the cluster's
-- interface over HTTP. A URL is the plural of the resource with the object's name, if it has one.
use agentic_netops.Deployer.{IntentApi, Reply, answer, raised}
use agentic_netops.Json.{
  Fields, Json, Python, arr, dicts_of, fields_or_empty, get, has_key, obj, str, text_of,
}
use agentic_netops.Prelude.{
  Bool, List, Option, String, [], false, if◌then◌else◌, leb, none, some, str_eq, true, ℕ, ◌&&◌,
  ◌++◌, ◌==◌, ◌∷◌,
}

-- A response: its status code, its text, and what `response.json()` returns, or `none` if it raises.
pub record Response : Type 0 where
  pub code : ℕ
  pub text : String
  pub body : Option Json

-- The HTTP client; `none` where it raises. A patch says whether it is a dry run, and a listing
-- carries a correlation id as its label selector or none.
pub record Http (C : Type 0) : Type 0 where
  pub patch : Bool → String → String → Fields → C → Option Response × C
  pub get : String → String → C → Option Response × C
  pub list : String → Option String → C → Option Response × C
  pub delete : String → String → C → Option Response × C

-- `_plural`, over `RESOURCE_PATHS`
unfoldable pub plural_of : String → String → Option String
plural_of version kind =
    if str_eq version "network.kubenet.dev/v1alpha1" && str_eq kind "Network"
    then some "networks"
    else if str_eq version "agentic-netops.io/v1alpha1" && str_eq kind "SRv6Service"
    then some "srv6services"
    else none

abbrev pub is_2xx : ℕ → Bool
is_2xx code = leb 200 code && leb code 299

-- The text of an exception, less the wording around the reply's own.
abbrev outside_list : String
outside_list = "outside the deployer allow-list"

object_body : Option Json → Reply Fields
object_body (some (obj fs)) = answer fs
object_body (some _) = raised "Kubernetes API returned a non-object response"
object_body none = raised "the response is no JSON"

-- What `_server_side_apply` makes of the response.
unfoldable pub applied_object : Option Response → Reply Fields
unfolding object_body
applied_object none = raised "Kubernetes API request failed"
applied_object (some r) = if is_2xx r.code then object_body r.body else raised r.text

-- `get`: a missing object is `none`, and so is a reply that is no object.
unfoldable pub read_object : Option Response → Reply (Option Fields)
read_object none = raised "Kubernetes API request failed"
read_object (some r) =
    if r.code == 404
    then answer none
    else if is_2xx r.code
    then (elim r.body [
      | some (obj fs) ↦ answer (some fs)
      | some _ ↦ answer none
      | none ↦ raised "the response is no JSON"
    ])
    else raised r.text

-- The dictionaries among what a loop over the value goes through: a text and a dictionary give texts
-- only, and what cannot be iterated raises.
unfoldable pub iterated : Json → Reply (List Fields)
iterated (arr xs) = answer (dicts_of (arr xs))
iterated (str s) = answer []
iterated (obj fs) = answer []
iterated _ = raised "the value is not iterable"

-- The objects of a list's body: `body.get("items", [])`, if the body is a dictionary.
unfoldable pub items_of : Option Json → Reply (List Fields)
unfolding iterated
items_of (some (obj fs)) = if has_key "items" fs then iterated (get "items" fs) else answer []
items_of (some _) = answer []
items_of none = raised "the response is no JSON"

-- One collection: 404 means that there is none of the kind.
unfoldable pub listed_objects : Option Response → Reply (List Fields)
unfolding items_of
listed_objects none = raised "Kubernetes API request failed"
listed_objects (some r) =
    if r.code == 404 then answer [] else if is_2xx r.code then items_of r.body else raised r.text

unfoldable pub deleted : Option Response → Reply Bool
deleted none = raised "Kubernetes API request failed"
deleted (some r) = if r.code == 404 then answer true else answer (is_2xx r.code)

-- The plurals of the allow-listed kinds, in the order of `sorted(RESOURCE_PATHS)`.
abbrev pub plurals : List String
plurals = "srv6services" ∷ "networks" ∷ []

module _ {C : Type 0} (http : Http C) where
  unfoldable pub joined : List Fields → Reply (List Fields) × C → Reply (List Fields) × C
  joined found (answer rest, c) = (answer (found ++ rest), c)
  joined found (raised message, c) = (raised message, c)

  -- What follows the listing of one kind, given what the later kinds do.
  unfoldable pub after_kind :
      (C → Reply (List Fields) × C) → Reply (List Fields) → C → Reply (List Fields) × C
  unfolding joined
  after_kind later (answer found) c = joined found (later c)
  after_kind later (raised message) c = (raised message, c)

  -- `for api_version, kind in sorted(RESOURCE_PATHS)`
  unfoldable pub list_kinds : List String → String → C → Reply (List Fields) × C
  unfolding after_kind
  list_kinds [] cid c = (answer [], c)
  list_kinds (p ∷ ps) cid c =
      let (response, c') = http.list p (some cid) c in
      after_kind (list_kinds ps cid) (listed_objects response) c'

  apply_object : Bool → Option String → Fields → String → C → Reply Fields × C
  apply_object dry none m name c = (raised outside_list, c)
  apply_object dry (some plural) m name c =
      let (response, c') = http.patch dry plural name m c in (applied_object response, c')

  get_object : Option String → String → C → Reply (Option Fields) × C
  get_object none name c = (raised outside_list, c)
  get_object (some plural) name c =
      let (response, c') = http.get plural name c in (read_object response, c')

  delete_object : Option String → String → C → Reply Bool × C
  delete_object none name c = (raised outside_list, c)
  delete_object (some plural) name c =
      let (response, c') = http.delete plural name c in (deleted response, c')

  module _ ⦃py : Python⦄ where
    -- `_server_side_apply`
    unfoldable pub server_side_apply : Bool → Fields → C → Reply Fields × C
    unfolding apply_object
    server_side_apply dry m =
        apply_object dry (plural_of (text_of (get "apiVersion" m)) (text_of (get "kind" m))) m
          (text_of (get "name" (fields_or_empty (get "metadata" m))))

    -- `KubernetesIntentClient`
    unfoldable pub kubernetes_intent_client : IntentApi C
    unfolding get_object delete_object
    kubernetes_intent_client = record {
      dry_run_apply = server_side_apply true;
      apply = server_side_apply false;
      get = λ r. get_object (plural_of r.api_version r.kind) r.name;
      list_by_correlation = list_kinds plurals;
      list_networks =
          λ c. let (response, c') = http.list "networks" none c in (listed_objects response, c');
      delete = λ r. delete_object (plural_of r.api_version r.kind) r.name;
    }
