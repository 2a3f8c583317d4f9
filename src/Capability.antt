-- ===== src/Capability.antt =====
-- agents/supervisors/provisioning/capability.py: what the lab profile can do with SRv6, and the names
-- of the site.

pub mod Site
pub mod Closed
use agentic_netops.Json.{Fields, Json, get, is_text, obj, str}
use agentic_netops.Prelude.{
  Bool, List, Option, String, [], contains, false, has_text, if◌then◌else◌, leb, none, some, true,
  when, ℕ, ◌&&◌, ◌++◌, ◌∷◌,
}
use agentic_netops.Prelude.Text.{lower, split, strip}

pub record Srv6Capability : Type 0 where
  pub available : Bool
  pub supported : List String
  pub verifiable_attachments : List String
  pub lab_profile : Option String
  pub sonic_image : Option String

pub record SiteInventory : Type 0 where
  pub nodes : List String
  pub attachments : List String
  pub spines : List String

-- The answer to the one request: it raises, or it has a status and a body, if the body is JSON.
pub data Answer : Type 0 where
  raised : Answer
  answered : ℕ → Option Json → Answer

-- What the module reads from its process: the environment, the mounted token file (`none` if there
-- is no file or it cannot be read), the trust store of the cluster, the HTTP client, and
-- `json.loads`, which returns `none` where it raises. The host of a request comes first, then its
-- path, its token and the trust store, `none` without verification.
pub record Process : Type 0 where
  pub getenv : String → Option String
  pub token_file : Option String
  pub ca_bundle : String
  pub http_get : String → String → String → Option String → Answer
  pub loads : String → Option Json
  pub without_slashes : String → String

abbrev in_cluster_api : String
in_cluster_api = "https://kubernetes.default.svc:443"

-- `os.getenv(name) or default`
unfoldable pub env_or : Process → String → String → String
env_or p default name = elim (p.getenv name) [
  | none ↦ default
  | some s ↦ if has_text s then s else default
]

unfoldable pub env_default : String → Option String → String
env_default default none = default
env_default default (some s) = s

-- `os.getenv("AGENTIC_NETOPS_VERIFY_TLS", "1").lower() in ("1", "true", "yes")`
unfoldable pub trust : Process → Option String
unfolding env_default lower
trust p =
    if contains ("1" ∷ "true" ∷ "yes" ∷ [])
      (lower (env_default "1" (p.getenv "AGENTIC_NETOPS_VERIFY_TLS")))
    then some p.ca_bundle
    else none

file_identity : Process → Option String → Option (String × (String × Option String))
unfolding trust strip
file_identity p none = none
file_identity p (some token) =
    if has_text (strip token) then some (in_cluster_api, (strip token, trust p)) else none

-- `_identity`: endpoint, bearer token, and what to verify with
unfoldable pub identity : Process → Option (String × (String × Option String))
unfolding file_identity env_or trust
identity p = elim (p.getenv "AGENTIC_NETOPS_BEARER_TOKEN") [
  | none ↦ file_identity p p.token_file
  | some token ↦
      if has_text token
      then some (env_or p in_cluster_api "AGENTIC_NETOPS_API_ENDPOINT", (token, trust p))
      else file_identity p p.token_file
]

unfoldable pub entries : List String → List String
unfolding strip
entries [] = []
entries (s ∷ ss) = when (has_text (strip s)) (strip s) ++ entries ss

-- `_split_csv` on a text that is given
unfoldable pub split_csv : String → List String
unfolding entries split
split_csv raw = if has_text raw then entries (split 44 raw) else []

-- `_split_csv(data.get(key))`: the values of a ConfigMap are texts.
unfoldable pub split_value : Json → List String
unfolding split_csv
split_value (str raw) = split_csv raw
split_value _ = []

-- `data.get(key) or None`
unfoldable pub text_or_none : Json → Option String
text_or_none (str s) = if has_text s then some s else none
text_or_none _ = none

abbrev pub unavailable : Srv6Capability
unavailable = record {
  available = false;
  supported = [];
  verifiable_attachments = [];
  lab_profile = none;
  sonic_image = none;
}

-- The capability that the data of the ConfigMap states.
unfoldable pub stated : Fields → Srv6Capability
unfolding split_value text_or_none get is_text
stated data_ =
    if is_text "true" (get "cap-sai-srv6" data_)
    then record {
      available = true;
      supported = split_value (get "srv6-supported" data_);
      verifiable_attachments = split_value (get "srv6-probe-attachments" data_);
      lab_profile = text_or_none (get "lab-profile" data_);
      sonic_image = text_or_none (get "sonic-image" data_);
    }
    else unavailable

-- `body["data"]`, which must be an object
unfoldable pub read_data : Json → Srv6Capability
unfolding stated
read_data (obj data_) = stated data_
read_data _ = unavailable

unfoldable pub read_body : Option Json → Srv6Capability
unfolding read_data get
read_body (some (obj body)) = read_data (get "data" body)
read_body _ = unavailable

unfoldable pub read_answer : Answer → Srv6Capability
unfolding read_body
read_answer raised = unavailable
read_answer (answered status body) =
    if leb 200 status && leb status 299 then read_body body else unavailable

abbrev pub configmap_path : String
configmap_path = "/api/v1/namespaces/agentic-netops-system/configmaps/fabric-compat-pins"

unfoldable pub ask : Process → Option (String × (String × Option String)) → Srv6Capability
unfolding read_answer
ask p none = unavailable
ask p (some (endpoint, (token, verify))) =
    read_answer (p.http_get (p.without_slashes endpoint) configmap_path token verify)

-- `read_capability`
unfoldable pub read_capability : Process → Srv6Capability
unfolding ask identity
read_capability p = ask p (identity p)
