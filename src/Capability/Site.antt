-- ===== src/Capability/Site.antt =====
-- agents/supervisors/provisioning/capability.py: the names of the site, and the comparison of a name
-- with them.
use Prim.Native.Char.{code}
use agentic_netops.Capability.{Process, SiteInventory, split_csv}
use agentic_netops.Json.{Fields, Json, end, field, obj, str}
use agentic_netops.Prelude.{
  Bool, List, Option, String, [], false, has_text, if◌then◌else◌, leb, none, some, str_eq, true,
  when, ℕ, ◌&&◌, ◌++◌, ◌||◌, ◌∷◌,
}
use agentic_netops.Prelude.Text.{lower, strip}

-- `ch.isalnum() and ord(ch) < 128`, of a character in lower case
abbrev is_kept : ℕ → Bool
is_kept n = (leb 48 n && leb n 57) || ((leb 65 n && leb n 90) || (leb 97 n && leb n 122))

unfoldable pub keep_letters : String → String
keep_letters String.[] = ""
keep_letters (String.◌∷◌ c s) =
    let rest = keep_letters s in if is_kept (code c) then String.◌∷◌ c rest else rest

-- `normalize_site_name`
unfoldable pub normalize_site_name : String → String
unfolding keep_letters lower
normalize_site_name s = keep_letters (lower s)

-- `v != ""`
is_set : Json → Bool
is_set (str s) = has_text s
is_set _ = true

set_keys : Fields → List String
unfolding is_set
set_keys end = []
set_keys (field k v rest) = when (is_set v) k ++ set_keys rest

object_keys : (List String → List String) → Option Json → List String
unfolding set_keys
object_keys sorted (some (obj parsed)) = sorted (set_keys parsed)
object_keys sorted _ = []

-- `_keys_of_json_map`
keys_of_json_map :
    (List String → List String) → (String → Option Json) → Option String → List String
unfolding object_keys strip
keys_of_json_map sorted loads none = []
keys_of_json_map sorted loads (some raw) =
    if has_text (strip raw) then object_keys sorted (loads raw) else []

split_variable : Option String → List String
unfolding split_csv
split_variable none = []
split_variable (some raw) = split_csv raw

-- `site_inventory`, with `sorted` on texts given
site_inventory : (List String → List String) → Process → SiteInventory
unfolding keys_of_json_map split_variable
site_inventory sorted p = record {
  nodes = keys_of_json_map sorted p.loads (p.getenv "FABRIC_NODE_MAP");
  attachments = keys_of_json_map sorted p.loads (p.getenv "FABRIC_PORT_MAP");
  spines = sorted (split_variable (p.getenv "FABRIC_SPINE_NODES"));
}

-- `knows`
unfoldable pub knows : List String → String → Bool
unfolding normalize_site_name
knows [] want = false
knows (n ∷ ns) want = str_eq (normalize_site_name n) (normalize_site_name want) || knows ns want
