-- ===== src/Interpretation/Folding.antt =====
-- agents/common/schemas/interpretation.py: the folding of a service type's spellings to the four
-- constructs, and the record of a legacy alias.
use Prim.Native.Char.{code}
use Prim.Native.String.{String}
use agentic_netops.Prelude.Text.{lower}
use agentic_netops.Json.{Fields, str, get, put, is_true}
use agentic_netops.Interpretation.{ServiceType, vlan, mac_vrf, ip_vrf, acl, value}
use agentic_netops.Prelude.{
  Bool, List, Option, [], has_text, if◌then◌else◌, none, not, some, str_eq, ℕ, ◌&&◌, ◌==◌, ◌||◌,
  ◌∷◌,
}

-- `ch in "-_ .+"`
abbrev pub is_separator : ℕ → Bool
is_separator n = (n == 45) || (n == 95) || (n == 32) || (n == 46) || (n == 43)

unfoldable pub without_separators : String → String
without_separators String.[] = ""
without_separators (String.◌∷◌ c s) =
    let rest = without_separators s in if is_separator (code c) then rest else String.◌∷◌ c rest

-- `_type_key`
unfoldable pub type_key : String → String
unfolding without_separators
type_key s = without_separators (lower s)

abbrev pub canonical_types : List (String × ServiceType)
canonical_types =
    ("vlan", vlan)
    ∷ ("macvrf", mac_vrf)
    ∷ ("l2vni", mac_vrf)
    ∷ ("ipvrf", ip_vrf)
    ∷ ("l3vni", ip_vrf)
    ∷ ("acl", acl)
    ∷ ("accesslist", acl)
    ∷ ("vpls", mac_vrf)
    ∷ ("vpws", mac_vrf)
    ∷ ("eline", mac_vrf)
    ∷ ("l3vpn", ip_vrf)
    ∷ ("l2l3irb", mac_vrf)
    ∷ ("irb", mac_vrf)
    ∷ []

-- `d.get(k)`
unfoldable pub lookup {ℓ} : {A : Type ℓ} → String → List (String × A) → Option A
lookup k [] = none
lookup k ((j, v) ∷ rest) = if str_eq j k then some v else lookup k rest

-- `_fold_service_type` on a text: `none` is the `ValueError`.
unfoldable pub fold_service_type : String → Option ServiceType
unfolding lookup
fold_service_type v = lookup (type_key v) canonical_types

note_alias : String → Option ServiceType → Fields → Fields
note_alias raw none data_ = data_
note_alias raw (some t) data_ =
    if str_eq (type_key raw) (type_key (value t))
    then data_
    else put "source_service_type" (str raw) data_

-- `_record_source_alias`
record_source_alias : Fields → Fields
unfolding note_alias
record_source_alias data_ = elim (get "service_type" data_) [
  | str raw ↦
      if has_text raw && not (is_true (get "source_service_type" data_))
      then note_alias raw (fold_service_type raw) data_
      else data_
  | _ ↦ data_
]
