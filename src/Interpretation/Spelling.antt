-- ===== src/Interpretation/Spelling.antt =====
-- agents/common/schemas/interpretation.py: the spellings of a construct's name that
-- `_fold_service_type` takes for the name.
use Prim.Native.Char.{Char, code}
use Prim.Native.String.{String}
use agentic_netops.Interpretation.{ServiceType, acl, ip_vrf, mac_vrf, value, vlan}
use agentic_netops.Interpretation.Folding.{
  canonical_types, fold_service_type, is_separator, lookup, type_key, without_separators,
}
use agentic_netops.Prelude.{ap, inl, inr, refl, some, true, ◌∙◌, ◌≡◌, ◌⊎◌}
use agentic_netops.Prelude.Text.{lower, lower_char}

-- A dash, an underscore, a blank, a full stop or a plus sign.
abbrev pub IsSeparator : Char → Type 0
IsSeparator c = (code c ≡ 45) ⊎ (code c ≡ 95) ⊎ (code c ≡ 32) ⊎ (code c ≡ 46) ⊎ (code c ≡ 43)

-- Two spellings that differ in the case of letters and in separators, anywhere.
pub data Respelt : String → String → Type 0 where
  done : Respelt "" ""
  left : (c : Char) (s t : String) → IsSeparator c → Respelt s t → Respelt (String.◌∷◌ c s) t
  right : (c : Char) (s t : String) → IsSeparator c → Respelt s t → Respelt s (String.◌∷◌ c t)
  same :
      (c d : Char) (s t : String)
      → lower_char c ≡ lower_char d
      → Respelt s t
      → Respelt (String.◌∷◌ c s) (String.◌∷◌ d t)

IsSeparator-is_separator : (c : Char) → IsSeparator c → is_separator (code (lower_char c)) ≡ true
unfolding lower_char
IsSeparator-is_separator c (inl e) = rw e (rw e refl)
IsSeparator-is_separator c (inr (inl e)) = rw e (rw e refl)
IsSeparator-is_separator c (inr (inr (inl e))) = rw e (rw e refl)
IsSeparator-is_separator c (inr (inr (inr (inl e)))) = rw e (rw e refl)
IsSeparator-is_separator c (inr (inr (inr (inr e)))) = rw e (rw e refl)

Respelt-type_key : (s t : String) → Respelt s t → type_key s ≡ type_key t
unfolding type_key lower without_separators
Respelt-type_key s t done = refl
Respelt-type_key s t (left c s' t' i r) =
    rw (IsSeparator-is_separator c i) (Respelt-type_key s' t r)
Respelt-type_key s t (right c s' t' i r) =
    rw (IsSeparator-is_separator c i) (Respelt-type_key s t' r)
Respelt-type_key s t (same c d s' t' e r) = rw (e, Respelt-type_key s' t' r) refl

fold_service_type-value : (t : ServiceType) → fold_service_type (value t) ≡ some t
unfolding fold_service_type type_key value lower
fold_service_type-value vlan = refl
fold_service_type-value mac_vrf = refl
fold_service_type-value ip_vrf = refl
fold_service_type-value acl = refl

-- The name of a construct folds to the construct however it is spelled: with letters of any case, and
-- with dashes, underscores, blanks, full stops and plus signs put in or left out anywhere.
pub fold_service_type-Respelt :
    (s : String) (t : ServiceType) → Respelt s (value t) → fold_service_type s ≡ some t
unfolding fold_service_type
fold_service_type-Respelt s t r =
    ap (λ k. lookup k canonical_types) (Respelt-type_key s (value t) r) ∙ fold_service_type-value t
