-- ===== src/Json.antt =====
-- The JSON values that the deployer reads and writes: Python's `dict`, `list`, `str`, `int`, `bool` and
-- `None`. Numbers with a fraction are not modelled.
use agentic_netops.Prelude.{
  String, ◌≡◌, ◌≢◌, refl, Bool, true, false, List, [], ◌∷◌, arith, eq_iff, str_eq, ltb, has_text,
  if◌then◌else◌,
}
use agentic_netops.Prelude.Text.{ℤ, pos, negsuc}

mutual
  pub data Json : Type 0 where
    null : Json
    bool : Bool → Json
    num : ℤ → Json
    str : String → Json
    arr : Items → Json
    obj : Fields → Json

  pub data Items : Type 0 where
    nil : Items
    item : Json → Items → Items

  -- A dictionary, in insertion order.
  pub data Fields : Type 0 where
    end : Fields
    field : String → Json → Fields → Fields

-- `d.get(k)`: a missing key reads as `None`.
unfoldable pub get : String → Fields → Json
get k end = null
get k (field j v fs) = if str_eq j k then v else get k fs

-- `k in d`
unfoldable pub has_key : String → Fields → Bool
has_key k end = false
has_key k (field j v fs) = if str_eq j k then true else has_key k fs

-- `d[k] = v`
unfoldable pub put : String → Json → Fields → Fields
put k v end = field k v end
put k v (field j w fs) =
    let rest = put k v fs in if str_eq j k then field j v fs else field j w rest

-- `d.pop(k, None)`
unfoldable pub remove : String → Fields → Fields
remove k end = end
remove k (field j w fs) = let rest = remove k fs in if str_eq j k then fs else field j w rest

-- `x if isinstance(x, dict) else {}`
unfoldable pub fields_or_empty : Json → Fields
fields_or_empty (obj fs) = fs
fields_or_empty _ = end

-- The dictionaries of `x if isinstance(x, list) else []`.
dicts : Items → List Fields
dicts nil = []
dicts (item (obj fs) xs) = fs ∷ dicts xs
dicts (item _ xs) = dicts xs

unfoldable pub dicts_of : Json → List Fields
unfolding dicts
dicts_of (arr xs) = dicts xs
dicts_of _ = []

-- `v == s` for a text `s`
unfoldable pub is_text : String → Json → Bool
is_text s (str t) = str_eq t s
is_text s _ = false

-- The truth value.
unfoldable pub is_true : Json → Bool
is_true null = false
is_true (bool b) = b
is_true (num (pos n)) = ltb 0 n
is_true (num (negsuc n)) = true
is_true (str s) = has_text s
is_true (arr nil) = false
is_true (arr (item x xs)) = true
is_true (obj end) = false
is_true (obj (field k v fs)) = true

-- Python's `str` on a value that is no text.
pub record Python : Type 0 where
  pub repr : Json → String

module _ ⦃py : Python⦄ where
  -- `str(v)`
  unfoldable pub text_of : Json → String
  text_of (str s) = s
  text_of v = py.repr v

  -- `str(v or default)`
  unfoldable pub text_or : String → Json → String
  unfolding text_of is_true
  text_or default v = if is_true v then text_of v else default

pub get-put_self : (k : String) (v : Json) (fs : Fields) → get k (put k v fs) ≡ v
unfolding get put
get-put_self k v end = ground (arith, eq_iff k k)
get-put_self k v (field j w fs) = ground (arith, eq_iff k k, get-put_self k v fs)

pub get-put_ne : (j k : String) (v : Json) (fs : Fields) → j ≢ k → get j (put k v fs) ≡ get j fs
unfolding get put
get-put_ne j k v end h = ground (arith, eq_iff k j)
get-put_ne j k v (field i w fs) h =
    ground (arith, eq_iff k j, eq_iff i k, eq_iff i j, get-put_ne j k v fs h)

pub get-remove_ne : (j k : String) (fs : Fields) → j ≢ k → get j (remove k fs) ≡ get j fs
unfolding get remove
get-remove_ne j k end h = refl
get-remove_ne j k (field i w fs) h = ground (arith, eq_iff i k, eq_iff i j, get-remove_ne j k fs h)
