-- ===== src/Kuid/Claims.antt =====
-- agents/provisioning/allocator/kuid.py: claims, from their creation to the allocated number.
use agentic_netops.Kuid.{
  Reply, Result, answer, api, classify_http_error, err, is_success, no_answer, ok, unreachable,
}
use agentic_netops.Prelude.{
  Bool, List, Option, String, [], contains, false, has_text, if◌then◌else◌, is_some, ltb, none, not,
  some, str_eq, suc, true, zero, ℕ, ◌&&◌, ◌||◌, ◌∷◌,
}
use agentic_netops.Prelude.Text.{lower, negsuc, parse_int, pos, ℤ}

-- A value of a claim's status, as far as it is read: a null, an integer, a text, or some other value
-- that `int(str(value))` refuses.
pub data Value : Type 0 where
  null : Value
  int : ℤ → Value
  text : String → Value
  other : Value

-- The status of a served claim; `none` is a key that is missing. `conditions` holds the type and the status of each condition.
pub record Status : Type 0 where
  pub id : Option Value
  pub value : Option Value
  pub allocated : Option Value
  pub assigned : Option Value
  pub conditions : List (String × String)
  pub phase : String
  pub state : String

-- The truth value of a status value.
is_true : Value → Bool
is_true null = false
is_true (int (pos n)) = ltb 0 n
is_true (int (negsuc n)) = true
is_true (text s) = has_text s
is_true other = true

or_next : Option Value → Option Value → Option Value
unfolding is_true
or_next none b = b
or_next (some v) b = if is_true v then some v else b

number_of : Option Value → Option ℤ
number_of none = none
number_of (some null) = none
number_of (some (int n)) = some n
number_of (some (text s)) = parse_int s
number_of (some other) = none

-- `status.get(key) is not None`
is_given : Option Value → Bool
is_given none = false
is_given (some null) = false
is_given (some (int n)) = true
is_given (some (text s)) = true
is_given (some other) = true

-- `_claim_id`: `status.id`, or else the first true one of the older fields
unfoldable pub claim_id : Status → String → Result ℤ
unfolding or_next number_of is_given
claim_id st what =
    let value =
      if is_given st.id then st.id else or_next st.value (or_next st.allocated st.assigned) in
    elim (number_of value) [ some n ↦ ok n | none ↦ err (api what) ]

is_ready : List (String × String) → Bool
is_ready [] = false
is_ready ((kind, status) ∷ rest) = (str_eq kind "Ready" && str_eq status "True") || is_ready rest

-- The tests of one poll in `wait_for_claim`.
unfoldable pub is_settled : Status → Bool
unfolding is_ready is_given
is_settled st =
    is_given st.id
    || (is_ready st.conditions
        || (contains ("allocated" ∷ "bound" ∷ "ready" ∷ "succeeded" ∷ [])
              (lower (if has_text st.phase then st.phase else st.state))
            || (is_some st.value || (is_some st.allocated || is_some st.assigned))))

-- The served claim resources that the allocators use.
pub data Family : Type 0 where
  genid vlan extcomm : Family

-- The calls on served claims: a claim is created for an index and a correlation id, and its reply
-- holds its name; a claim is read by its name.
pub record ClaimApi (C : Type 0) : Type 0 where
  pub create : Family → String → String → C → Reply String × C
  pub get : Family → String → C → Reply Status × C

module _ {C : Type 0} (served : ClaimApi C) (family : Family) where
  -- `wait_for_claim`, with the number of polls that begin before the deadline
  unfoldable pub wait_for_claim : ℕ → String → C → Result Status × C
  wait_for_claim zero name c = (err (api name), c)
  wait_for_claim (suc polls) name c =
      let (reply, c') = served.get family name c in
      elim reply [
        | no_answer ↦ (err unreachable, c')
        | answer status body st ↦
            let rest = wait_for_claim polls name c' in
            if not (is_success status)
            then (err (classify_http_error status body), c')
            else if is_settled st
            then (ok st, c')
            else rest
      ]

  -- `_allocate_genid`, `_allocate_vlan` and `_allocate_extcomm`: a claim is created, waited for and
  -- read.
  unfoldable pub allocate_claim : ℕ → String → String → String → C → Result ℤ × C
  unfolding wait_for_claim
  allocate_claim polls what index correlation_id c =
      let (reply, c1) = served.create family index correlation_id c in
      elim reply [
        | no_answer ↦ (err unreachable, c1)
        | answer status body name ↦
            if is_success status
            then (let (result, c2) = wait_for_claim polls name c1 in
                (elim result [ ok st ↦ claim_id st what | err e ↦ err e ], c2))
            else (err (classify_http_error status body), c1)
      ]
