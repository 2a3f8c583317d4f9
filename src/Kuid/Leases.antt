-- ===== src/Kuid/Leases.antt =====
-- agents/provisioning/allocator/kuid.py: `KUIDClient._allocate_fallback_lease` and the names that it
-- makes.
use Prim.Native.Char.{code}
use agentic_netops.Kuid.{
  KuidError, Lease, LeaseApi, LeaseName, Reply, Result, answer, classify_http_error, err,
  exhaustion, is_success, no_answer, ok, unreachable,
}
use agentic_netops.Prelude.{
  Bool, List, Option, String, [], append, contains_number, false, has_text, if◌then◌else◌, leb,
  none, not, some, suc, true, zero, ℕ, ◌&&◌, ◌++◌, ◌+◌, ◌-◌, ◌==◌, ◌||◌, ◌∷◌,
}
use agentic_netops.Prelude.Text.{lower, negsuc, parse_int, pos}

-- The characters that `_label_value` keeps: letters, digits, `_`, `.` and `-`.
is_label_char : ℕ → Bool
is_label_char n =
    (leb 65 n && leb n 90)
    || (leb 97 n && leb n 122)
    || (leb 48 n && leb n 57)
    || (n == 95)
    || (n == 46)
    || (n == 45)

-- `re.sub(r"[^A-Za-z0-9_.-]+", "-", value)`; the flag says that the run before was replaced.
replace_runs : Bool → String → String
unfolding is_label_char
replace_runs last String.[] = ""
replace_runs last (String.◌∷◌ c s) =
    let rest = replace_runs (not (is_label_char (code c))) s in
    if is_label_char (code c) then String.◌∷◌ c rest else if last then rest else append "-" rest

first_chars : ℕ → String → String
first_chars zero s = ""
first_chars (suc n) String.[] = ""
first_chars (suc n) (String.◌∷◌ c s) = String.◌∷◌ c (first_chars n s)

is_edge : ℕ → Bool
is_edge n = (n == 45) || (n == 46)

strip_left : String → String
unfolding is_edge
strip_left String.[] = ""
strip_left (String.◌∷◌ c s) =
    let rest = strip_left s in if is_edge (code c) then rest else String.◌∷◌ c s

strip_right : String → String
unfolding is_edge
strip_right String.[] = ""
strip_right (String.◌∷◌ c s) =
    let rest = strip_right s in
    if has_text rest || not (is_edge (code c)) then String.◌∷◌ c rest else ""

-- `KUIDClient._label_value`
unfoldable pub label_value : String → String
unfolding replace_runs first_chars strip_left strip_right
label_value value =
    let v = strip_right (strip_left (first_chars 63 (replace_runs false value))) in
    if has_text v then v else "default"

-- `KUIDClient._fallback_lease_name`
unfoldable pub lease_name : String → String → ℕ → LeaseName
lease_name kind index value = record {
  prefix = lower (label_value (append "agentic-netops-" (append kind (append "-" index))));
  value = value;
}

-- `KUIDClient._fallback_lease_body`
unfoldable pub lease_body : String → String → ℕ → String → Lease
unfolding first_chars
lease_body kind index value correlation_id =
    let holder = first_chars 63 correlation_id in
    record {
      name = lease_name kind index value;
      kind = label_value kind;
      pool = label_value index;
      correlation_id = correlation_id;
      id = value;
      holder = if has_text holder then holder else "agentic-netops";
    }

-- `used.add(int(str(raw)))`, where what is no number is passed over. A negative id is passed over
-- too: the values that are tried are never negative.
unfoldable pub used_id : Option String → List ℕ
used_id none = []
used_id (some raw) = elim (parse_int raw) [
  | some (pos n) ↦ n ∷ []
  | some (negsuc n) ↦ []
  | none ↦ []
]

unfoldable pub used_ids : List (Option String) → List ℕ
unfolding used_id
used_ids [] = []
used_ids (raw ∷ raws) = used_id raw ++ used_ids raws

-- How the loop goes on after a creation.
pub data Created : Type 0 where
  created taken : Created
  refused : KuidError → Created

unfoldable pub create_outcome : Reply (Unit {0}) → Created
create_outcome no_answer = refused unreachable
create_outcome (answer status body _) =
    if is_success status
    then created
    else if status == 409
    then taken
    else refused (classify_http_error status body)

module _ {C : Type 0} (leases : LeaseApi C) (kind index correlation_id : String) where
  -- `for value in range(first, last + 1)`, with the number of values that are left
  unfoldable pub try_values : ℕ → ℕ → List ℕ → C → Result (Option ℕ) × C
  try_values zero value used c = (ok none, c)
  try_values (suc left) value used c = elim (contains_number used value) [
    | true ↦ try_values left (value + 1) used c
    | false ↦
        let (reply, c') = leases.create (lease_body kind index value correlation_id) c in
        elim (create_outcome reply) [
          | created ↦ (ok (some value), c')
          | taken ↦ try_values left (value + 1) (value ∷ used) c'
          | refused e ↦ (err e, c')
        ]
  ]

  -- The rest of a round, from the reply to its listing.
  unfoldable pub after_listing : ℕ → ℕ → Reply (List (Option String)) × C → Result (Option ℕ) × C
  after_listing first last (no_answer, c) = (err unreachable, c)
  after_listing first last (answer status body raws, c) =
      if is_success status
      then try_values (last + 1 - first) first (used_ids raws) c
      else (err (classify_http_error status body), c)

  -- One listing, and one walk through the range.
  unfoldable pub one_round : ℕ → ℕ → C → Result (Option ℕ) × C
  unfolding after_listing try_values
  one_round first last c = after_listing first last (leases.list_pool (label_value index) c)

  -- What follows a round, given what the later rounds do.
  unfoldable pub after_round : (C → Result ℕ × C) → Result (Option ℕ) × C → Result ℕ × C
  after_round later (err e, c) = (err e, c)
  after_round later (ok (some value), c) = (ok value, c)
  after_round later (ok none, c) = later c

  -- `for _ in range(4)`, with the number of rounds that are left
  unfoldable pub rounds : ℕ → ℕ → ℕ → C → Result ℕ × C
  unfolding after_round
  rounds zero first last c = (err (exhaustion index), c)
  rounds (suc n) first last c = after_round (rounds n first last) (one_round first last c)

  unfoldable pub allocate_fallback_lease : ℕ → ℕ → C → Result ℕ × C
  unfolding rounds
  allocate_fallback_lease first last = rounds 4 first last
