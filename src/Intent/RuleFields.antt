-- ===== src/Intent/RuleFields.antt =====
-- agents/common/schemas/normalized_intent.py: what the checks of one rule's fields accept.
use agentic_netops.Intent.{number, word, AclRule, Protocol, RuleField, rule_action}
use agentic_netops.Intent.AccessList.{
  has_ports, is_action, is_known_protocol, lower_protocol, name_causes, note_name, note_priority,
  in_range?, port_causes, prefix_causes, protocol_names, range_causes, reversed, split_causes,
  priority_causes, protocol_causes,
}
use agentic_netops.Prelude.Text.{ℤ, lower, negsuc, parse_int, pos, split_once, strip}
use agentic_netops.Prelude.{
  Bool-cases, refl, ◌⊎◌, List, Option, Option-cases, String, [], arith, contains, contains_number,
  eq_iff, failing, false, inl, inr, none, not, or_else, some, true, ℕ, ◌∷◌, ◌≡◌, ◌≢◌, ◌≤◌,
}

-- A prefix that is given is a network of the list's family.
abbrev pub FitsFamily : (String → Option ℕ) → Option String → Option String → Type 0
FitsFamily ip_version kind none = Unit
FitsFamily ip_version kind (some prefix) =
    prefix ≢ ""
    → (v : ℕ) × (ip_version prefix ≡ some v)
      × (kind ≡ some "l3" → v ≡ 4)
      × (kind ≡ some "l3v6" → v ≡ 6)

-- No protocol, one of the names, or a number from 0 to 255.
abbrev pub IsKnownProtocol : Protocol → Type 0
IsKnownProtocol (word s) =
    (s ≡ "")
    ⊎ ((contains protocol_names s ≡ true) ⊎ ((n : ℕ) × (parse_int s ≡ some (pos n)) × (n ≤ 255)))
IsKnownProtocol (number z) = (n : ℕ) × (z ≡ pos n) × (n ≤ 255)

-- A number from 0 to 65535, or two of them with a dash between, the second not below the first.
abbrev pub IsPort : String → Type 0
IsPort p =
    ((n : ℕ) × (parse_int p ≡ some (pos n)) × (n ≤ 65535))
    ⊎ ((lo : String) × (hi : String) × (split_once 45 p ≡ some (lo, hi))
        × (a : ℕ) × (parse_int (strip lo) ≡ some (pos a))
        × (b : ℕ) × (parse_int (strip hi) ≡ some (pos b))
        × (a ≤ b)
        × (b ≤ 65535))

-- A port that is given goes with tcp or udp.
abbrev pub FitsProtocol : Option Protocol → Option String → Type 0
FitsProtocol raw none = Unit
FitsProtocol raw (some p) =
    p ≢ "" → ((lower_protocol raw ≡ word "tcp") ⊎ (lower_protocol raw ≡ word "udp")) × IsPort p

-- One rule, apart from the others.
pub record IsRule (ip_version : String → Option ℕ) (kind : Option String) (r : AclRule)
    : Type 0 where
  pub name : r.name ≢ ""
  pub usable : (2 ≤ r.priority) × (r.priority ≤ 65535)
  pub action : (lower r.action ≡ "permit") ⊎ (lower r.action ≡ "deny")
  pub protocol : IsKnownProtocol (lower_protocol r.protocol)
  pub source : FitsFamily ip_version kind r.source_prefix
  pub destination : FitsFamily ip_version kind r.destination_prefix
  pub source_port : FitsProtocol r.protocol r.source_port
  pub destination_port : FitsProtocol r.protocol r.destination_port

pub name_ok :
    (seen : List String) (i : ℕ) (n : String)
    → name_causes seen i n ≡ []
    → (n ≢ "") × (contains seen n ≡ false) × (note_name seen i n ≡ n ∷ seen)
unfolding name_causes note_name
name_ok seen i n h = ground (arith, eq_iff n "")

pub priority_ok :
    (seen : List ℕ) (i p : ℕ)
    → priority_causes seen i p ≡ []
    → (2 ≤ p) × (p ≤ 65535) × (contains_number seen p ≡ false) × (note_priority seen i p ≡ p ∷ seen)
unfolding priority_causes note_priority
priority_ok seen i p h = ground arith

pub prefix_ok :
    (ip_version : String → Option ℕ) (i : ℕ) (field : RuleField) (kind prefix : Option String)
    → prefix_causes ip_version i field kind prefix ≡ []
    → FitsFamily ip_version kind prefix
unfolding prefix_causes
prefix_ok ip_version i field kind none h = tt
prefix_ok ip_version i field kind (some p) h = λ given. elim (Option-cases (ip_version p)) [
  | inl e ↦ absurd (ground (arith, eq_iff p ""))
  | inr (v, e) ↦ (
    v,
    e,
    λ k. ground (arith, eq_iff p "", eq_iff (or_else kind "") "l3", k),
    λ k. ground (arith, eq_iff p "", eq_iff (or_else kind "") "l3v6", k),
  )
]

in_range-bound :
    (m : ℕ) (o : Option ℤ) → in_range? m o ≡ true → (n : ℕ) × (o ≡ some (pos n)) × (n ≤ m)
unfolding in_range?
in_range-bound m none h = absurd (ground arith)
in_range-bound m (some (pos n)) h = (n, refl, ground arith)
in_range-bound m (some (negsuc n)) h = absurd (ground arith)

range_ok :
    (i : ℕ) (field : RuleField) (p lo hi : String)
    → range_causes i field p (lo, hi) ≡ []
    → (in_range? 65535 (parse_int (strip lo)) ≡ true)
      × (in_range? 65535 (parse_int (strip hi)) ≡ true)
      × (reversed (parse_int (strip lo)) (parse_int (strip hi)) ≡ false)
unfolding range_causes
range_ok i field p lo hi h = ground arith

reversed-order :
    (lo hi : Option ℤ) (a b : ℕ)
    → lo ≡ some (pos a)
    → hi ≡ some (pos b)
    → reversed lo hi ≡ false
    → a ≤ b
unfolding reversed
reversed-order lo hi a b e f h =
    let k : reversed (some (pos a)) (some (pos b)) ≡ false = rw (e, f) at h in ground (arith, k)

split_ok :
    (i : ℕ) (field : RuleField) (p : String) (o : Option (String × String))
    → split_once 45 p ≡ o
    → split_causes i field p o ≡ []
    → IsPort p
unfolding split_causes
split_ok i field p none e h = inl (in_range-bound 65535 (parse_int p) (ground arith))
split_ok i field p (some (lo, hi)) e h =
    let (low, high, order) = range_ok i field p lo hi h in
    let (a, ea, la) = in_range-bound 65535 (parse_int (strip lo)) low in
    let (b, eb, lb) = in_range-bound 65535 (parse_int (strip hi)) high in
    inr (lo, hi, e, a, ea, b, eb, reversed-order _ _ a b ea eb order, lb)

has_ports-or : (p : Protocol) → has_ports p ≡ true → (p ≡ word "tcp") ⊎ (p ≡ word "udp")
unfolding has_ports
has_ports-or (word s) h = ground (arith, eq_iff "tcp" s, eq_iff "udp" s)
has_ports-or (number n) h = absurd (ground arith)

port_parts :
    (i : ℕ) (field : RuleField) (raw : Option Protocol) (p : String)
    → port_causes i field raw (some p) ≡ []
    → p ≢ ""
    → (has_ports (lower_protocol raw) ≡ true) × (split_causes i field p (split_once 45 p) ≡ [])
unfolding port_causes
port_parts i field raw p h given = ground (arith, eq_iff p "")

pub port_ok :
    (i : ℕ) (field : RuleField) (raw : Option Protocol) (port : Option String)
    → port_causes i field raw port ≡ []
    → FitsProtocol raw port
port_ok i field raw none h = tt
port_ok i field raw (some p) h = λ given.
    let (carries, rest) = port_parts i field raw p h given in
    (has_ports-or (lower_protocol raw) carries, split_ok i field p (split_once 45 p) refl rest)

is_known_protocol-IsKnownProtocol : (p : Protocol) → is_known_protocol p ≡ true → IsKnownProtocol p
unfolding is_known_protocol
is_known_protocol-IsKnownProtocol (word s) h = elim (Bool-cases (in_range? 255 (parse_int s))) [
  | inl e ↦ inr (inr (in_range-bound 255 (parse_int s) e))
  | inr e ↦ elim (Bool-cases (contains protocol_names s)) [
    | inl c ↦ inr (inl c)
    | inr c ↦ inl ((eq_iff s "").0 (ground (arith, h, e, c, eq_iff s "")))
  ]
]
is_known_protocol-IsKnownProtocol (number (pos n)) h =
    let (m, e, b) = in_range-bound 255 (some (pos n)) h in (n, refl, ground (arith, e, b))
is_known_protocol-IsKnownProtocol (number (negsuc n)) h =
    let (m, e, b) = in_range-bound 255 (some (negsuc n)) h in absurd (ground arith)

pub protocol_ok :
    (i : ℕ) (raw : Option Protocol)
    → protocol_causes i raw ≡ []
    → IsKnownProtocol (lower_protocol raw)
unfolding protocol_causes
protocol_ok i raw h = is_known_protocol-IsKnownProtocol (lower_protocol raw) (ground arith)

pub action_ok :
    (i : ℕ) (action : String)
    → failing ((not (is_action action), rule_action i action) ∷ []) ≡ []
    → (lower action ≡ "permit") ⊎ (lower action ≡ "deny")
unfolding is_action
action_ok i action h = ground (arith, eq_iff "permit" (lower action), eq_iff "deny" (lower action))
