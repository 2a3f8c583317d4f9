-- ===== src/Intent/AccessList.antt =====
-- agents/common/schemas/normalized_intent.py: the access-list branch of `validate_all_or_nothing`.
use agentic_netops.Prelude.{
  ℕ, ◌+◌, String, Bool, false, Option, none, some, List, [], ◌∷◌, ◌++◌, not, ◌&&◌, ◌||◌, str_eq,
  ltb, ◌==◌, is_some, truthy, has_text, has_text?, or_else, failing, contains, contains_number,
  length, is_empty, if◌then◌else◌,
}
use agentic_netops.Prelude.Text.{ℤ, pos, negsuc, in_range, lower, strip, split_once, parse_int}
use agentic_netops.Intent.{
  ServiceIntent, Acl, AclRule, Protocol, word, number, RuleField, source_prefix, destination_prefix,
  source_port, destination_port, Cause, acl_identifiers, acl_endpoints, acl_rules_required,
  acl_rules_by_name, acl_stage, acl_type, acl_bind_to, rule_name_required, rule_name_duplicate,
  rule_priority_reserved, rule_priority_range, rule_priority_used, rule_action, rule_protocol,
  rule_not_prefix, rule_prefix_is_ipv6, rule_prefix_is_ipv4, rule_port_protocol,
  rule_range_reversed, rule_not_range, rule_not_port,
}

unfoldable pub name_causes : List String → ℕ → String → List Cause
name_causes seen i name =
    if not (has_text name)
    then rule_name_required i ∷ []
    else if contains seen name
    then rule_name_duplicate i name ∷ []
    else []

unfoldable pub priority_causes : List ℕ → ℕ → ℕ → List Cause
priority_causes seen i prio =
    if prio == 1
    then rule_priority_reserved i ∷ []
    else if ltb prio 2 || ltb 65535 prio
    then rule_priority_range i prio ∷ []
    else if contains_number seen prio
    then rule_priority_used i prio ∷ []
    else []

-- `seen_names` and `seen_prios` after a rule: they grow exactly where the rule's own check passes.
unfoldable pub note_name : List String → ℕ → String → List String
note_name seen i name = if is_empty (name_causes seen i name) then name ∷ seen else seen

unfoldable pub note_priority : List ℕ → ℕ → ℕ → List ℕ
note_priority seen i prio = if is_empty (priority_causes seen i prio) then prio ∷ seen else seen

-- `str(proto_raw or "").lower()`. An integer keeps its value: `int` reads its text back to it, and
-- the text is no protocol's name.
unfoldable pub lower_protocol : Option Protocol → Protocol
lower_protocol none = word ""
lower_protocol (some (word s)) = word (lower s)
lower_protocol (some (number n)) = elim n [
  | pos k ↦ if k == 0 then word "" else number (pos k)
  | negsuc k ↦ number (negsuc k)
]

abbrev pub protocol_names : List String
protocol_names =
    "any" ∷ "tcp" ∷ "udp" ∷ "icmp" ∷ "igmp" ∷ "rsvp" ∷ "gre" ∷ "ah" ∷ "pim" ∷ "l2tp" ∷ []

unfoldable pub in_range? : ℕ → Option ℤ → Bool
in_range? m none = false
in_range? m (some n) = in_range m n

-- No protocol, a known name, or a number from 0 to 255.
unfoldable pub is_known_protocol : Protocol → Bool
unfolding in_range?
is_known_protocol (word s) =
    not (has_text s) || (contains protocol_names s || in_range? 255 (parse_int s))
is_known_protocol (number n) = in_range? 255 (some n)

is_icmpv6 : Protocol → Bool
is_icmpv6 (word s) = contains ("icmpv6" ∷ "ipv6-icmp" ∷ []) s
is_icmpv6 (number n) = false

unfoldable pub has_ports : Protocol → Bool
has_ports (word s) = contains ("tcp" ∷ "udp" ∷ []) s
has_ports (number n) = false

unfoldable pub protocol_causes : ℕ → Option Protocol → List Cause
unfolding lower_protocol is_icmpv6
protocol_causes i raw = failing (
    (not (is_known_protocol (lower_protocol raw)), rule_protocol i raw)
    ∷ (is_icmpv6 (lower_protocol raw), rule_protocol i raw)
    ∷ [])

family_causes : ℕ → RuleField → String → String → Option ℕ → List Cause
family_causes i field acl_kind prefix none = rule_not_prefix i field prefix ∷ []
family_causes i field acl_kind prefix (some version) = failing (
    (str_eq acl_kind "l3" && not (version == 4), rule_prefix_is_ipv6 i field prefix)
    ∷ (str_eq acl_kind "l3v6" && not (version == 6), rule_prefix_is_ipv4 i field prefix)
    ∷ [])

unfoldable pub prefix_causes :
    (String → Option ℕ) → ℕ → RuleField → Option String → Option String → List Cause
unfolding family_causes
prefix_causes ip_version i field acl_kind none = []
prefix_causes ip_version i field acl_kind (some prefix) =
    if has_text prefix
    then family_causes i field (or_else acl_kind "") prefix (ip_version prefix)
    else []

-- `hi_n < lo_n`, of two numbers that are in range
unfoldable pub reversed : Option ℤ → Option ℤ → Bool
reversed (some (pos lo)) (some (pos hi)) = ltb hi lo
reversed _ _ = false

unfoldable pub range_causes : ℕ → RuleField → String → String × String → List Cause
unfolding in_range? reversed
range_causes i field port (lo, hi) =
    let lo_n = parse_int (strip lo) in
    let hi_n = parse_int (strip hi) in
    if not (in_range? 65535 lo_n && in_range? 65535 hi_n)
    then rule_not_range i field port ∷ []
    else if reversed lo_n hi_n
    then rule_range_reversed i field port ∷ []
    else []

-- A port, or with a dash a range of ports.
unfoldable pub split_causes : ℕ → RuleField → String → Option (String × String) → List Cause
unfolding range_causes in_range?
split_causes i field port (some range) = range_causes i field port range
split_causes i field port none =
    if in_range? 65535 (parse_int port) then [] else rule_not_port i field port ∷ []

unfoldable pub port_causes : ℕ → RuleField → Option Protocol → Option String → List Cause
unfolding lower_protocol split_causes
port_causes i field raw port? =
    let port = or_else port? "" in
    if not (has_text port)
    then []
    else if not (has_ports (lower_protocol raw))
    then rule_port_protocol i field raw ∷ []
    else split_causes i field port (split_once 45 port)

unfoldable pub is_action : String → Bool
is_action action = contains ("permit" ∷ "deny" ∷ []) (lower action)

-- One rule: the body of `for i, r in enumerate(rules)`.
unfoldable pub rule_causes :
    (String → Option ℕ) → Option String → List String → List ℕ → ℕ → AclRule → List Cause
rule_causes ip_version acl_kind names prios i r =
    name_causes names i r.name
    ++ (priority_causes prios i r.priority
        ++ (failing ((not (is_action r.action), rule_action i r.action) ∷ [])
            ++ (protocol_causes i r.protocol
                ++ (prefix_causes ip_version i source_prefix acl_kind r.source_prefix
                    ++ (prefix_causes ip_version i destination_prefix acl_kind r.destination_prefix
                        ++ (port_causes i source_port r.protocol r.source_port
                            ++ port_causes i destination_port r.protocol r.destination_port))))))

unfoldable pub rules_causes :
    (String → Option ℕ) → Option String → List String → List ℕ → ℕ → List AclRule → List Cause
rules_causes ip_version acl_kind names prios i [] = []
rules_causes ip_version acl_kind names prios i (r ∷ rs) =
    rule_causes ip_version acl_kind names prios i r
    ++ rules_causes ip_version acl_kind (note_name names i r.name)
        (note_priority prios i r.priority) (i + 1) rs

-- `x in ("a", "b")` where `x` may be `None`
is_one_of : List String → Option String → Bool
is_one_of names none = false
is_one_of names (some s) = contains names s

unfoldable pub list_checks : Acl → List (Bool × Cause)
unfolding is_one_of
list_checks a =
    (not (is_one_of ("ingress" ∷ "egress" ∷ []) a.stage), acl_stage a.stage)
    ∷ (not (is_one_of ("l3" ∷ "l3v6" ∷ []) a.type), acl_type a.type)
    ∷ (has_text? a.bind_to && not (str_eq (or_else a.bind_to "") "port"), acl_bind_to a.bind_to)
    ∷ (is_empty (or_else a.rules []), acl_rules_required)
    ∷ (is_empty (or_else a.rules []) && has_text? a.name, acl_rules_by_name)
    ∷ []

unfoldable pub list_causes : (String → Option ℕ) → Acl → List Cause
unfolding list_checks
list_causes ip_version a =
    failing (list_checks a) ++ rules_causes ip_version a.type [] [] 0 (or_else a.rules [])

unfoldable pub own_list_causes : (String → Option ℕ) → Option Acl → List Cause
own_list_causes ip_version none = []
own_list_causes ip_version (some a) = list_causes ip_version a

unfoldable pub acl_checks : Bool → ServiceIntent → List (Bool × Cause)
acl_checks srv6 s =
    (
      not srv6
          && (truthy s.l2vni || (truthy s.l3vni || (is_some s.rd_rt || is_some s.anycast_gateway))),
      acl_identifiers,
    )
    ∷ (ltb (length s.endpoints) 1, acl_endpoints)
    ∷ []

unfoldable pub acl_causes : (String → Option ℕ) → Bool → ServiceIntent → List Cause
unfolding own_list_causes acl_checks
acl_causes ip_version srv6 s = failing (acl_checks srv6 s) ++ own_list_causes ip_version s.acl
