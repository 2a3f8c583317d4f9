-- ===== src/Intent/Rules.antt =====
-- agents/common/schemas/normalized_intent.py: what an accepted access list looks like.
use agentic_netops.Intent.{Acl, AclRule, RuleField, ServiceIntent, Surroundings}
use agentic_netops.Intent.AccessList.{
  acl_causes, acl_checks, list_causes, list_checks, note_name, note_priority, own_list_causes,
  rule_causes, rules_causes,
}
use agentic_netops.Intent.Kinds.{construct-acl}
use agentic_netops.Intent.Named.{accepted_iff, is_empty_iff}
use agentic_netops.Intent.RuleFields.{
  IsRule, action_ok, name_ok, port_ok, prefix_ok, priority_ok, protocol_ok,
}
use agentic_netops.Intent.Transport.{is_srv6}
use agentic_netops.Intent.Validate.{validate_all_or_nothing}
use agentic_netops.Prelude.{
  All, AllFalse, List, NoRepeat, Option, String, [], all, append-eq-nil, arith, contains,
  contains_number, eq_iff, failing, failing-eq-nil, false, is_empty, map, none, or_else, some, true,
  ℕ, ◌+◌, ◌∷◌, ◌≡◌, ◌≢◌, ◌⊎◌,
}

module _ (ip_version : String → Option ℕ) (kind : Option String) where
  -- A rule that names no cause is a rule of its own, and new beside the rules before it.
  rule_causes-IsRule :
      (names : List String) (prios : List ℕ) (i : ℕ) (r : AclRule)
      → rule_causes ip_version kind names prios i r ≡ []
      → IsRule ip_version kind r
        × ((contains names r.name ≡ false) × (note_name names i r.name ≡ r.name ∷ names))
        × ((contains_number prios r.priority ≡ false)
            × (note_priority prios i r.priority ≡ r.priority ∷ prios))
  unfolding rule_causes
  rule_causes-IsRule names prios i r h =
      let (a, h1) = (append-eq-nil _ _).0 h in
      let (b, h2) = (append-eq-nil _ _).0 h1 in
      let (c, h3) = (append-eq-nil _ _).0 h2 in
      let (d, h4) = (append-eq-nil _ _).0 h3 in
      let (e, h5) = (append-eq-nil _ _).0 h4 in
      let (f, h6) = (append-eq-nil _ _).0 h5 in
      let (g, k) = (append-eq-nil _ _).0 h6 in
      let (named, fresh, noted) = name_ok names i r.name a in
      let (low, high, unused, counted) = priority_ok prios i r.priority b in
      (
        record {
          name = named;
          usable = (low, high);
          action = action_ok i r.action c;
          protocol = protocol_ok i r.protocol d;
          source = prefix_ok ip_version i RuleField.source_prefix kind r.source_prefix e;
          destination =
              prefix_ok ip_version i RuleField.destination_prefix kind r.destination_prefix f;
          source_port = port_ok i RuleField.source_port r.protocol r.source_port g;
          destination_port = port_ok i RuleField.destination_port r.protocol r.destination_port k;
        },
        (fresh, noted),
        (unused, counted),
      )

  rules_cons :
      (names : List String) (prios : List ℕ) (i : ℕ) (r : AclRule) (rs : List AclRule)
      → rules_causes ip_version kind names prios i (r ∷ rs) ≡ []
      → IsRule ip_version kind r
        × (contains names r.name ≡ false)
        × (contains_number prios r.priority ≡ false)
        × (rules_causes ip_version kind (r.name ∷ names) (r.priority ∷ prios) (i + 1) rs ≡ [])
  unfolding rules_causes
  rules_cons names prios i r rs h =
      let (one, rest) = (append-eq-nil _ _).0 h in
      let (own, n, p) = rule_causes-IsRule names prios i r one in
      (own, n.0, p.0, rw (n.1, p.1) at rest)

  -- A name, or a priority, that was seen before does not come again.
  seen_name :
      (x : String) (names : List String) (prios : List ℕ) (i : ℕ) (rs : List AclRule)
      → contains names x ≡ true
      → rules_causes ip_version kind names prios i rs ≡ []
      → All (λ y. y ≢ x) (map (λ (r : AclRule). r.name) rs)
  seen_name x names prios i [] c h = tt
  seen_name x names prios i (r ∷ rs) c h =
      let (own, n, p, rest) = rules_cons names prios i r rs h in
      (
        λ e. cc (n, c, e),
        seen_name x (r.name ∷ names) (r.priority ∷ prios) (i + 1) rs (ground arith) rest,
      )

  seen_priority :
      (x : ℕ) (names : List String) (prios : List ℕ) (i : ℕ) (rs : List AclRule)
      → contains_number prios x ≡ true
      → rules_causes ip_version kind names prios i rs ≡ []
      → All (λ y. y ≢ x) (map (λ (r : AclRule). r.priority) rs)
  seen_priority x names prios i [] c h = tt
  seen_priority x names prios i (r ∷ rs) c h =
      let (own, n, p, rest) = rules_cons names prios i r rs h in
      (
        λ e. cc (p, c, e),
        seen_priority x (r.name ∷ names) (r.priority ∷ prios) (i + 1) rs (ground arith) rest,
      )

  rules_ok :
      (names : List String) (prios : List ℕ) (i : ℕ) (rs : List AclRule)
      → rules_causes ip_version kind names prios i rs ≡ []
      → All (IsRule ip_version kind) rs
        × NoRepeat (map (λ (r : AclRule). r.name) rs)
        × NoRepeat (map (λ (r : AclRule). r.priority) rs)
  rules_ok names prios i [] h = (tt, tt, tt)
  rules_ok names prios i (r ∷ rs) h =
      let (own, n, p, rest) = rules_cons names prios i r rs h in
      let (all, ns, ps) = rules_ok (r.name ∷ names) (r.priority ∷ prios) (i + 1) rs rest in
      (
        (own, all),
        (
          seen_name r.name (r.name ∷ names) (r.priority ∷ prios) (i + 1) rs
              (ground (arith, eq_iff r.name r.name)) rest,
          ns,
        ),
        (
          seen_priority r.priority (r.name ∷ names) (r.priority ∷ prios) (i + 1) rs (ground arith)
              rest,
          ps,
        ),
      )

-- An access list that says where and to what it applies, and has rules, each a rule of its own, with
-- distinct names and distinct priorities.
pub record IsAccessList (ip_version : String → Option ℕ) (a : Acl) : Type 0 where
  pub stage : (a.stage ≡ some "ingress") ⊎ (a.stage ≡ some "egress")
  pub family : (a.type ≡ some "l3") ⊎ (a.type ≡ some "l3v6")
  pub some_rules : or_else a.rules [] ≢ []
  pub each_rule : All (IsRule ip_version a.type) (or_else a.rules [])
  pub names : NoRepeat (map (λ (r : AclRule). r.name) (or_else a.rules []))
  pub priorities : NoRepeat (map (λ (r : AclRule). r.priority) (or_else a.rules []))

list_checks_ok :
    (a : Acl)
    → AllFalse (list_checks a)
    → ((a.stage ≡ some "ingress") ⊎ (a.stage ≡ some "egress"))
      × ((a.type ≡ some "l3") ⊎ (a.type ≡ some "l3v6"))
      × (is_empty (or_else a.rules []) ≡ false)
unfolding list_checks
list_checks_ok a h = ground (
  arith,
  eq_iff "ingress" (or_else a.stage ""),
  eq_iff "egress" (or_else a.stage ""),
  eq_iff "l3" (or_else a.type ""),
  eq_iff "l3v6" (or_else a.type ""),
)

pub list_causes_ok :
    (ip_version : String → Option ℕ) (a : Acl)
    → list_causes ip_version a ≡ []
    → IsAccessList ip_version a
unfolding list_causes
list_causes_ok ip_version a h =
    let (checks, rules) = (append-eq-nil _ _).0 h in
    let (stage, family, given) = list_checks_ok a ((failing-eq-nil (list_checks a)).0 checks) in
    let (each, names, prios) = rules_ok ip_version a.type [] [] 0 (or_else a.rules []) rules in
    record {
      stage = stage;
      family = family;
      some_rules = (is_empty_iff (or_else a.rules [])).0 given;
      each_rule = each;
      names = names;
      priorities = prios;
    }

-- An accepted acl service binds somewhere, and every access list that it carries has a stage, a
-- family and rules, and its rules have distinct non-empty names, distinct priorities from 2 to
-- 65535, an action, a known protocol, prefixes of the list's family, and ports only with tcp or udp,
-- each a number from 0 to 65535 or a range of two of which the second is not below the first.
pub validate_all_or_nothing-IsAccessList :
    (env : Surroundings) (s : ServiceIntent) (a : Acl)
    → s.type ≡ "acl"
    → s.acl ≡ some a
    → validate_all_or_nothing env false s ≡ none
    → (s.endpoints ≢ []) × IsAccessList env.ip_version a
unfolding acl_causes own_list_causes
validate_all_or_nothing-IsAccessList env s a kind carries h =
    let (n, t, c) = (accepted_iff env s).0 h in
    let (checks, own) =
      (append-eq-nil (failing (acl_checks (is_srv6 s) s)) (own_list_causes env.ip_version s.acl)).0
        (rw (construct-acl env s kind) at c) in
    (n.endpoints, list_causes_ok env.ip_version a (rw carries at own))
