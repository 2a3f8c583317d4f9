-- ===== src/Kuid/Prefix.antt =====
-- agents/provisioning/allocator/kuid.py: `allocate_client_prefix`, the claim of one client network
-- for one attachment.
use agentic_netops.Kuid.{
  Reply, Result, answer, api, classify_http_error, collision, err, is_success, no_answer, ok,
  unreachable,
}
use agentic_netops.Kuid.Claims.{Status, is_settled}
use agentic_netops.Prelude.{
  Bool, Option, String, false, has_text, if◌then◌else◌, none, not, some, str_eq, suc, zero, ℕ, ◌==◌,
}

-- A served IP claim, as far as it is read: the correlation id of its label, the conditions and the
-- other fields of its status, and the allocated prefix.
pub record IpClaim : Type 0 where
  pub held_by : Option String
  pub status : Status
  pub prefix : Option String

-- The calls on IP claims: a claim is read and created by its name.
pub record PrefixApi (C : Type 0) : Type 0 where
  pub read : String → C → Reply IpClaim × C
  pub create : String → String → C → Reply (Unit {0}) × C

module _ {C : Type 0} (served : PrefixApi C) where
  -- What follows a poll, given what the later polls do.
  unfoldable pub after_poll : (C → Result IpClaim × C) → Reply IpClaim × C → Result IpClaim × C
  after_poll later (no_answer, c) = (err unreachable, c)
  after_poll later (answer code body claim, c) =
      let rest = later c in
      if not (is_success code)
      then (err (classify_http_error code body), c)
      else if is_settled claim.status
      then (ok claim, c)
      else rest

  -- `wait_for_claim`, for an IP claim
  unfoldable pub await_prefix : ℕ → String → C → Result IpClaim × C
  unfolding after_poll
  await_prefix zero name c = (err (api name), c)
  await_prefix (suc polls) name c = after_poll (await_prefix polls name) (served.read name c)

  -- `if not prefix: raise`
  unfoldable pub prefix_result : String → Option String → Result String
  prefix_result name none = err (api name)
  prefix_result name (some prefix) = if has_text prefix then ok prefix else err (api name)

  -- The prefix of a claim that is ready; an empty one is an error.
  unfoldable pub prefix_from : String → Result IpClaim × C → Result String × C
  unfolding prefix_result
  prefix_from name (err e, c) = (err e, c)
  prefix_from name (ok claim, c) = (prefix_result name claim.prefix, c)

  -- The claim was created, or its creation was refused.
  unfoldable pub after_creation : ℕ → String → Reply (Unit {0}) × C → Result String × C
  unfolding prefix_from await_prefix
  after_creation polls name (no_answer, c) = (err unreachable, c)
  after_creation polls name (answer code body _, c) =
      if is_success code
      then prefix_from name (await_prefix polls name c)
      else (err (classify_http_error code body), c)

  -- `held is not None and held != correlation_id`
  unfoldable pub is_foreign : Option String → String → Bool
  is_foreign none correlation_id = false
  is_foreign (some held) correlation_id = not (str_eq held correlation_id)

  -- What follows the first read of the claim.
  unfoldable pub after_lookup : ℕ → String → String → Reply IpClaim × C → Result String × C
  unfolding after_creation is_foreign prefix_from
  after_lookup polls name correlation_id (no_answer, c) = (err unreachable, c)
  after_lookup polls name correlation_id (answer code body claim, c) =
      if code == 404
      then after_creation polls name (served.create name correlation_id c)
      else if is_success code
      then (if is_foreign claim.held_by correlation_id
          then (err (collision name), c)
          else prefix_from name (await_prefix polls name c))
      else (err (classify_http_error code body), c)

  -- `allocate_client_prefix`, with the name that `_claim_name` makes of the correlation id and the
  -- attachment
  unfoldable pub allocate_client_prefix : ℕ → String → String → C → Result String × C
  unfolding after_lookup
  allocate_client_prefix polls name correlation_id c =
      after_lookup polls name correlation_id (served.read name c)
