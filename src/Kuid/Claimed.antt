-- ===== src/Kuid/Claimed.antt =====
-- agents/provisioning/allocator/kuid.py: which prefixes `allocate_client_prefix` hands out.
use agentic_netops.Kuid.{Reply, Result, answer, err, is_success, no_answer, ok}
use agentic_netops.Kuid.Claims.{is_settled}
use agentic_netops.Kuid.Prefix.{
  IpClaim, PrefixApi, after_creation, after_lookup, after_poll, allocate_client_prefix,
  await_prefix, is_foreign, prefix_from, prefix_result,
}
use agentic_netops.Prelude.{
  Bool-cases, Option, String, arith, false, has_text, inl, inr, none, refl, some, suc, true, zero,
  ℕ, ◌==◌, ◌≡◌, ◌⊎◌,
}

module _ {C : Type 0} (served : PrefixApi C) where
  -- The claim was read, ready, in some state.
  abbrev pub WasReady : String → IpClaim → Type 0
  WasReady name claim =
      (d : C) × (code : ℕ) × (body : String) × ((served.read name d).0 ≡ answer code body claim)
      × (is_success code ≡ true)
      × (is_settled claim.status ≡ true)

  abbrev Awaited : String → Result IpClaim × C → Type 0
  Awaited name (ok claim, c) = WasReady name claim
  Awaited name (err e, c) = Unit

  after_poll-Awaited :
      (name : String) (later : C → Result IpClaim × C) (d : C) (reply : Reply IpClaim × C)
      → (served.read name d).0 ≡ reply.0
      → ((b : C) → Awaited name (later b))
      → Awaited name (after_poll served later reply)
  unfolding after_poll
  after_poll-Awaited name later d (no_answer, c) e k = tt
  after_poll-Awaited name later d (answer code body claim, c) e k =
      elim (Bool-cases (is_success code)) [
        | inr bad ↦ rw (bad, Awaited) tt
        | inl good ↦ elim (Bool-cases (is_settled claim.status)) [
          | inl settled ↦ rw (good, settled, Awaited) (d, code, body, e, good, settled)
          | inr waiting ↦ rw (good, waiting) (k c)
        ]
      ]

  await_prefix-Awaited :
      (polls : ℕ) (name : String) (c : C) → Awaited name (await_prefix served polls name c)
  unfolding await_prefix
  await_prefix-Awaited zero name c = tt
  await_prefix-Awaited (suc polls) name c =
      after_poll-Awaited name (await_prefix served polls name) c (served.read name c) refl
        (await_prefix-Awaited polls name)

  -- A prefix that is handed out is not empty, and a claim of the name was ready with it.
  abbrev pub Prefixed : String → Result String × C → Type 0
  Prefixed name (ok prefix, c) =
      (has_text prefix ≡ true)
      × (claim : IpClaim) × (claim.prefix ≡ some prefix)
      × WasReady name claim
  Prefixed name (err e, c) = Unit

  prefix_result-Prefixed :
      (name : String) (claim : IpClaim) (found : Option String) (c : C)
      → claim.prefix ≡ found
      → WasReady name claim
      → Prefixed name (prefix_result served name found, c)
  unfolding prefix_result
  prefix_result-Prefixed name claim none c e k = tt
  prefix_result-Prefixed name claim (some prefix) c e k = elim (Bool-cases (has_text prefix)) [
    | inl given ↦ rw (given, Prefixed) (given, claim, e, k)
    | inr empty ↦ rw (empty, Prefixed) tt
  ]

  prefix_from-Prefixed :
      (name : String) (r : Result IpClaim × C)
      → Awaited name r
      → Prefixed name (prefix_from served name r)
  unfolding prefix_from
  prefix_from-Prefixed name (err e, c) k = tt
  prefix_from-Prefixed name (ok claim, c) k =
      prefix_result-Prefixed name claim claim.prefix c refl k

  after_creation-Prefixed :
      (polls : ℕ) (name : String) (r : Reply (Unit {0}) × C)
      → Prefixed name (after_creation served polls name r)
  unfolding after_creation
  after_creation-Prefixed polls name (no_answer, c) = tt
  after_creation-Prefixed polls name (answer code body u, c) = elim (Bool-cases (is_success code)) [
    | inl good ↦ rw good (
        prefix_from-Prefixed name (await_prefix served polls name c)
          (await_prefix-Awaited polls name c))
    | inr bad ↦ rw (bad, Prefixed) tt
  ]

  -- What the first read found: no claim of the name, or one that this correlation id may use.
  abbrev pub IsOurs : String → Reply IpClaim → Type 0
  IsOurs cid no_answer = ⊥
  IsOurs cid (answer code body claim) =
      (code ≡ 404) ⊎ ((is_success code ≡ true) × (is_foreign served claim.held_by cid ≡ false))

  abbrev pub Allocates : String → String → Reply IpClaim → Result String × C → Type 0
  Allocates name cid first (ok prefix, c) = IsOurs cid first × Prefixed name (ok prefix, c)
  Allocates name cid first (err e, c) = Unit

  with_first :
      (name cid : String) (first : Reply IpClaim) (r : Result String × C)
      → IsOurs cid first
      → Prefixed name r
      → Allocates name cid first r
  with_first name cid first (ok prefix, c) h k = (h, k)
  with_first name cid first (err e, c) h k = tt

  after_lookup-Allocates :
      (polls : ℕ) (name cid : String) (r : Reply IpClaim × C)
      → Allocates name cid r.0 (after_lookup served polls name cid r)
  unfolding after_lookup
  after_lookup-Allocates polls name cid (no_answer, c) = tt
  after_lookup-Allocates polls name cid (answer code body claim, c) =
      elim (Bool-cases (code == 404)) [
        | inl missing ↦ rw missing (
            with_first name cid (answer code body claim)
              (after_creation served polls name (served.create name cid c)) (inl (ground arith))
              (after_creation-Prefixed polls name (served.create name cid c)))
        | inr there ↦ elim (Bool-cases (is_success code)) [
          | inr bad ↦ rw (there, bad, Allocates) tt
          | inl good ↦ elim (Bool-cases (is_foreign served claim.held_by cid)) [
            | inl foreign ↦ rw (there, good, foreign, Allocates) tt
            | inr ours ↦
                rw (there, good, ours)
                  (with_first name cid (answer code body claim)
                    (prefix_from served name (await_prefix served polls name c)) (inr (good, ours))
                    (prefix_from-Prefixed name (await_prefix served polls name c)
                      (await_prefix-Awaited polls name c)))
          ]
        ]
      ]

  -- If a client prefix is handed out, then the first read found no claim of the name, or one that is
  -- not held by another correlation id; and the prefix is not empty and is the one of a claim of that
  -- name that the authority reported ready.
  pub allocate_client_prefix-Allocates :
      (polls : ℕ) (name cid : String) (c : C)
      → Allocates name cid (served.read name c).0 (allocate_client_prefix served polls name cid c)
  unfolding allocate_client_prefix
  allocate_client_prefix-Allocates polls name cid c =
      after_lookup-Allocates polls name cid (served.read name c)
