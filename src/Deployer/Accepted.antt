-- ===== src/Deployer/Accepted.antt =====
-- agents/provisioning/deployer/submit.py: what a bundle that is accepted for submission consists of.
use agentic_netops.Deployer.{Context, Outcome, Reason, crashed, failed, ok}
use agentic_netops.Deployer.Manifest.{
  Identity, after_stamp, behind, stamp_all, stamp_one, validate_context,
}
use agentic_netops.Deployer.Order.{apply_order, if_valid, in_order, manifest_le, validate_and_stamp}
use agentic_netops.Deployer.Stamped.{Good, IsStamped, stamp_one-Good}
use agentic_netops.Json.{Fields, Json, Python}
use agentic_netops.Prelude.{
  All, Bool, Bool-cases, List, Option, String, [], inl, inr, none, some, ◌∷◌, ◌≢◌,
}
use agentic_netops.Prelude.Sort.{insert_sorted, sort}

module _ (ctx : Context) (timestamp : String) where
  -- All manifests of a bundle, if there is one.
  abbrev AllGood : Outcome (List Fields) → Type 0
  AllGood (ok ms) = All (IsStamped ctx) ms
  AllGood (failed e) = Unit
  AllGood crashed = Unit

  behind-AllGood :
      (m : Fields) (rest : Outcome (List Fields))
      → IsStamped ctx m
      → AllGood rest
      → AllGood (behind m rest)
  unfolding behind
  behind-AllGood m (ok ms) s h = (s, h)
  behind-AllGood m (failed e) s h = tt
  behind-AllGood m crashed s h = tt

  after_stamp-AllGood :
      (later : Identity → Outcome (List Fields)) (r : Outcome (Fields × Identity))
      → ((i : Identity) → AllGood (later i))
      → Good ctx timestamp r
      → AllGood (after_stamp later r)
  unfolding after_stamp
  after_stamp-AllGood later (ok (m, i)) k s = behind-AllGood m (later i) s (k i)
  after_stamp-AllGood later (failed e) k s = tt
  after_stamp-AllGood later crashed k s = tt

  stamp_all-AllGood :
      (seen : List Identity) (raws : List Json) → AllGood (stamp_all ctx timestamp seen raws)
  unfolding stamp_all
  stamp_all-AllGood seen [] = tt
  stamp_all-AllGood seen (raw ∷ raws) =
      after_stamp-AllGood (λ i. stamp_all ctx timestamp (i ∷ seen) raws)
        (stamp_one ctx timestamp seen raw) (λ i. stamp_all-AllGood (i ∷ seen) raws)
        (stamp_one-Good ctx timestamp seen raw)

  insert-All :
      (m : Fields) (ms : List Fields) (le : Fields → Fields → Bool)
      → IsStamped ctx m
      → All (IsStamped ctx) ms
      → (insert_sorted le m ms ≢ []) × All (IsStamped ctx) (insert_sorted le m ms)
  unfolding insert_sorted
  insert-All m [] le s h = (λ e. cc, (s, h))
  insert-All m (n ∷ ns) le s h = elim (Bool-cases (le m n)) [
    | inl e ↦ rw e ((λ e. cc), (s, h))
    | inr e ↦ rw e ((λ e. cc), (h.0, (insert-All m ns le s h.1).1))
  ]

  sort-All :
      (le : Fields → Fields → Bool) (ms : List Fields)
      → All (IsStamped ctx) ms
      → All (IsStamped ctx) (sort le ms)
  unfolding sort
  sort-All le [] h = tt
  sort-All le (m ∷ ms) h = (insert-All m (sort le ms) le h.0 (sort-All le ms h.1)).1

  -- A bundle that may go on: it is not empty, and each of its manifests is stamped.
  abbrev pub IsReady : Outcome (List Fields) → Type 0
  IsReady (ok ms) = (ms ≢ []) × All (IsStamped ctx) ms
  IsReady (failed e) = Unit
  IsReady crashed = Unit

  module _ ⦃py : Python⦄ where
    in_order-IsReady : (r : Outcome (List Fields)) → AllGood r → IsReady (in_order r)
    unfolding in_order apply_order sort
    in_order-IsReady (ok []) h = tt
    in_order-IsReady (ok (m ∷ ms)) h =
        insert-All m (apply_order ms) manifest_le h.0 (sort-All manifest_le ms h.1)
    in_order-IsReady (failed e) h = tt
    in_order-IsReady crashed h = tt

    if_valid-IsReady :
        (verdict : Option Reason) (r : Outcome (List Fields))
        → IsReady r
        → IsReady (if_valid verdict r)
    unfolding if_valid
    if_valid-IsReady (some reason) r h = tt
    if_valid-IsReady none r h = h

    -- Every bundle that is accepted for submission is not empty, and each of its manifests is an
    -- allow-listed kind with an object as its spec and a valid name, stands in the intent tier's
    -- namespace whatever namespace it asked for, and carries the request's correlation id and the
    -- tier as labels: the labels by which a rollback finds it.
    pub accepted_IsStamped : (raws : List Json) → IsReady (validate_and_stamp ctx timestamp raws)
    unfolding validate_and_stamp
    accepted_IsStamped raws =
        if_valid-IsReady (validate_context ctx) (in_order (stamp_all ctx timestamp [] raws))
          (in_order-IsReady (stamp_all ctx timestamp [] raws) (stamp_all-AllGood [] raws))
