-- ===== src/Deployer/Apply.antt =====
-- agents/provisioning/deployer/submit.py: `dry_run_all`, `rollback_by_selector` and `apply_all`.
use agentic_netops.Deployer.{
  IntentApi, Outcome, Reason, Reply, ResourceRef, TransactionError, answer, api_failed, apply_phase,
  crashed, dry_run, failed, ok, plain_error, raised, rollback_failed, rollback_incomplete,
  rollback_phase, rollback_unreadable,
}
use agentic_netops.Deployer.Manifest.{resource_identity}
use agentic_netops.Deployer.Order.{apply_order, ref_from_object, ref_order, refs_from}
use agentic_netops.Json.{Fields, Python}
use agentic_netops.Prelude.{Bool, List, Option, String, [], false, none, some, true, ◌++◌, ◌∷◌}

module _ ⦃py : Python⦄ {C : Type 0} (cluster : IntentApi C) where
  -- What follows the dry run of a manifest, given what the later manifests do.
  unfoldable pub after_dry_run :
      Fields → (C → Outcome (Unit {0}) × C) → Reply Fields × C → Outcome (Unit {0}) × C
  after_dry_run m later (answer checked, c) = later c
  after_dry_run m later (raised message, c) =
      (failed (plain_error dry_run (api_failed message) (some (resource_identity m))), c)

  -- `dry_run_all`; the checked objects are not read by the transaction.
  unfoldable pub dry_run_all : List Fields → C → Outcome (Unit {0}) × C
  unfolding after_dry_run
  dry_run_all [] c = (ok tt, c)
  dry_run_all (m ∷ ms) c = after_dry_run m (dry_run_all ms) (cluster.dry_run_apply m c)

  -- A deletion that raises counts as one that did not happen.
  unfoldable pub was_deleted : Reply Bool → Bool
  was_deleted (answer b) = b
  was_deleted (raised message) = false

  unfoldable pub sort_out :
      Bool → ResourceRef → List ResourceRef × List ResourceRef → List ResourceRef × List ResourceRef
  sort_out true r (gone, left) = (r ∷ gone, left)
  sort_out false r (gone, left) = (gone, r ∷ left)

  -- The references that were deleted and those that were not, each in order.
  unfoldable pub delete_all : List ResourceRef → C → (List ResourceRef × List ResourceRef) × C
  unfolding was_deleted sort_out
  delete_all [] c = (([], []), c)
  delete_all (r ∷ rs) c =
      let (reply, c1) = cluster.delete r c in
      let (rest, c2) = delete_all rs c1 in (sort_out (was_deleted reply) r rest, c2)

  unfoldable pub delete_refs :
      Option (List ResourceRef) → C → Outcome (List ResourceRef × List ResourceRef) × C
  unfolding delete_all
  delete_refs none c = (crashed, c)
  delete_refs (some refs) c = let (sorted, c') = delete_all (ref_order refs) c in (ok sorted, c')

  unfoldable pub rollback_listed :
      Reply (List Fields) × C → Outcome (List ResourceRef × List ResourceRef) × C
  unfolding delete_refs
  rollback_listed (raised message, c) =
      (failed (plain_error rollback_phase (rollback_unreadable message) none), c)
  rollback_listed (answer objects, c) = delete_refs (refs_from objects) c

  -- `rollback_by_selector`
  unfoldable pub rollback_by_selector :
      String → C → Outcome (List ResourceRef × List ResourceRef) × C
  unfolding rollback_listed
  rollback_by_selector correlation_id c =
      rollback_listed (cluster.list_by_correlation correlation_id c)

  apply_error : Fields → Reason → List ResourceRef → List ResourceRef → TransactionError
  apply_error m reason gone left = record {
    phase = apply_phase;
    reason = reason;
    resource = some (resource_identity m);
    rolled_back = gone;
    survivors = left;
  }

  -- What a failed application raises, from how the rollback ended.
  unfoldable pub after_rollback :
      List ResourceRef
      → Fields
      → String
      → Outcome (List ResourceRef × List ResourceRef) × C
      → Outcome (List ResourceRef) × C
  unfolding apply_error
  after_rollback submitted m message (ok (gone, []), c) =
      (failed (apply_error m (api_failed message) gone []), c)
  after_rollback submitted m message (ok (gone, r ∷ left), c) =
      (failed (apply_error m (rollback_incomplete message) gone (r ∷ left)), c)
  after_rollback submitted m message (failed e, c) =
      (failed (apply_error m (rollback_failed message) [] submitted), c)
  after_rollback submitted m message (crashed, c) = (crashed, c)

  -- The reference to what was applied; an object that has none raises.
  unfoldable pub applied_ref : Reply Fields → Reply ResourceRef
  applied_ref (raised message) = raised message
  applied_ref (answer m) = elim (ref_from_object m) [
    | some r ↦ answer r
    | none ↦ raised "the applied object has no reference"
  ]

  -- What follows an application, given what the later manifests do: the reference is recorded, or
  -- everything is rolled back.
  unfoldable pub after_apply :
      String
      → List ResourceRef
      → Fields
      → (List ResourceRef → C → Outcome (List ResourceRef) × C)
      → Reply ResourceRef
      → C
      → Outcome (List ResourceRef) × C
  unfolding after_rollback
  after_apply correlation_id submitted m later (answer r) c = later (submitted ++ r ∷ []) c
  after_apply correlation_id submitted m later (raised message) c =
      after_rollback submitted m message (rollback_by_selector correlation_id c)

  -- `for manifest in ...`, with the references of what was applied before.
  unfoldable pub apply_each :
      String → List Fields → List ResourceRef → C → Outcome (List ResourceRef) × C
  unfolding applied_ref after_apply
  apply_each correlation_id [] submitted c = (ok submitted, c)
  apply_each correlation_id (m ∷ ms) submitted c =
      let (reply, c') = cluster.apply m c in
      after_apply correlation_id submitted m (apply_each correlation_id ms) (applied_ref reply) c'

  -- `apply_all`
  unfoldable pub apply_all : List Fields → String → C → Outcome (List ResourceRef) × C
  unfolding apply_each
  apply_all manifests correlation_id = apply_each correlation_id (apply_order manifests) []
