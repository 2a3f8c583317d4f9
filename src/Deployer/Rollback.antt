-- ===== src/Deployer/Rollback.antt =====
-- agents/provisioning/deployer/submit.py: what the application of a bundle leaves in the cluster,
-- whether it succeeds or fails.
use agentic_netops.Deployer.{
  IntentApi, Outcome, Reason, Reply, ResourceRef, answer, api_failed, apply_phase, crashed, failed,
  ok, raised, rollback_failed, rollback_incomplete,
}
use agentic_netops.Deployer.Apply.{
  after_apply, after_rollback, applied_ref, apply_all, apply_each, rollback_by_selector,
  rollback_listed,
}
use agentic_netops.Deployer.Order.{apply_order}
use agentic_netops.Deployer.Survivors.{
  LeftNamed, Name, Names, RollbackLaws, Unlisted, Unreadable, rollback-LeftNamed,
}
use agentic_netops.Json.{Fields, Python}
use agentic_netops.Prelude.{List, String, [], ap, refl, sym, ◌++◌, ◌∙◌, ◌∷◌, ◌≡◌}

append_one :
    (rs : List ResourceRef) (r : ResourceRef) (new : List ResourceRef)
    → (rs ++ r ∷ []) ++ new ≡ rs ++ r ∷ new
append_one [] r new = refl
append_one (q ∷ qs) r new = ap (λ l. q ∷ l) (append_one qs r new)

append_nil : (rs : List ResourceRef) → rs ++ [] ≡ rs
append_nil [] = refl
append_nil (q ∷ qs) = ap (λ l. q ∷ l) (append_nil qs)

module _ ⦃py : Python⦄ {C : Type 0} (cluster : IntentApi C) (Live : String → Name → C → Type 0)
    (laws : RollbackLaws cluster Live) (cid : String) where
  -- Each manifest was applied, in turn, and its object gave the reference in its place.
  abbrev pub AppliedAs : List Fields → List ResourceRef → C → C → Type 0
  AppliedAs [] [] c d = c ≡ d
  AppliedAs (m ∷ ms) (r ∷ rs) c d =
      (applied_ref cluster (cluster.apply m c).0 ≡ answer r)
      × AppliedAs ms rs (cluster.apply m c).1 d
  AppliedAs [] (r ∷ rs) c d = ⊥
  AppliedAs (m ∷ ms) [] c d = ⊥

  -- What an error of the application says of the objects with the label that are not being deleted:
  -- after a rollback that was carried out there are none besides the survivors that it names, and a
  -- rollback fails only if its listing raised.
  abbrev pub Leaves : Reason → List ResourceRef → C → Type 0
  Leaves (api_failed message) left d = (k : Name) → Live cid k d → ⊥
  Leaves (rollback_incomplete message) left d = (k : Name) → Live cid k d → Names left k
  Leaves (rollback_failed message) left d = Unlisted cluster Live laws cid
  Leaves reason left d = ⊥

  abbrev pub Ends : List Fields → List ResourceRef → C → Outcome (List ResourceRef) × C → Type 0
  Ends ms submitted c (ok refs, d) =
      (new : List ResourceRef) × (refs ≡ submitted ++ new) × AppliedAs ms new c d
  Ends ms submitted c (failed e, d) = (e.phase ≡ apply_phase) × Leaves e.reason e.survivors d
  Ends ms submitted c (crashed, d) = Unreadable cluster Live laws cid

  after_rollback-Ends :
      (ms : List Fields) (from submitted : List ResourceRef) (c : C) (m : Fields) (message : String)
      (r : Outcome (List ResourceRef × List ResourceRef) × C)
      → LeftNamed cluster Live laws cid r
      → Ends ms from c (after_rollback cluster submitted m message r)
  unfolding after_rollback
  after_rollback-Ends ms from submitted c m message (ok (gone, []), d) h = (refl, h)
  after_rollback-Ends ms from submitted c m message (ok (gone, r ∷ left), d) h = (refl, h)
  after_rollback-Ends ms from submitted c m message (failed e, d) h = (refl, h)
  after_rollback-Ends ms from submitted c m message (crashed, d) h = h

  one_more :
      (ms : List Fields) (submitted : List ResourceRef) (c : C) (m : Fields) (r : ResourceRef)
      (result : Outcome (List ResourceRef) × C)
      → applied_ref cluster (cluster.apply m c).0 ≡ answer r
      → Ends ms (submitted ++ r ∷ []) (cluster.apply m c).1 result
      → Ends (m ∷ ms) submitted c result
  one_more ms submitted c m r (ok refs, d) e (new, same, chain) =
      (r ∷ new, same ∙ append_one submitted r new, (e, chain))
  one_more ms submitted c m r (failed error, d) e h = h
  one_more ms submitted c m r (crashed, d) e h = h

  after_apply-Ends :
      (ms : List Fields) (submitted : List ResourceRef) (c : C) (m : Fields)
      (reply : Reply ResourceRef)
      → applied_ref cluster (cluster.apply m c).0 ≡ reply
      → ((rs : List ResourceRef) (b : C) → Ends ms rs b (apply_each cluster cid ms rs b))
      → Ends (m ∷ ms) submitted c (
          after_apply cluster cid submitted m
            (apply_each cluster cid ms)
            reply
            (cluster.apply m c).1)
  unfolding after_apply rollback_by_selector
  after_apply-Ends ms submitted c m (answer r) e k =
      let d = (cluster.apply m c).1 in
      one_more ms submitted c m r (apply_each cluster cid ms (submitted ++ r ∷ []) d) e
        (k (submitted ++ r ∷ []) d)
  after_apply-Ends ms submitted c m (raised message) e k =
      let d = (cluster.apply m c).1 in
      let listing = cluster.list_by_correlation cid d in
      after_rollback-Ends (m ∷ ms) submitted submitted c m message (rollback_listed cluster listing)
        (rollback-LeftNamed cluster Live laws cid d listing (laws.list_keeps cid d) refl)

  apply_each-Ends :
      (ms : List Fields) (submitted : List ResourceRef) (c : C)
      → Ends ms submitted c (apply_each cluster cid ms submitted c)
  unfolding apply_each
  apply_each-Ends [] submitted c = ([], sym (append_nil submitted), refl)
  apply_each-Ends (m ∷ ms) submitted c =
      after_apply-Ends ms submitted c m (applied_ref cluster (cluster.apply m c).0) refl
        (apply_each-Ends ms)

  -- On a cluster that keeps the documented laws, the application of a bundle has one of three ends.
  -- It succeeds, and then it applied every manifest once, in the deterministic order, and returns the
  -- references of the applied objects in that order. Or it fails in the phase that applies, and then
  -- every object with the correlation id is being deleted or gone, except for those that a partial
  -- rollback's error names as survivors; the error says that the rollback itself failed only where a
  -- listing by the correlation id raised. Or another exception ends it, and then a listing of the rollback was
  -- answered with an object that has no reference.
  pub apply_all-Ends :
      (manifests : List Fields) (c : C)
      → Ends (apply_order manifests) [] c (apply_all cluster manifests cid c)
  unfolding apply_all
  apply_all-Ends manifests c = apply_each-Ends (apply_order manifests) [] c
