-- ===== src/Deployer/Untouched.antt =====
-- agents/provisioning/deployer/submit.py: where a failed transaction may have changed the cluster.
use agentic_netops.Deployer.{
  Context, IntentApi, Outcome, Reply, ResourceRef, answer, apply_phase, crashed, failed, ok, raised,
}
use agentic_netops.Deployer.Apply.{
  after_apply, after_dry_run, after_rollback, applied_ref, apply_all, apply_each, dry_run_all,
  rollback_by_selector,
}
use agentic_netops.Deployer.Order.{apply_order}
use agentic_netops.Deployer.Preflight.{preflight_acl_binding}
use agentic_netops.Deployer.Transaction.{
  Envelope, Run, Services, after_preflight, after_prepare, apply_checked, conclude_run, deploy,
  prepare, run_deployment_transaction, run_prepared,
}
use agentic_netops.Json.{Fields, Python}
use agentic_netops.Prelude.{List, Option, String, [], inl, inr, refl, ℕ, ◌++◌, ◌∙◌, ◌∷◌, ◌≡◌, ◌⊎◌}

-- What the Kubernetes API documents of requests that only read or that carry `dryRun=All`.
pub record ReadLaws {C : Type 0} (cluster : IntentApi C) : Type 0 where
  pub dry_run_keeps : (m : Fields) (c : C) → (cluster.dry_run_apply m c).1 ≡ c
  pub networks_keeps : (c : C) → (cluster.list_networks c).1 ≡ c

module _ ⦃py : Python⦄ {C : Type 0} (cluster : IntentApi C) (laws : ReadLaws cluster) where
  -- A run that failed left the cluster as it was, or failed in the phase that applies.
  abbrev pub Kept : C → Run C → Type 0
  Kept c0 (failed e, log, c) = (c ≡ c0) ⊎ (e.phase ≡ apply_phase)
  Kept c0 (ok payload, log, c) = Unit
  Kept c0 (crashed, log, c) = Unit

  after_dry_run-keeps :
      (m : Fields) (later : C → Outcome (Unit {0}) × C) (c : C) (r : Reply Fields × C)
      → ((b : C) → (later b).1 ≡ b)
      → r.1 ≡ c
      → (after_dry_run cluster m later r).1 ≡ c
  unfolding after_dry_run
  after_dry_run-keeps m later c (answer checked, b) k h = k b ∙ h
  after_dry_run-keeps m later c (raised message, b) k h = h

  dry_run_all-keeps : (ms : List Fields) (c : C) → (dry_run_all cluster ms c).1 ≡ c
  unfolding dry_run_all
  dry_run_all-keeps [] c = refl
  dry_run_all-keeps (m ∷ ms) c =
      after_dry_run-keeps m (dry_run_all cluster ms) c (cluster.dry_run_apply m c)
        (dry_run_all-keeps ms) (laws.dry_run_keeps m c)

  preflight-keeps : (ms : List Fields) (c : C) → (preflight_acl_binding cluster ms c).1 ≡ c
  unfolding preflight_acl_binding
  preflight-keeps ms c = laws.networks_keeps c

  module _ (watch : Option ℕ) (ctx : Context) (prepared : List Fields) where
    abbrev AppliedOnly : Outcome (List ResourceRef) × C → Type 0
    AppliedOnly (failed e, c) = e.phase ≡ apply_phase
    AppliedOnly (ok refs, c) = Unit
    AppliedOnly (crashed, c) = Unit

    after_rollback-phase :
        (submitted : List ResourceRef) (m : Fields) (message : String)
        (r : Outcome (List ResourceRef × List ResourceRef) × C)
        → AppliedOnly (after_rollback cluster submitted m message r)
    unfolding after_rollback
    after_rollback-phase submitted m message (ok (gone, []), c) = refl
    after_rollback-phase submitted m message (ok (gone, r ∷ left), c) = refl
    after_rollback-phase submitted m message (failed e, c) = refl
    after_rollback-phase submitted m message (crashed, c) = tt

    after_apply-phase :
        (cid : String) (submitted : List ResourceRef) (m : Fields)
        (later : List ResourceRef → C → Outcome (List ResourceRef) × C) (reply : Reply ResourceRef)
        (c : C)
        → ((rs : List ResourceRef) (b : C) → AppliedOnly (later rs b))
        → AppliedOnly (after_apply cluster cid submitted m later reply c)
    unfolding after_apply
    after_apply-phase cid submitted m later (answer r) c k = k (submitted ++ r ∷ []) c
    after_apply-phase cid submitted m later (raised message) c k =
        after_rollback-phase submitted m message (rollback_by_selector cluster cid c)

    apply_each-phase :
        (cid : String) (ms : List Fields) (submitted : List ResourceRef) (c : C)
        → AppliedOnly (apply_each cluster cid ms submitted c)
    unfolding apply_each
    apply_each-phase cid [] submitted c = tt
    apply_each-phase cid (m ∷ ms) submitted c =
        after_apply-phase cid submitted m (apply_each cluster cid ms)
          (applied_ref cluster (cluster.apply m c).0) (cluster.apply m c).1
          (apply_each-phase cid ms)

    -- The cluster is as before, or the error is the application's.
    abbrev KeptSoFar : C → Outcome (List ResourceRef) × C → Type 0
    KeptSoFar c0 (failed e, c) = (c ≡ c0) ⊎ (e.phase ≡ apply_phase)
    KeptSoFar c0 (ok refs, c) = Unit
    KeptSoFar c0 (crashed, c) = Unit

    late-KeptSoFar : (c0 : C) (r : Outcome (List ResourceRef) × C) → AppliedOnly r → KeptSoFar c0 r
    late-KeptSoFar c0 (failed e, c) h = inr h
    late-KeptSoFar c0 (ok refs, c) h = tt
    late-KeptSoFar c0 (crashed, c) h = tt

    apply_checked-kept :
        (c0 : C) (r : Outcome (Unit {0}) × C)
        → r.1 ≡ c0
        → KeptSoFar c0 (apply_checked cluster watch ctx prepared r)
    unfolding apply_checked apply_all
    apply_checked-kept c0 (ok _, c) h =
        late-KeptSoFar c0 (apply_each cluster ctx.correlation_id (apply_order prepared) [] c)
          (apply_each-phase ctx.correlation_id (apply_order prepared) [] c)
    apply_checked-kept c0 (failed e, c) h = inl h
    apply_checked-kept c0 (crashed, c) h = tt

    conclude_run-Kept :
        (c0 : C) (r : Outcome (List ResourceRef) × C)
        → KeptSoFar c0 r
        → Kept c0 (conclude_run cluster watch ctx r)
    unfolding conclude_run
    conclude_run-Kept c0 (ok refs, c) h = tt
    conclude_run-Kept c0 (failed e, c) h = h
    conclude_run-Kept c0 (crashed, c) h = tt

    after_preflight-Kept :
        (c0 : C) (r : Outcome (Unit {0}) × C)
        → r.1 ≡ c0
        → Kept c0 (after_preflight cluster watch ctx prepared r)
    unfolding after_preflight deploy
    after_preflight-Kept c0 (ok _, c) h =
        conclude_run-Kept c0
          (apply_checked cluster watch ctx prepared (dry_run_all cluster prepared c))
          (apply_checked-kept c0 (dry_run_all cluster prepared c)
            (dry_run_all-keeps prepared c ∙ h))
    after_preflight-Kept c0 (failed e, c) h = inl h
    after_preflight-Kept c0 (crashed, c) h = tt

  after_prepare-Kept :
      (watch : Option ℕ) (ctx : Context) (r : Outcome (List Fields)) (c : C)
      → Kept c (after_prepare cluster watch ctx r c)
  unfolding after_prepare run_prepared
  after_prepare-Kept watch ctx (ok prepared) c =
      after_preflight-Kept watch ctx prepared c (preflight_acl_binding cluster prepared c)
        (preflight-keeps prepared c)
  after_prepare-Kept watch ctx (failed e) c = inl refl
  after_prepare-Kept watch ctx crashed c = tt

  -- On a cluster whose dry runs and listings change nothing, a deployment transaction that fails
  -- has left the cluster exactly as it was, unless the error names the phase that applies: a refusal
  -- of the request, the translation, the manifests, the port check or any dry run changes nothing.
  pub transaction_untouched :
      (services : Services) (watch : Option ℕ) (envelope : Envelope) (timestamp : String) (c : C)
      → Kept c (run_deployment_transaction services cluster watch envelope timestamp c)
  unfolding run_deployment_transaction
  transaction_untouched services watch envelope timestamp c =
      after_prepare-Kept watch envelope.context (prepare services envelope timestamp) c
