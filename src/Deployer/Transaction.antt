-- ===== src/Deployer/Transaction.antt =====
-- agents/provisioning/deployer/submit.py: `run_deployment_transaction`.
use agentic_netops.Deployer.{
  Context, IntentApi, Outcome, Reply, ResourceRef, TransactionError, answer, bad_intent, crashed,
  failed, ok, plain_error, raised, request_validation, translation, translator_failed,
  translator_rejected,
}
use agentic_netops.Deployer.Apply.{apply_all, dry_run_all}
use agentic_netops.Deployer.Manifest.{is_correlation_id, validate_context}
use agentic_netops.Deployer.Order.{validate_and_stamp}
use agentic_netops.Deployer.Preflight.{preflight_acl_binding}
use agentic_netops.Deployer.Watch.{Convergence, watch_convergence}
use agentic_netops.Json.{Fields, Items, Json, Python, arr, fields_or_empty, get, item, nil}
use agentic_netops.Prelude.{List, Option, String, [], if◌then◌else◌, map, none, some, ℕ, ◌∷◌}

-- `DeploymentEnvelope`
pub record Envelope : Type 0 where
  pub intent : Fields
  pub context : Context

-- The audit events that a transaction emits.
pub data Audit : Type 0 where
  submit : List ResourceRef → Audit
  refuse : TransactionError → Audit

-- The submission report: the references and, if the watch ran, their outcomes.
pub record Payload : Type 0 where
  pub submitted : List ResourceRef
  pub convergence : List Convergence

-- What lies outside: the intent's model (`model_validate`, then `model_dump`), which refuses an
-- intent with `none`, and the translator, which may raise.
pub record Services : Type 0 where
  pub normalize : Fields → Option Fields
  pub translate : Fields → Reply Json

-- How a transaction ends, with the audit events that it emitted, in order.
abbrev pub Run : Type 0 → Type 0
Run C = Outcome Payload × List Audit × C

listed : Items → List Json
listed nil = []
listed (item x xs) = x ∷ listed xs

manifests_of : Json → Option (List Json)
unfolding listed
manifests_of (arr xs) = some (listed xs)
manifests_of _ = none

-- Steps 1 and 2: the manifests of the translated intent.
translated_manifests : Reply Json → Outcome (List Json)
unfolding manifests_of
translated_manifests (raised message) = failed (plain_error translation translator_failed none)
translated_manifests (answer translated) =
    elim (manifests_of (get "manifests" (fields_or_empty translated))) [
      | some ms ↦ ok ms
      | none ↦ failed (plain_error translation translator_rejected none)
    ]

translate_intent : Services → Fields → Outcome (List Json)
unfolding translated_manifests
translate_intent services intent = elim (services.normalize intent) [
  | none ↦ failed (plain_error request_validation bad_intent none)
  | some normalized ↦ translated_manifests (services.translate normalized)
]

module _ ⦃py : Python⦄ where
  -- Steps 1 to 3, which do not touch the cluster.
  unfoldable pub prepare : Services → Envelope → String → Outcome (List Fields)
  unfolding translate_intent
  prepare services envelope timestamp = elim (validate_context envelope.context) [
    | some reason ↦ failed (plain_error request_validation reason none)
    | none ↦ elim (translate_intent services envelope.intent) [
      | ok manifests ↦ validate_and_stamp envelope.context timestamp manifests
      | failed e ↦ failed e
      | crashed ↦ crashed
    ]
  ]

  module _ {C : Type 0} (cluster : IntentApi C) (watch : Option ℕ) (ctx : Context) where
    -- `_audit`: nothing is emitted for a malformed correlation id.
    audit : Audit → List Audit
    audit event = if is_correlation_id ctx.correlation_id then event ∷ [] else []

    ref_of : Convergence → ResourceRef
    ref_of o = o.ref

    -- Step 7. `watch` is `none` if the watch is off, and else the number of rounds after the first.
    watched : Option ℕ → List ResourceRef → C → Payload × C
    unfolding ref_of
    watched none submitted c = (record { submitted = submitted; convergence = [] }, c)
    watched (some further) [] c = (record { submitted = []; convergence = [] }, c)
    watched (some further) (r ∷ rs) c =
        let (outcomes, c') = watch_convergence cluster further (r ∷ rs) c in
        (record { submitted = map ref_of outcomes; convergence = outcomes }, c')

    -- The end of the `try` block: the submission is audited and watched, or the refusal audited.
    unfoldable pub conclude_run : Outcome (List ResourceRef) × C → Run C
    unfolding audit watched
    conclude_run (ok submitted, c) =
        let (payload, c') = watched watch submitted c in (ok payload, audit (submit submitted), c')
    conclude_run (failed e, c) = (failed e, audit (refuse e), c)
    conclude_run (crashed, c) = (crashed, [], c)

    unfoldable pub apply_checked :
        List Fields → Outcome (Unit {0}) × C → Outcome (List ResourceRef) × C
    apply_checked prepared (ok _, c) = apply_all cluster prepared ctx.correlation_id c
    apply_checked prepared (failed e, c) = (failed e, c)
    apply_checked prepared (crashed, c) = (crashed, c)

    -- Steps 4 to 7: dry run, apply, audit, watch.
    unfoldable pub deploy : List Fields → C → Run C
    unfolding conclude_run apply_checked
    deploy prepared c = conclude_run (apply_checked prepared (dry_run_all cluster prepared c))

    unfoldable pub after_preflight : List Fields → Outcome (Unit {0}) × C → Run C
    after_preflight prepared (ok _, c) = deploy prepared c
    after_preflight prepared (failed e, c) = (failed e, [], c)
    after_preflight prepared (crashed, c) = (crashed, [], c)

    -- The access lists' pre-flight, and what follows it.
    unfoldable pub run_prepared : List Fields → C → Run C
    unfolding after_preflight
    run_prepared prepared c = after_preflight prepared (preflight_acl_binding cluster prepared c)

  -- What follows the steps that do not touch the cluster.
  unfoldable pub after_prepare :
      {C : Type 0} → IntentApi C → Option ℕ → Context → Outcome (List Fields) → C → Run C
  after_prepare cluster watch ctx (ok prepared) c = run_prepared cluster watch ctx prepared c
  after_prepare cluster watch ctx (failed e) c = (failed e, [], c)
  after_prepare cluster watch ctx crashed c = (crashed, [], c)

  -- `run_deployment_transaction`
  unfoldable pub run_deployment_transaction :
      {C : Type 0} → Services → IntentApi C → Option ℕ → Envelope → String → C → Run C
  unfolding after_prepare
  run_deployment_transaction services cluster watch envelope timestamp c =
      after_prepare cluster watch envelope.context (prepare services envelope timestamp) c
