-- ===== src/Tests/Deployments.antt =====
-- agents/provisioning/deployer on a small cluster, which holds one object or none.
use agentic_netops.Deployer.{
  Context, IntentApi, Reply, ResourceRef, answer, intent_namespace, raised,
}
use agentic_netops.Deployer.Accepted.{IsReady, accepted_IsStamped}
use agentic_netops.Deployer.Apply.{apply_all}
use agentic_netops.Deployer.Order.{apply_order, ref_from_object, refs_from, validate_and_stamp}
use agentic_netops.Deployer.Outcomes.{Reports, watch_convergence-Reports}
use agentic_netops.Deployer.Rollback.{Ends, apply_all-Ends}
use agentic_netops.Deployer.Survivors.{Name, Names, RollbackLaws, full_name}
use agentic_netops.Deployer.Transaction.{Envelope, Services, run_deployment_transaction}
use agentic_netops.Deployer.Untouched.{Kept, ReadLaws, transaction_untouched}
use agentic_netops.Deployer.Watch.{watch_convergence}
use agentic_netops.Json.{
  Fields, Python, arr, end, field, fields_or_empty, get, is_true, item, nil, obj, str, text_of,
  text_or,
}
use agentic_netops.Prelude.{
  Bool, List, String, [], ap, arith, false, inl, none, refl, some, subst, sym, true, ◌∙◌, ◌∷◌, ◌≡◌,
}

instance pub plain_python : Python
plain_python = record { repr = λ v. "?" }

abbrev pub hex_id : String
hex_id = "0123456789abcdef0123456789abcdef"

abbrev pub ctx : Context
ctx = record { correlation_id = hex_id; thread_id = "thread-1"; principal = "alice" }

abbrev ready_status : Fields
ready_status =
    field "conditions"
      (arr (item (obj (field "type" (str "Ready") (field "status" (str "True") end))) nil)) end

abbrev pub network : String → Fields
network name = field "apiVersion" (str "network.kubenet.dev/v1alpha1") (
    field "kind" (str "Network") (
      field "metadata" (obj (field "name" (str name) end))
        (field "spec" (obj end) (field "status" (obj ready_status) end))))

abbrev pub net_ref : ResourceRef
net_ref = record {
  api_version = "network.kubenet.dev/v1alpha1";
  kind = "Network";
  namespace = intent_namespace;
  name = "net-a";
  uid = none;
  ready = none;
}

-- The first application succeeds, and the next one is over quota.
abbrev apply_once : Fields → Bool → Reply Fields × Bool
apply_once m false = (answer m, true)
apply_once m true = (raised "over quota", true)

abbrev objects_in : Bool → List Fields
objects_in true = network "net-a" ∷ []
objects_in false = []

abbrev pub one_object : IntentApi Bool
one_object = record {
  dry_run_apply = λ m c. (answer m, c);
  apply = apply_once;
  get = λ r c. (answer (some (network "net-a")), c);
  list_by_correlation = λ cid c. (answer (objects_in c), c);
  list_networks = λ c. (answer [], c);
  delete = λ r c. (answer true, false);
}

abbrev Owned : String → Name → Bool → Type 0
Owned cid k c = (c ≡ true) × (full_name net_ref ≡ k)

refs_net : refs_from (network "net-a" ∷ []) ≡ some (net_ref ∷ [])
unfolding refs_from ref_from_object text_or text_of is_true get fields_or_empty
refs_net = refl

listed-Names :
    (b : Bool) (objects : List Fields) (refs : List ResourceRef) (k : Name)
    → answer (objects_in b) ≡ answer objects
    → refs_from objects ≡ some refs
    → (b ≡ true) × (full_name net_ref ≡ k)
    → Names refs k
listed-Names false objects refs k e f h = absurd (ground arith)
listed-Names true objects refs k e f h =
    subst (λ rs. Names rs k) (some_inj (sym refs_net ∙ ap refs_from (answer_inj e) ∙ f)) (inl h.1)
  where
    some_inj : {xs ys : List ResourceRef} → some xs ≡ some ys → xs ≡ ys
    some_inj g = ground arith

    answer_inj : {xs ys : List Fields} → answer xs ≡ answer ys → xs ≡ ys
    answer_inj g = ground arith

one_object_laws : RollbackLaws one_object Owned
one_object_laws = record {
  list_keeps = λ cid c. refl;
  list_complete = λ cid c objects refs k e f h. listed-Names c objects refs k e f h;
  delete_ends = λ cid r c e h. absurd (ground arith);
  delete_makes_none = λ cid r c k h. absurd (ground arith);
}

one_object_reads : ReadLaws one_object
one_object_reads = record { dry_run_keeps = λ m c. refl; networks_keeps = λ c. refl }

abbrev two : List Fields
two = network "net-a" ∷ network "net-b" ∷ []

apply_all-Ends_example :
    Ends one_object Owned one_object_laws hex_id
      (apply_order two)
      []
      false
      (apply_all one_object two hex_id false)
apply_all-Ends_example = apply_all-Ends one_object Owned one_object_laws hex_id two false

-- The services outside: every intent is accepted, and translated into the two networks.
abbrev services : Services
services = record {
  normalize = λ fs. some fs;
  translate = λ fs. answer (
      obj (
        field "manifests" (arr (item (obj (network "net-a")) (item (obj (network "net-b")) nil)))
          end));
}

abbrev envelope : Envelope
envelope = record { intent = field "serviceId" (str "svc-1") end; context = ctx }

transaction_untouched_example :
    Kept one_object one_object_reads false (
      run_deployment_transaction services one_object (some 2) envelope "2026-01-01T00:00:00Z" false)
transaction_untouched_example =
    transaction_untouched one_object one_object_reads services (some 2) envelope
      "2026-01-01T00:00:00Z" false

accepted_IsStamped_example :
    IsReady ctx "now"
      (validate_and_stamp ctx "now" (obj (network "net-b") ∷ obj (network "net-a") ∷ []))
accepted_IsStamped_example =
    accepted_IsStamped ctx "now" (obj (network "net-b") ∷ obj (network "net-a") ∷ [])

watch_convergence-Reports_example :
    Reports
      (watch_convergence one_object 3 (net_ref ∷ net_ref ∷ []) true).0
      (net_ref ∷ net_ref ∷ [])
watch_convergence-Reports_example =
    watch_convergence-Reports one_object 3 (net_ref ∷ net_ref ∷ []) true
