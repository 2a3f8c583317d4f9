-- ===== src/Lib.antt =====
-- agentic-netops: models and proofs for the provisioning tier of the repository (Python, agents/).
--
-- An operator talks to the supervisor, a graph of nodes over the checkpointed state of a thread: it
-- refuses what may not be provisioned, has a worker interpret the request, asks for a confirmation,
-- has a worker allocate, asks for a second confirmation and has a worker deploy. The request becomes
-- a normalized service intent, which is validated as a whole; the allocator claims
-- the numbers that the service needs; the deployer has the intent translated into manifests, checks
-- and stamps them, applies them to the cluster all or none, watches them converge, and answers later
-- questions about their state.
--
-- Which file models which part:
--   Intent.antt and Intent/: agents/common/schemas/normalized_intent.py. The records are the pydantic
--     models; `validate_all_or_nothing` returns the causes as constructors with the values that the
--     messages quote. Endpoints, Transport, Constructs, AccessList and Validate hold the code, one
--     function for each loop or branch, and the other files what it accepts. The environment variable
--     FABRIC_SPINE_NODES and `ipaddress.ip_network` are fields of `Surroundings`.
--   Kuid.antt and Kuid/: agents/provisioning/allocator/kuid.py. The served API and the leases are
--     records of calls over an abstract cluster, which other clients may change within any call.
--     Claims is the life of a claim, Leases the fallback (`_allocate_fallback_lease`), Fallback the
--     allocators, Prefix `allocate_client_prefix` and Release the release by correlation id. Pool and
--     Row are the proofs about the fallback, Claimed those about prefixes, and Others what a release
--     leaves alone.
--   Allocator.antt and Allocator/: agents/provisioning/allocator/agent.py, over the calls of its client
--     as a record, which Client fills from the model of kuid.py. Endpoints is the order of the endpoints
--     and their one vlan, Parts the pieces of an intent, Srv6 `_srv6_intent`, Vxlan the other branches of
--     `_build_intent`, Building the whole of it, and Memo `_alloc_node` and `ainvoke`. Order, Shared, Requested,
--     Declared, Built and Repeats are the proofs.
--   Deployer.antt and Deployer/: agents/provisioning/deployer/. Requests is
--     `parse_deployment_envelope`, Manifest and Order are `validate_and_stamp_manifests`, Preflight is
--     `_preflight_acl_binding`, Apply the dry run, the application and the rollback, Transaction is
--     `run_deployment_transaction` (all of deployer/submit.py), Client its `KubernetesIntentClient`,
--     Watch is deployer/watch.py, and Status the status answer of deployer/tools/deployer_tools.py.
--     Survivors, Rollback, Untouched, Stamped, Accepted, Bindings, Free, Held, Exclusive, Complete, Outcomes
--     and Verdicts are the proofs.
--   Interpretation.antt and Interpretation/: agents/common/schemas/interpretation.py. Folding is the
--     folding of a type's spellings, Spelling the proof about it, Checks the limits and validators of
--     the models, Accepted what an accepted request guarantees.
--   Capability.antt and Capability/: agents/supervisors/provisioning/capability.py. Site is the inventory
--     of the site and `knows`, Closed the proof that the reading fails closed.
--   Supervisor.antt and Supervisor/: agents/supervisors/provisioning/graph/ (graph.py, shared.py), the
--     fences of prompts/system.py and the seed of a turn in main.py. A node is a function from what it
--     reads from outside (`Outside`) and the state to the state with its writes merged in and the list
--     of what it did, audit events and calls of workers. Patterns and Detect are the detectors, Wording
--     and Questions the texts, Refusal the shared endings, Contract the payloads of the workers; Entry,
--     Confirm and Classify are `_supervisor_node`, Mapping and Guard `_mapper_node`, Allocation
--     `_allocator_node`, Tools, Submission, Convergence, Rendering and Deploying `_deployer_node`; Turn
--     has the other nodes, the edges and a whole turn. Silent, Steady, Working, Delivering, Submitting,
--     Consent, Answers, Thread, Submittable, Preconditions, Bounded, Servable, Sound and Stale are the
--     proofs. A thread is the data type `Reaches`: turns that follow one another on one state.
--   Json.antt: the JSON values that the program reads and writes.
--   Prelude.antt and Prelude/: tests, lists, Python's string methods, regular expressions as a
--     parameter, and sorting.
--   Tests.antt and Tests/: the models on small inputs.
--
-- Python's exceptions are values of a result type, one constructor for each class that a caller tells
-- apart; log lines and metrics are left out. A cluster's state is passed explicitly.
-- Bounds and fuel: the loop of the fallback runs 4 rounds, as in the code, and walks the range by the
-- number of values that are left, so it needs no further fuel. Where the code polls until a deadline,
-- the model takes the number of polls that begin before it, and the theorems hold for every such
-- number. All other loops are structural. A turn of the supervisor's graph is given a number of runs
-- of nodes, and twelve are shown to be enough.
--
-- Laws of the Kubernetes API are hypotheses, in records: `LeaseLaws`, `KeepLaws`, `RollbackLaws`
-- and `ReadLaws`. The tests have a cluster for each of them that satisfies it.
--
-- Not modelled: the agents' prompts and language model calls, the deterministic parts of the mapper,
-- the calls of workers over the message bus, the rendering of the stream, HTTP servers, telemetry,
-- redaction and the emission of audit events, the names of claims, URL quoting, and the TLS and
-- cluster identities that the default clients resolve.
-- The translator, regular expressions, the parser of JSON text, digests and pydantic's field checks
-- are parameters. A lease's name is kept as its prefix and its number, not as their joined text.
-- Numbers with a fraction are no JSON values here, and texts are lists of characters, of which only
-- the ASCII letters have another case and only the ASCII digits are digits.
pub mod Prelude
pub mod Intent
pub mod Kuid
pub mod Json
pub mod Deployer
pub mod Tests
pub mod Interpretation
pub mod Allocator
pub mod Capability
pub mod Supervisor
