-- ===== src/Deployer/Verdicts.antt =====
-- agents/provisioning/deployer/tools/deployer_tools.py: what the phase of a status answer says about
-- the objects that were read.
use agentic_netops.Deployer.{Reply, answer}
use agentic_netops.Deployer.Status.{Summary, condition_summary, has_failed, is_deployed}
use agentic_netops.Json.{Fields, Python}
use agentic_netops.Prelude.{All, List, [], false, true, ◌≡◌, ◌≢◌}

-- Ready, and not degraded.
abbrev pub IsHealthy : Summary → Type 0
IsHealthy r = (is_deployed r ≡ true) × (has_failed r ≡ false)

module _ ⦃py : Python⦄ where
  -- What a Deployed answer was made from.
  abbrev pub AllReady : Reply (List Fields) → Type 0
  AllReady reply =
      (objects : List Fields) × (reply ≡ answer objects)
      × (objects ≢ [])
      × All (λ m. IsHealthy (condition_summary m)) objects
