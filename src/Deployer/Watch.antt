-- ===== src/Deployer/Watch.antt =====
-- agents/provisioning/deployer/watch.py: the convergence watch.
use agentic_netops.Deployer.{IntentApi, Reply, ResourceRef, answer, raised}
use agentic_netops.Json.{Fields, Python, dicts_of, fields_or_empty, get, is_true, text_or}
use agentic_netops.Prelude.{
  Bool, List, Option, String, [], any, append, contains, false, has_text, if◌then◌else◌, map, none,
  some, str_eq, suc, true, zero, ℕ, ◌&&◌, ◌∷◌,
}
use agentic_netops.Prelude.Text.{lower}

pub data OutcomeKind : Type 0 where
  ready failed_outcome timeout : OutcomeKind

-- `ConvergenceOutcome`
pub record Convergence : Type 0 where
  pub ref : ResourceRef
  pub outcome : OutcomeKind
  pub detail : Option String

-- A reference that is watched: still pending, or with its outcome.
pub data Slot : Type 0 where
  pending : ResourceRef → Slot
  settled : Convergence → Slot

module _ ⦃py : Python⦄ where
  -- `str(c.get("message") or c.get("reason") or default)`
  condition_text : String → Fields → String
  condition_text default c =
      if is_true (get "message" c)
      then text_or "" (get "message" c)
      else text_or default (get "reason" c)

  text_or_none : String → Option String
  text_or_none s = if has_text s then some s else none

  phase_verdict : String → Option Bool × Option String
  phase_verdict phase =
      if contains ("Failed" ∷ "Error" ∷ "Rejected" ∷ []) phase
      then (some false, some (append "phase " phase))
      else (none, none)

  -- The verdict after the conditions: a Ready condition that is False, or else the phase.
  unfoldable pub after_conditions : Option String → String → Option Bool × Option String
  unfolding phase_verdict
  after_conditions (some detail) phase = (some false, some detail)
  after_conditions none phase = phase_verdict phase

  -- `for condition in conditions`, with the detail of the last Ready condition that was False.
  unfoldable pub observe_conditions :
      Option String → String → List Fields → Option Bool × Option String
  unfolding condition_text text_or_none
  observe_conditions unready phase [] = after_conditions unready phase
  observe_conditions unready phase (c ∷ cs) =
      let kind = text_or "" (get "type" c) in
      let status = lower (text_or "" (get "status" c)) in
      let is_ready = str_eq kind "Ready" in
      let unready' =
        if is_ready && str_eq status "false"
        then some (condition_text "Ready condition is False" c)
        else unready in
      let rest = observe_conditions unready' phase cs in
      if is_ready && str_eq status "true"
      then (some true, text_or_none (condition_text "" c))
      else if contains ("Failed" ∷ "Error" ∷ []) kind && str_eq status "true"
      then (some false, some (condition_text (append kind " condition is True") c))
      else rest

  -- `_observe`
  unfoldable pub observe : Fields → Option Bool × Option String
  unfolding observe_conditions
  observe m =
      let status = fields_or_empty (get "status" m) in
      observe_conditions none (text_or "" (get "phase" status)) (dicts_of (get "conditions" status))

  unfoldable pub conclude : ResourceRef → Option Bool × Option String → Slot
  conclude r (some true, detail) =
      settled (record { ref = record r { ready = some true }; outcome = ready; detail = detail })
  conclude r (some false, detail) =
      settled (record {
        ref = record r { ready = some false };
        outcome = failed_outcome;
        detail = detail;
      })
  conclude r (none, detail) = pending r

  -- One read of a pending reference; a read that raises leaves it pending.
  unfoldable pub after_read : ResourceRef → Reply (Option Fields) → Slot
  unfolding conclude
  after_read r (raised message) = pending r
  after_read r (answer none) = settled (record {
    ref = record r { ready = some false };
    outcome = failed_outcome;
    detail = some "object disappeared during convergence watch";
  })
  after_read r (answer (some m)) = conclude r (observe m)

  unfoldable pub expired : Slot → Convergence
  expired (pending r) = record {
    ref = record r { ready = none };
    outcome = timeout;
    detail = some "convergence timeout";
  }
  expired (settled o) = o

  abbrev pub is_pending : Slot → Bool
  is_pending (pending r) = true
  is_pending (settled o) = false

  module _ {C : Type 0} (cluster : IntentApi C) where
    -- `for index, ref in list(pending.items())`
    unfoldable pub poll_round : List Slot → C → List Slot × C
    poll_round [] c = ([], c)
    poll_round (settled o ∷ slots) c = let (rest, c') = poll_round slots c in (settled o ∷ rest, c')
    poll_round (pending r ∷ slots) c =
        let (reply, c1) = cluster.get r c in
        let (rest, c2) = poll_round slots c1 in (after_read r reply ∷ rest, c2)

    -- `while pending`, with the number of further rounds that begin before the deadline.
    unfoldable pub poll : ℕ → List Slot → C → List Slot × C
    poll zero slots c = poll_round slots c
    poll (suc n) slots c =
        let (slots', c') = poll_round slots c in
        let rest = poll n slots' c' in if any is_pending slots' then rest else (slots', c')

    -- `watch_convergence`: one outcome for each reference, in order.
    unfoldable pub watch_convergence : ℕ → List ResourceRef → C → List Convergence × C
    unfolding poll expired
    watch_convergence further refs c =
        let (slots, c') = poll further (map pending refs) c in (map expired slots, c')
