-- ===== src/Deployer/Outcomes.antt =====
-- agents/provisioning/deployer/watch.py: what the convergence watch reports.
use agentic_netops.Deployer.{IntentApi, Reply, ResourceRef, answer, raised}
use agentic_netops.Deployer.Watch.{
  Convergence, OutcomeKind, Slot, after_read, conclude, expired, failed_outcome, is_pending,
  observe, pending, poll, poll_round, ready, settled, timeout, watch_convergence,
}
use agentic_netops.Json.{Fields, Python}
use agentic_netops.Prelude.{
  Bool, Bool-cases, List, Option, String, [], any, false, inl, inr, map, none, refl, some, suc,
  true, zero, ℕ, ◌∷◌, ◌≡◌,
}

-- What the field `ready` says for an outcome.
abbrev pub ready_for : OutcomeKind → Option Bool
ready_for ready = some true
ready_for failed_outcome = some false
ready_for timeout = none

abbrev pub IsCoherent : Convergence → Type 0
IsCoherent o = o.ref.ready ≡ ready_for o.outcome

-- Which object a reference names.
abbrev pub names : ResourceRef → String × String × String × String
names r = (r.api_version, r.kind, r.namespace, r.name)

-- A slot is about the reference, and what it has settled is coherent.
abbrev Tracks : Slot → ResourceRef → Type 0
Tracks (pending q) r = names q ≡ names r
Tracks (settled o) r = (names o.ref ≡ names r) × IsCoherent o

abbrev AllTrack : List Slot → List ResourceRef → Type 0
AllTrack [] [] = Unit
AllTrack (s ∷ ss) (r ∷ rs) = Tracks s r × AllTrack ss rs
AllTrack [] (r ∷ rs) = ⊥
AllTrack (s ∷ ss) [] = ⊥

module _ ⦃py : Python⦄ where
  conclude-Tracks :
      (q r : ResourceRef) (verdict : Option Bool × Option String)
      → names q ≡ names r
      → Tracks (conclude q verdict) r
  unfolding conclude
  conclude-Tracks q r (some true, detail) h = (h, refl)
  conclude-Tracks q r (some false, detail) h = (h, refl)
  conclude-Tracks q r (none, detail) h = h

  after_read-Tracks :
      (q r : ResourceRef) (reply : Reply (Option Fields))
      → names q ≡ names r
      → Tracks (after_read q reply) r
  unfolding after_read
  after_read-Tracks q r (raised message) h = h
  after_read-Tracks q r (answer none) h = (h, refl)
  after_read-Tracks q r (answer (some m)) h = conclude-Tracks q r (observe m) h

  pending-AllTrack : (refs : List ResourceRef) → AllTrack (map pending refs) refs
  pending-AllTrack [] = tt
  pending-AllTrack (r ∷ rs) = (refl, pending-AllTrack rs)

  -- One outcome for each reference, in order: it names the object, and is coherent.
  abbrev pub Reports : List Convergence → List ResourceRef → Type 0
  Reports [] [] = Unit
  Reports (o ∷ os) (r ∷ rs) = ((names o.ref ≡ names r) × IsCoherent o) × Reports os rs
  Reports [] (r ∷ rs) = ⊥
  Reports (o ∷ os) [] = ⊥

  expired-Reports :
      (slots : List Slot) (refs : List ResourceRef)
      → AllTrack slots refs
      → Reports (map expired slots) refs
  unfolding expired
  expired-Reports [] [] h = tt
  expired-Reports (pending q ∷ slots) (r ∷ rs) h = ((h.0, refl), expired-Reports slots rs h.1)
  expired-Reports (settled o ∷ slots) (r ∷ rs) h = (h.0, expired-Reports slots rs h.1)
  expired-Reports [] (r ∷ rs) h = absurd h
  expired-Reports (s ∷ slots) [] h = absurd h

  module _ {C : Type 0} (cluster : IntentApi C) where
    poll_round-AllTrack :
        (slots : List Slot) (refs : List ResourceRef) (c : C)
        → AllTrack slots refs
        → AllTrack (poll_round cluster slots c).0 refs
    unfolding poll_round
    poll_round-AllTrack [] [] c h = tt
    poll_round-AllTrack (settled o ∷ slots) (r ∷ rs) c h = (h.0, poll_round-AllTrack slots rs c h.1)
    poll_round-AllTrack (pending q ∷ slots) (r ∷ rs) c h = (
      after_read-Tracks q r (cluster.get q c).0 h.0,
      poll_round-AllTrack slots rs (cluster.get q c).1 h.1,
    )
    poll_round-AllTrack [] (r ∷ rs) c h = absurd h
    poll_round-AllTrack (s ∷ slots) [] c h = absurd h

    poll-AllTrack :
        (n : ℕ) (slots : List Slot) (refs : List ResourceRef) (c : C)
        → AllTrack slots refs
        → AllTrack (poll cluster n slots c).0 refs
    unfolding poll
    poll-AllTrack zero slots refs c h = poll_round-AllTrack slots refs c h
    poll-AllTrack (suc n) slots refs c h =
        let now = poll_round-AllTrack slots refs c h in
        elim (Bool-cases (any is_pending (poll_round cluster slots c).0)) [
          | inl more ↦ rw more (
              poll-AllTrack n (poll_round cluster slots c).0 refs (poll_round cluster slots c).1
                now)
          | inr done ↦ rw done now
        ]

    -- Whatever the cluster answers and however many rounds the deadline allows, the convergence watch
    -- returns exactly one outcome for each submitted reference, in their order, about the same object;
    -- the reference's `ready` is True for an outcome that is ready, False for one that failed, and
    -- not known for a timeout.
    pub watch_convergence-Reports :
        (further : ℕ) (refs : List ResourceRef) (c : C)
        → Reports (watch_convergence cluster further refs c).0 refs
    unfolding watch_convergence
    watch_convergence-Reports further refs c =
        expired-Reports (poll cluster further (map pending refs) c).0 refs
          (poll-AllTrack further (map pending refs) refs c (pending-AllTrack refs))
