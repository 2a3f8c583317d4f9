-- ===== src/Kuid/Row.antt =====
-- agents/provisioning/allocator/kuid.py: the numbers that a row of fallback allocations hands out.
use agentic_netops.Kuid.{LeaseApi, LeaseName, Result, err, ok}
use agentic_netops.Kuid.Leases.{allocate_fallback_lease}
use agentic_netops.Kuid.Pool.{AllHeld, Allocated, LeaseLaws, allocate_fallback_lease_fresh}
use agentic_netops.Prelude.{List, NoRepeat, String, [], ℕ, ◌+◌, ◌∷◌, ◌≤◌}

module _ {C : Type 0} (leases : LeaseApi C) (Held : LeaseName → C → Type 0)
    (laws : LeaseLaws leases Held) (kind index : String) where
  -- The numbers that a row of calls hands out, the latest first, behind those handed out before.
  pub handed_out : ℕ → ℕ → List String → List ℕ → C → List ℕ × C
  handed_out first last [] ws c = (ws, c)
  handed_out first last (cid ∷ cids) ws c =
      let (result, c') = allocate_fallback_lease leases kind index cid first last c in
      handed_out first last cids (elim result [ ok v ↦ v ∷ ws | err e ↦ ws ]) c'

  -- Every call of a row, by whichever correlation ids, hands out a number that no other call of the
  -- row was given, and all their leases are held at the end.
  pub handed_out-NoRepeat :
      (first last : ℕ) (cids : List String) (ws : List ℕ) (c : C)
      → first ≤ last + 1
      → NoRepeat ws
      → AllHeld leases Held laws kind index ws c
      → let (vs, c') = handed_out first last cids ws c in
        NoRepeat vs × AllHeld leases Held laws kind index vs c'
  unfolding handed_out
  handed_out-NoRepeat first last [] ws c p d h = (d, h)
  handed_out-NoRepeat first last (cid ∷ cids) ws c p d h =
      go (handed_out-NoRepeat first last cids)
        (allocate_fallback_lease leases kind index cid first last c)
        (allocate_fallback_lease_fresh leases Held laws kind index cid first last ws c p h)
    where
      go :
          ((us : List ℕ) (b : C)
            → first ≤ last + 1
            → NoRepeat us
            → AllHeld leases Held laws kind index us b
            → let (vs, b') = handed_out first last cids us b in
              NoRepeat vs × AllHeld leases Held laws kind index vs b')
          → (r : Result ℕ × C) → Allocated leases Held laws kind index first last ws r
          → let (vs, c') =
              handed_out first last cids (elim r.0 [ ok v ↦ v ∷ ws | err e ↦ ws ]) r.1 in
            NoRepeat vs × AllHeld leases Held laws kind index vs c'
      go later (ok v, c') a = later (v ∷ ws) c' p (a.2, d) a.3
      go later (err e, c') a = later ws c' p d a
