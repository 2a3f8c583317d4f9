-- ===== src/Kuid/Pool.antt =====
-- agents/provisioning/allocator/kuid.py: what `_allocate_fallback_lease` promises of the numbers that
-- it hands out.
use agentic_netops.Kuid.{
  KuidError, Lease, LeaseApi, LeaseName, Reply, Result, answer, err, is_success, no_answer, ok,
}
use agentic_netops.Kuid.Leases.{
  Created, after_listing, after_round, allocate_fallback_lease, create_outcome, created,
  label_value, lease_body, lease_name, one_round, refused, rounds, taken, try_values, used_ids,
}
use agentic_netops.Prelude.{
  All, Bool-cases, List, Option, String, [], arith, contains_number, false, inl, inr, none, refl,
  some, subst, suc, sym, true, zero, ℕ, ◌+◌, ◌-◌, ◌∷◌, ◌≡◌, ◌≢◌, ◌≤◌, ◌⊎◌,
}

-- What the Kubernetes API documents of leases: a name is taken at most once, a lease that was
-- created is there, and neither a listing nor a creation takes a lease away. Other clients may
-- create leases within any call; that no lease is released meanwhile is part of the hypothesis.
pub record LeaseLaws {C : Type 0} (leases : LeaseApi C) (Held : LeaseName → C → Type 0)
    : Type 0 where
  pub free :
      (b : Lease) (c : C) (status : ℕ) (body : String)
      → (leases.create b c).0 ≡ answer status body tt
      → is_success status ≡ true
      → Held b.name c
      → ⊥
  pub lands :
      (b : Lease) (c : C) (status : ℕ) (body : String)
      → (leases.create b c).0 ≡ answer status body tt
      → is_success status ≡ true
      → Held b.name (leases.create b c).1
  pub create_keeps : (b : Lease) (c : C) (n : LeaseName) → Held n c → Held n (leases.create b c).1
  pub list_keeps :
      (pool : String) (c : C) (n : LeaseName) → Held n c → Held n (leases.list_pool pool c).1

-- Only a reply with a success is read as a creation.
created-success :
    (reply : Reply (Unit {0}))
    → create_outcome reply ≡ created
    → (status : ℕ) × (body : String) × (reply ≡ answer status body tt) × (is_success status ≡ true)
unfolding create_outcome
created-success no_answer e = absurd (ground arith)
created-success (answer status body u) e = (status, body, refl, ground arith)

Created-cases : (o : Created) → (o ≡ created) ⊎ (o ≡ taken) ⊎ ((e : KuidError) × (o ≡ refused e))
Created-cases created = inl refl
Created-cases taken = inr (inl refl)
Created-cases (refused e) = inr (inr (e, refl))

module _ {C : Type 0} (leases : LeaseApi C) (Held : LeaseName → C → Type 0)
    (laws : LeaseLaws leases Held) (kind index : String) where
  -- The numbers' leases are all there.
  abbrev pub AllHeld : List ℕ → C → Type 0
  AllHeld ws c = All (λ w. Held (lease_name kind index w) c) ws

  -- A number that was handed out is in the range, new, and held; whatever happened, what was held
  -- before still is.
  abbrev Fresh : ℕ → ℕ → List ℕ → Result (Option ℕ) × C → Type 0
  Fresh first last ws (ok (some v), c) =
      (first ≤ v) × (v ≤ last) × All (λ w. w ≢ v) ws × AllHeld (v ∷ ws) c
  Fresh first last ws (ok none, c) = AllHeld ws c
  Fresh first last ws (err e, c) = AllHeld ws c

  AllHeld-create :
      (ws : List ℕ) (b : Lease) (c : C) → AllHeld ws c → AllHeld ws (leases.create b c).1
  AllHeld-create [] b c h = tt
  AllHeld-create (w ∷ ws) b c h =
      (laws.create_keeps b c (lease_name kind index w) h.0, AllHeld-create ws b c h.1)

  AllHeld-list :
      (ws : List ℕ) (pool : String) (c : C) → AllHeld ws c → AllHeld ws (leases.list_pool pool c).1
  AllHeld-list [] pool c h = tt
  AllHeld-list (w ∷ ws) pool c h =
      (laws.list_keeps pool c (lease_name kind index w) h.0, AllHeld-list ws pool c h.1)

  new_number :
      (ws : List ℕ) (v : ℕ) (c : C)
      → (Held (lease_name kind index v) c → ⊥)
      → AllHeld ws c
      → All (λ w. w ≢ v) ws
  new_number [] v c free h = tt
  new_number (w ∷ ws) v c free h =
      (λ e. free (subst (λ n. Held (lease_name kind index n) c) e h.0), new_number ws v c free h.1)

  module _ (cid : String) (left v : ℕ) (used : List ℕ) (c : C) where
    step_old :
        contains_number used v ≡ true
        → try_values leases kind index cid (suc left) v used c
          ≡ try_values leases kind index cid left (v + 1) used c
    unfolding try_values
    step_old e = ground arith

    module _ (new : contains_number used v ≡ false) where
      step_created :
          create_outcome (leases.create (lease_body kind index v cid) c).0 ≡ created
          → try_values leases kind index cid (suc left) v used c
            ≡ (ok (some v), (leases.create (lease_body kind index v cid) c).1)
      unfolding try_values
      step_created e = ground arith

      step_taken :
          create_outcome (leases.create (lease_body kind index v cid) c).0 ≡ taken
          → try_values leases kind index cid (suc left) v used c
            ≡ try_values leases kind index cid left
                (v + 1)
                (v ∷ used)
                (leases.create (lease_body kind index v cid) c).1
      unfolding try_values
      step_taken e = ground arith

      step_refused :
          (k : KuidError)
          → create_outcome (leases.create (lease_body kind index v cid) c).0 ≡ refused k
          → try_values leases kind index cid (suc left) v used c
            ≡ (err k, (leases.create (lease_body kind index v cid) c).1)
      unfolding try_values
      step_refused k e = ground arith

  try_values-Fresh :
      (cid : String) (first last : ℕ) (ws : List ℕ) (left v : ℕ) (used : List ℕ) (c : C)
      → first ≤ v
      → v + left ≤ last + 1
      → AllHeld ws c
      → Fresh first last ws (try_values leases kind index cid left v used c)
  unfolding try_values lease_body
  try_values-Fresh cid first last ws zero v used c p q h = h
  try_values-Fresh cid first last ws (suc left) v used c p q h =
      let b = lease_body kind index v cid in
      let kept = AllHeld-create ws b c h in
      elim (Bool-cases (contains_number used v)) [
        | inl old ↦
            subst (Fresh first last ws) (sym (step_old cid left v used c old))
              (try_values-Fresh cid first last ws left (v + 1) used c (omega arith) (omega arith) h)
        | inr new ↦ elim (Created-cases (create_outcome (leases.create b c).0)) [
          | inl e ↦
              let (status, body, replied, good) = created-success (leases.create b c).0 e in
              subst (Fresh first last ws) (sym (step_created cid left v used c new e)) (
                p,
                omega arith,
                new_number ws v c (laws.free b c status body replied good) h,
                (laws.lands b c status body replied good, kept),
              )
          | inr (inl e) ↦ subst (Fresh first last ws) (sym (step_taken cid left v used c new e)) (
              try_values-Fresh cid first last ws left (v + 1) (v ∷ used) (leases.create b c).1
                (omega arith) (omega arith) kept)
          | inr (inr (k, e)) ↦
              subst (Fresh first last ws) (sym (step_refused cid left v used c new k e)) kept
        ]
      ]

  after_listing-Fresh :
      (cid : String) (first last : ℕ) (ws : List ℕ) (r : Reply (List (Option String)) × C)
      → AllHeld ws r.1
      → first ≤ last + 1
      → Fresh first last ws (after_listing leases kind index cid first last r)
  unfolding after_listing
  after_listing-Fresh cid first last ws (no_answer, c) h p = h
  after_listing-Fresh cid first last ws (answer status body raws, c) h p =
      elim (Bool-cases (is_success status)) [
        | inl good ↦
            rw (good, Fresh)
              (try_values-Fresh cid first last ws (last + 1 - first) first (used_ids raws) c
                (omega arith) (omega arith) h)
        | inr bad ↦ rw (bad, Fresh) h
      ]

  -- The same for the whole call.
  abbrev pub Allocated : ℕ → ℕ → List ℕ → Result ℕ × C → Type 0
  Allocated first last ws (ok v, c) =
      (first ≤ v) × (v ≤ last) × All (λ w. w ≢ v) ws × AllHeld (v ∷ ws) c
  Allocated first last ws (err e, c) = AllHeld ws c

  after_round-Allocated :
      (cid : String) (first last : ℕ) (ws : List ℕ) (later : C → Result ℕ × C)
      (r : Result (Option ℕ) × C)
      → ((c : C) → AllHeld ws c → Allocated first last ws (later c))
      → Fresh first last ws r
      → Allocated first last ws (after_round leases kind index cid later r)
  unfolding after_round
  after_round-Allocated cid first last ws later (err e, c) k h = h
  after_round-Allocated cid first last ws later (ok (some v), c) k h = h
  after_round-Allocated cid first last ws later (ok none, c) k h = k c h

  one_round-Fresh :
      (cid : String) (first last : ℕ) (ws : List ℕ) (c : C)
      → first ≤ last + 1
      → AllHeld ws c
      → Fresh first last ws (one_round leases kind index cid first last c)
  unfolding one_round
  one_round-Fresh cid first last ws c p h =
      after_listing-Fresh cid first last ws (leases.list_pool (label_value index) c)
        (AllHeld-list ws (label_value index) c h) p

  rounds-Allocated :
      (cid : String) (first last : ℕ) (ws : List ℕ) (n : ℕ) (c : C)
      → first ≤ last + 1
      → AllHeld ws c
      → Allocated first last ws (rounds leases kind index cid n first last c)
  unfolding rounds
  rounds-Allocated cid first last ws zero c p h = h
  rounds-Allocated cid first last ws (suc n) c p h =
      after_round-Allocated cid first last ws (rounds leases kind index cid n first last)
        (one_round leases kind index cid first last c)
        (λ c' h'. rounds-Allocated cid first last ws n c' p h')
        (one_round-Fresh cid first last ws c p h)

  -- Whatever other clients do within the calls: if the fallback hands out a number, it lies in the
  -- pool's range, its lease is held afterwards, and it is none of the numbers of this kind and pool
  -- that were held before. Handing out or failing, it takes no held lease away.
  pub allocate_fallback_lease_fresh :
      (cid : String) (first last : ℕ) (ws : List ℕ) (c : C)
      → first ≤ last + 1
      → AllHeld ws c
      → Allocated first last ws (allocate_fallback_lease leases kind index cid first last c)
  unfolding allocate_fallback_lease
  allocate_fallback_lease_fresh cid first last ws c p h = rounds-Allocated cid first last ws 4 c p h
