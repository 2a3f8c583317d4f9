-- ===== src/Kuid/Others.antt =====
-- agents/provisioning/allocator/kuid.py: what a release leaves alone.
use agentic_netops.Kuid.{Reply, answer, is_success, no_answer}
use agentic_netops.Kuid.Release.{
  LeaseMeta, ReleaseApi, after_claims, after_delete, after_lease, after_lease_list, counted,
  delete_lease_of, delete_leases, delete_named, delete_names, is_own, own_name, plurals,
  release_by_correlation, release_claims, release_fallback_leases,
}
use agentic_netops.Prelude.{
  All, Bool, Bool-cases, List, Option, String, [], ap, arith, false, has_text, inl, inr, none, refl,
  some, sym, true, ℕ, ◌∙◌, ◌∷◌, ◌≡◌, ◌≢◌, ◌⊎◌,
}

-- What the API documents: a lease goes only by the deletion of its name, and a listing has one lease
-- of a name, with the annotation that it has. `Holds m c` says that the cluster has the lease `m`.
pub record KeepLaws {C : Type 0} (api : ReleaseApi C) (Holds : LeaseMeta → C → Type 0)
    : Type 0 where
  pub claims_keep :
      (m : LeaseMeta) (plural cid : String) (c : C) → Holds m c → Holds m (api.list plural cid c).1
  pub claim_delete_keeps :
      (m : LeaseMeta) (plural name : String) (c : C)
      → Holds m c
      → Holds m (api.delete plural name c).1
  pub listing_keeps : (m : LeaseMeta) (c : C) → Holds m c → Holds m (api.list_leases c).1
  pub delete_keeps :
      (m : LeaseMeta) (name : String) (c : C)
      → m.name ≢ some name
      → Holds m c
      → Holds m (api.delete_lease name c).1
  pub one_of_name :
      (m : LeaseMeta) (c : C) (code : ℕ) (body : String) (ms : List LeaseMeta)
      → Holds m c
      → (api.list_leases c).0 ≡ answer code body ms
      → All (λ x. (m.name ≢ x.name) ⊎ (x.correlation_id ≡ m.correlation_id)) ms

module _ {C : Type 0} (api : ReleaseApi C) (Holds : LeaseMeta → C → Type 0)
    (laws : KeepLaws api Holds) (cid : String) (m : LeaseMeta)
    (foreign : is_own api cid m.correlation_id ≡ false) where
  after_delete-keeps :
      (later : ℕ → C → ℕ × C) (n : ℕ) (r : Reply (Unit {0}) × C)
      → ((k : ℕ) (d : C) → Holds m d → Holds m (later k d).1)
      → Holds m r.1
      → Holds m (after_delete api cid later n r).1
  unfolding after_delete
  after_delete-keeps later n (no_answer, c) k h = h
  after_delete-keeps later n (answer code body u, c) k h = k (counted code n) c h

  delete_named-keeps :
      (plural : String) (name : Option String) (later : ℕ → C → ℕ × C) (n : ℕ) (c : C)
      → ((k : ℕ) (d : C) → Holds m d → Holds m (later k d).1)
      → Holds m c
      → Holds m (delete_named api cid plural name later n c).1
  unfolding delete_named
  delete_named-keeps plural none later n c k h = k n c h
  delete_named-keeps plural (some name) later n c k h = elim (Bool-cases (has_text name)) [
    | inl given ↦ rw given (
        after_delete-keeps later n (api.delete plural name c) k
          (laws.claim_delete_keeps m plural name c h))
    | inr empty ↦ rw empty (k n c h)
  ]

  delete_names-keeps :
      (plural : String) (names : List (Option String)) (n : ℕ) (c : C)
      → Holds m c
      → Holds m (delete_names api cid plural names n c).1
  unfolding delete_names
  delete_names-keeps plural [] n c h = h
  delete_names-keeps plural (name ∷ names) n c h =
      delete_named-keeps plural name (delete_names api cid plural names) n c
        (delete_names-keeps plural names) h

  after_claims-keeps :
      (plural : String) (n : ℕ) (r : Reply (List (Option String)) × C)
      → Holds m r.1
      → Holds m (after_claims api cid plural n r).1
  unfolding after_claims
  after_claims-keeps plural n (no_answer, c) h = h
  after_claims-keeps plural n (answer code body names, c) h = elim (Bool-cases (is_success code)) [
    | inl good ↦ rw good (delete_names-keeps plural names n c h)
    | inr bad ↦ rw bad h
  ]

  release_claims-keeps :
      (plurals : List String) (n : ℕ) (c : C)
      → Holds m c
      → Holds m (release_claims api cid plurals n c).1
  unfolding release_claims
  release_claims-keeps [] n c h = h
  release_claims-keeps (plural ∷ rest) n c h =
      let found = api.list plural cid c in
      release_claims-keeps rest (after_claims api cid plural n found).0
        (after_claims api cid plural n found).1
        (after_claims-keeps plural n found (laws.claims_keep m plural cid c h))

  after_lease-keeps :
      (later : ℕ → C → ℕ × C) (n : ℕ) (r : Reply (Unit {0}) × C)
      → ((k : ℕ) (d : C) → Holds m d → Holds m (later k d).1)
      → Holds m r.1
      → Holds m (after_lease api cid later n r).1
  unfolding after_lease
  after_lease-keeps later n (no_answer, c) k h = h
  after_lease-keeps later n (answer code body u, c) k h = k (counted code n) c h

  own_name-cases :
      (x : LeaseMeta) (name : String)
      → own_name api cid x ≡ some name
      → (x.name ≡ some name) × (is_own api cid x.correlation_id ≡ true)
  unfolding own_name
  own_name-cases x name e = ground arith

  -- A lease that is deleted has another name.
  other_name :
      (x : LeaseMeta) (name : String)
      → (m.name ≢ x.name) ⊎ (x.correlation_id ≡ m.correlation_id)
      → own_name api cid x ≡ some name
      → m.name ≢ some name
  other_name x name (inl ne) e k = ne (k ∙ sym (own_name-cases x name e).0)
  other_name x name (inr same) e k =
      clash (sym foreign ∙ ap (is_own api cid) (sym same) ∙ (own_name-cases x name e).1)
    where
      clash : false ≡ true → ⊥
      clash h = ground arith

  delete_lease_of-keeps :
      (found : Option String) (later : ℕ → C → ℕ × C) (n : ℕ) (c : C)
      → ((name : String) → found ≡ some name → m.name ≢ some name)
      → ((k : ℕ) (d : C) → Holds m d → Holds m (later k d).1)
      → Holds m c
      → Holds m (delete_lease_of api cid found later n c).1
  unfolding delete_lease_of
  delete_lease_of-keeps none later n c ne k h = k n c h
  delete_lease_of-keeps (some name) later n c ne k h =
      after_lease-keeps later n (api.delete_lease name c) k
        (laws.delete_keeps m name c (ne name refl) h)

  delete_leases-keeps :
      (xs : List LeaseMeta) (n : ℕ) (c : C)
      → All (λ x. (m.name ≢ x.name) ⊎ (x.correlation_id ≡ m.correlation_id)) xs
      → Holds m c
      → Holds m (delete_leases api cid xs n c).1
  unfolding delete_leases
  delete_leases-keeps [] n c one h = h
  delete_leases-keeps (x ∷ xs) n c one h =
      delete_lease_of-keeps (own_name api cid x) (delete_leases api cid xs) n c
        (λ name e. other_name x name one.0 e) (λ k d h'. delete_leases-keeps xs k d one.1 h') h

  after_lease_list-keeps :
      (c : C) (r : Reply (List LeaseMeta) × C)
      → (api.list_leases c).0 ≡ r.0
      → Holds m c
      → Holds m r.1
      → Holds m (after_lease_list api cid r).1
  unfolding after_lease_list
  after_lease_list-keeps c (no_answer, d) e h k = k
  after_lease_list-keeps c (answer code body xs, d) e h k = elim (Bool-cases (is_success code)) [
    | inl good ↦ rw good (delete_leases-keeps xs 0 d (laws.one_of_name m c code body xs h e) k)
    | inr bad ↦ rw bad k
  ]

  -- Whether or not calls fail on the way, a release by a correlation id leaves every lease in place
  -- whose annotation names another correlation id, or none.
  pub release_by_correlation-keeps :
      (fallback : Bool) (c : C) → Holds m c → Holds m (release_by_correlation api cid fallback c).1
  unfolding release_by_correlation release_fallback_leases
  release_by_correlation-keeps false c h = release_claims-keeps plurals 0 c h
  release_by_correlation-keeps true c h =
      let d = (release_claims api cid plurals 0 c).1 in
      let k = release_claims-keeps plurals 0 c h in
      after_lease_list-keeps d (api.list_leases d) refl k (laws.listing_keeps m d k)
