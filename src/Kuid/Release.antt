-- ===== src/Kuid/Release.antt =====
-- agents/provisioning/allocator/kuid.py: `release_by_correlation` and `_release_fallback_leases`.
use agentic_netops.Kuid.{Reply, answer, is_success, no_answer}
use agentic_netops.Prelude.{
  Bool, List, Option, String, [], false, has_text, has_text?, if◌then◌else◌, none, some, str_eq, ℕ,
  ◌&&◌, ◌+◌, ◌∷◌,
}

-- A lease in a listing: the correlation id of its annotation, and its name.
pub record LeaseMeta : Type 0 where
  pub correlation_id : Option String
  pub name : Option String

-- The calls of a release. A listing of claims is by the plural of the resource and the correlation
-- id, and returns the names; a listing of leases returns all of this tier's leases.
pub record ReleaseApi (C : Type 0) : Type 0 where
  pub list : String → String → C → Reply (List (Option String)) × C
  pub delete : String → String → C → Reply (Unit {0}) × C
  pub list_leases : C → Reply (List LeaseMeta) × C
  pub delete_lease : String → C → Reply (Unit {0}) × C

-- `deleted += 1` on a success
abbrev pub counted : ℕ → ℕ → ℕ
counted code n = if is_success code then n + 1 else n

-- The served claim resources.
abbrev pub plurals : List String
plurals = "claims" ∷ "ipclaims" ∷ "genidclaims" ∷ "asclaims" ∷ "vlanclaims" ∷ "extcommclaims" ∷ []

module _ {C : Type 0} (api : ReleaseApi C) (cid : String) where
  -- What follows a deletion; an exception ends the scan of this resource, and keeps the count.
  unfoldable pub after_delete : (ℕ → C → ℕ × C) → ℕ → Reply (Unit {0}) × C → ℕ × C
  after_delete later n (no_answer, c) = (n, c)
  after_delete later n (answer code body _, c) = later (counted code n) c

  -- The body of `for item in items`: an item without a name is passed over.
  unfoldable pub delete_named : String → Option String → (ℕ → C → ℕ × C) → ℕ → C → ℕ × C
  unfolding after_delete
  delete_named plural none later n c = later n c
  delete_named plural (some name) later n c =
      if has_text name then after_delete later n (api.delete plural name c) else later n c

  unfoldable pub delete_names : String → List (Option String) → ℕ → C → ℕ × C
  unfolding delete_named
  delete_names plural [] n c = (n, c)
  delete_names plural (name ∷ names) n c = delete_named plural name (delete_names plural names) n c

  -- One resource; a listing that fails is passed over.
  unfoldable pub after_claims : String → ℕ → Reply (List (Option String)) × C → ℕ × C
  unfolding delete_names
  after_claims plural n (no_answer, c) = (n, c)
  after_claims plural n (answer code body names, c) =
      if is_success code then delete_names plural names n c else (n, c)

  -- `for group, plural in served`
  unfoldable pub release_claims : List String → ℕ → C → ℕ × C
  unfolding after_claims
  release_claims [] n c = (n, c)
  release_claims (plural ∷ rest) n c =
      let (n', c') = after_claims plural n (api.list plural cid c) in release_claims rest n' c'

  -- Whether the lease's annotation names this correlation id.
  unfoldable pub is_own : Option String → Bool
  is_own none = false
  is_own (some s) = str_eq s cid

  -- The name to delete: that of a lease of this correlation id.
  unfoldable pub own_name : LeaseMeta → Option String
  unfolding is_own
  own_name m = if is_own m.correlation_id && has_text? m.name then m.name else none

  -- An exception ends the scan, and the count is then 0.
  unfoldable pub after_lease : (ℕ → C → ℕ × C) → ℕ → Reply (Unit {0}) × C → ℕ × C
  after_lease later n (no_answer, c) = (0, c)
  after_lease later n (answer code body _, c) = later (counted code n) c

  unfoldable pub delete_lease_of : Option String → (ℕ → C → ℕ × C) → ℕ → C → ℕ × C
  unfolding after_lease
  delete_lease_of none later n c = later n c
  delete_lease_of (some name) later n c = after_lease later n (api.delete_lease name c)

  unfoldable pub delete_leases : List LeaseMeta → ℕ → C → ℕ × C
  unfolding delete_lease_of
  delete_leases [] n c = (n, c)
  delete_leases (m ∷ ms) n c = delete_lease_of (own_name m) (delete_leases ms) n c

  unfoldable pub after_lease_list : Reply (List LeaseMeta) × C → ℕ × C
  unfolding delete_leases
  after_lease_list (no_answer, c) = (0, c)
  after_lease_list (answer code body ms, c) =
      if is_success code then delete_leases ms 0 c else (0, c)

  -- `_release_fallback_leases`
  unfoldable pub release_fallback_leases : C → ℕ × C
  unfolding after_lease_list
  release_fallback_leases c = after_lease_list (api.list_leases c)

  -- `release_by_correlation`; the flag says whether the lease fallback is enabled.
  unfoldable pub release_by_correlation : Bool → C → ℕ × C
  unfolding release_claims release_fallback_leases
  release_by_correlation fallback c =
      let (n, c') = release_claims plurals 0 c in
      if fallback then (let (m, c'') = release_fallback_leases c' in (n + m, c'')) else (n, c')
