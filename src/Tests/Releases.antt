-- ===== src/Tests/Releases.antt =====
-- agents/provisioning/allocator/kuid.py: a release on a small cluster.
use agentic_netops.Kuid.{Reply, answer}
use agentic_netops.Kuid.Others.{KeepLaws, release_by_correlation-keeps}
use agentic_netops.Kuid.Release.{
  LeaseMeta, ReleaseApi, after_claims, after_delete, after_lease, after_lease_list, delete_lease_of,
  delete_leases, delete_named, delete_names, is_own, own_name, release_by_correlation,
  release_claims, release_fallback_leases,
}
use agentic_netops.Prelude.{
  All, Bool, Bool-cases, List, String, [], ap, arith, eq_iff, false, if◌then◌else◌, inl, inr, none,
  refl, some, str_eq, subst, sym, true, ℕ, ◌∙◌, ◌∷◌, ◌≡◌, ◌≢◌, ◌⊎◌,
}

-- A cluster that holds one lease of another request, until that is deleted by its name.
abbrev other_lease : LeaseMeta
other_lease = record { correlation_id = some "other"; name = some "lease-1" }

abbrev own_lease : LeaseMeta
own_lease = record { correlation_id = some "mine"; name = some "lease-2" }

abbrev all_leases : Bool → List LeaseMeta
all_leases true = own_lease ∷ other_lease ∷ []
all_leases false = []

abbrev releases : ReleaseApi Bool
releases = record {
  list = λ plural cid c. (answer 200 "" (some "claim-1" ∷ none ∷ []), c);
  delete = λ plural name c. (answer 200 "" tt, c);
  list_leases = λ c. (answer 200 "" (all_leases c), c);
  delete_lease = λ name c. (answer 200 "" tt, if str_eq name "lease-1" then false else c);
}

abbrev Holds : LeaseMeta → Bool → Type 0
Holds m c = (m ≡ other_lease) × (c ≡ true)

release_counts : release_by_correlation releases "mine" true true ≡ (7, true)
unfolding release_by_correlation release_claims after_claims delete_names delete_named after_delete
    release_fallback_leases after_lease_list delete_leases delete_lease_of after_lease own_name
    is_own
release_counts = refl

spared :
    (m : LeaseMeta) (name : String) (c : Bool)
    → m.name ≢ some name
    → Holds m c
    → Holds m (if str_eq name "lease-1" then false else c)
spared m name c ne (same, there) = elim (Bool-cases (str_eq name "lease-1")) [
  | inl hit ↦ absurd (ne (ap LeaseMeta.name same ∙ ap some (sym (named hit))))
  | inr miss ↦ rw miss (same, there)
]
  where
    named : {name : String} → str_eq name "lease-1" ≡ true → name ≡ "lease-1"
    named {name} h = ground (arith, eq_iff name "lease-1")

-- Another name, or the same annotation.
abbrev Unlike : LeaseMeta → LeaseMeta → Type 0
Unlike m x = (m.name ≢ x.name) ⊎ (x.correlation_id ≡ m.correlation_id)

Unlike-All : (m : LeaseMeta) (c : Bool) → m ≡ other_lease → All (Unlike m) (all_leases c)
Unlike-All m true same = (
  inl (λ e. absurd (clash (sym (ap LeaseMeta.name same) ∙ e))),
  (inr (ap LeaseMeta.correlation_id (sym same)), tt),
)
  where
    clash : other_lease.name ≡ own_lease.name → ⊥
    clash e = ground (arith, eq_iff "lease-1" "lease-2")
Unlike-All m false same = tt

listed_leases :
    (xs ms : List LeaseMeta) (code : ℕ) (body : String)
    → Reply.answer 200 "" xs ≡ answer code body ms
    → xs ≡ ms
listed_leases xs ms code body e = ground arith

keep_laws : KeepLaws releases Holds
keep_laws = record {
  claims_keep = λ m plural cid c h. h;
  claim_delete_keeps = λ m plural name c h. h;
  listing_keeps = λ m c h. h;
  delete_keeps = λ m name c ne h. spared m name c ne h;
  one_of_name = λ m c code body ms h e.
      subst (All (Unlike m)) (listed_leases (all_leases c) ms code body e) (Unlike-All m c h.0);
}

foreign_lease : is_own releases "mine" (some "other") ≡ false
unfolding is_own
foreign_lease = refl

release_by_correlation-keeps_example :
    Holds other_lease (release_by_correlation releases "mine" true true).1
release_by_correlation-keeps_example =
    release_by_correlation-keeps releases Holds keep_laws "mine" other_lease foreign_lease true true
      (refl, refl)
