-- ===== src/Deployer/Survivors.antt =====
-- agents/provisioning/deployer/submit.py: what a rollback by the correlation label leaves in the
-- cluster.
use agentic_netops.Deployer.{
  IntentApi, Outcome, Reply, ResourceRef, answer, crashed, failed, ok, raised,
}
use agentic_netops.Deployer.Apply.{delete_all, delete_refs, rollback_listed, sort_out, was_deleted}
use agentic_netops.Deployer.Order.{ref_le, ref_order, refs_from}
use agentic_netops.Json.{Fields, Python}
use agentic_netops.Prelude.{
  Bool, Bool-cases, List, Option, String, [], ap, arith, false, if◌then◌else◌, inl, inr, none, refl,
  some, subst, sym, true, ◌∙◌, ◌∷◌, ◌≡◌, ◌⊎◌,
}
use agentic_netops.Prelude.Sort.{insert_sorted, sort}

-- Which object a reference names.
abbrev pub Name : Type 0
Name = String × String × String × String

abbrev pub full_name : ResourceRef → Name
full_name r = (r.api_version, r.kind, r.namespace, r.name)

-- Some reference names the object.
abbrev pub Names : List ResourceRef → Name → Type 0
Names [] k = ⊥
Names (r ∷ rs) k = (full_name r ≡ k) ⊎ Names rs k

-- What the Kubernetes API documents of the calls of a rollback: a listing by the correlation label
-- is complete and changes nothing; a deletion that returns True has removed the object or, where
-- finalizers keep it, has marked it as being deleted; and a deletion neither makes an object nor
-- takes such a mark away. `Live cid k c` says that the object `k` of the cluster `c` has the label
-- and is not being deleted.
pub record RollbackLaws ⦃py : Python⦄ {C : Type 0} (cluster : IntentApi C)
    (Live : String → Name → C → Type 0) : Type 0 where
  pub list_keeps : (cid : String) (c : C) → (cluster.list_by_correlation cid c).1 ≡ c
  pub list_complete :
      (cid : String) (c : C) (objects : List Fields) (refs : List ResourceRef) (k : Name)
      → (cluster.list_by_correlation cid c).0 ≡ answer objects
      → refs_from objects ≡ some refs
      → Live cid k c
      → Names refs k
  pub delete_ends :
      (cid : String) (r : ResourceRef) (c : C)
      → (cluster.delete r c).0 ≡ answer true
      → Live cid (full_name r) (cluster.delete r c).1
      → ⊥
  pub delete_makes_none :
      (cid : String) (r : ResourceRef) (c : C) (k : Name)
      → Live cid k (cluster.delete r c).1
      → Live cid k c

insert-Names :
    (le : ResourceRef → ResourceRef → Bool) (r : ResourceRef) (rs : List ResourceRef) (k : Name)
    → Names (r ∷ rs) k
    → Names (insert_sorted le r rs) k
unfolding insert_sorted
insert-Names le r [] k h = h
insert-Names le r (q ∷ qs) k h = choose (le r q) (insert-Names le r qs k) h
  where
    choose :
        (b : Bool)
        → (Names (r ∷ qs) k → Names (insert_sorted le r qs) k)
        → Names (r ∷ q ∷ qs) k
        → Names (if b then r ∷ q ∷ qs else q ∷ insert_sorted le r qs) k
    choose true later h = h
    choose false later (inl e) = inr (later (inl e))
    choose false later (inr (inl e)) = inl e
    choose false later (inr (inr i)) = inr (later (inr i))

ref_order-Names : (rs : List ResourceRef) (k : Name) → Names rs k → Names (ref_order rs) k
unfolding ref_order sort
ref_order-Names [] k h = absurd h
ref_order-Names (r ∷ rs) k (inl e) = insert-Names ref_le r (ref_order rs) k (inl e)
ref_order-Names (r ∷ rs) k (inr i) =
    insert-Names ref_le r (ref_order rs) k (inr (ref_order-Names rs k i))

module _ ⦃py : Python⦄ {C : Type 0} (cluster : IntentApi C) (Live : String → Name → C → Type 0)
    (laws : RollbackLaws cluster Live) (cid : String) where
  deleted-answer : (reply : Reply Bool) → was_deleted cluster reply ≡ true → reply ≡ answer true
  unfolding was_deleted
  deleted-answer (answer b) e = ap answer e
  deleted-answer (raised message) e = absurd (ground arith)

  delete_all-makes_none :
      (rs : List ResourceRef) (c : C) (k : Name)
      → Live cid k (delete_all cluster rs c).1
      → Live cid k c
  unfolding delete_all
  delete_all-makes_none [] c k h = h
  delete_all-makes_none (r ∷ rs) c k h =
      laws.delete_makes_none cid r c k (delete_all-makes_none rs (cluster.delete r c).1 k h)

  sort_out-Names :
      (b : Bool) (r : ResourceRef) (sorted : List ResourceRef × List ResourceRef) (k : Name)
      → Names sorted.1 k
      → Names (sort_out cluster b r sorted).1 k
  unfolding sort_out
  sort_out-Names true r sorted k h = h
  sort_out-Names false r sorted k h = inr h

  sort_out-head :
      (b : Bool) (r : ResourceRef) (sorted : List ResourceRef × List ResourceRef)
      → b ≡ false
      → Names (sort_out cluster b r sorted).1 (full_name r)
  unfolding sort_out
  sort_out-head true r sorted e = absurd (ground arith)
  sort_out-head false r sorted e = inl refl

  -- An object that was asked to go and is still there is among those that were not deleted.
  delete_all-Names :
      (rs : List ResourceRef) (c : C) (k : Name)
      → Names rs k
      → Live cid k (delete_all cluster rs c).1
      → Names (delete_all cluster rs c).0.1 k
  unfolding delete_all
  delete_all-Names [] c k i h = absurd i
  delete_all-Names (r ∷ rs) c k (inr i) h =
      sort_out-Names (was_deleted cluster (cluster.delete r c).0) r
        (delete_all cluster rs (cluster.delete r c).1).0 k
        (delete_all-Names rs (cluster.delete r c).1 k i h)
  delete_all-Names (r ∷ rs) c k (inl e) h =
      let later = delete_all cluster rs (cluster.delete r c).1 in
      subst (Names (sort_out cluster (was_deleted cluster (cluster.delete r c).0) r later.0).1) e
        (elim (Bool-cases (was_deleted cluster (cluster.delete r c).0)) [
          | inl gone ↦ absurd (
              laws.delete_ends cid r c (deleted-answer (cluster.delete r c).0 gone) (
                subst (λ n. Live cid n (cluster.delete r c).1) (sym e)
                  (delete_all-makes_none rs (cluster.delete r c).1 k h)))
          | inr left ↦ sort_out-head (was_deleted cluster (cluster.delete r c).0) r later.0 left
        ])

  -- A listing by the correlation id raised.
  abbrev pub Unlisted : Type 0
  Unlisted = (c : C) × (message : String) × ((cluster.list_by_correlation cid c).0 ≡ raised message)

  -- A listing was answered with an object that has no reference.
  abbrev pub Unreadable : Type 0
  Unreadable =
      (c : C) × (objects : List Fields) × ((cluster.list_by_correlation cid c).0 ≡ answer objects)
      × (refs_from objects ≡ none)

  -- Whatever is live afterwards is among those that were not deleted.
  abbrev pub LeftNamed : Outcome (List ResourceRef × List ResourceRef) × C → Type 0
  LeftNamed (ok (gone, left), c) = (k : Name) → Live cid k c → Names left k
  LeftNamed (failed e, c) = Unlisted
  LeftNamed (crashed, c) = Unreadable

  delete_refs-LeftNamed :
      (refs : List ResourceRef) (c : C)
      → ((k : Name) → Live cid k c → Names refs k)
      → LeftNamed (delete_refs cluster (some refs) c)
  unfolding delete_refs
  delete_refs-LeftNamed refs c complete k h =
      delete_all-Names (ref_order refs) c k
        (ref_order-Names refs k (complete k (delete_all-makes_none (ref_order refs) c k h))) h

  listed-LeftNamed :
      (objects : List Fields) (found : Option (List ResourceRef)) (c : C)
      → ((refs : List ResourceRef) (k : Name) → found ≡ some refs → Live cid k c → Names refs k)
      → (found ≡ none → Unreadable)
      → LeftNamed (delete_refs cluster found c)
  unfolding delete_refs
  listed-LeftNamed objects none c complete unread = unread refl
  listed-LeftNamed objects (some refs) c complete unread =
      delete_refs-LeftNamed refs c (λ k h. complete refs k refl h)

  pub rollback-LeftNamed :
      (c : C) (reply : Reply (List Fields) × C)
      → reply.1 ≡ c
      → reply.0 ≡ (cluster.list_by_correlation cid c).0
      → LeftNamed (rollback_listed cluster reply)
  unfolding rollback_listed
  rollback-LeftNamed c (raised message, b) h e = (c, message, sym e)
  rollback-LeftNamed c (answer objects, b) h e =
      listed-LeftNamed objects (refs_from objects) b
        (λ refs k f o.
          laws.list_complete cid b objects refs k
            (ap (λ d. (cluster.list_by_correlation cid d).0) h ∙ sym e) f o)
        (λ f. (c, objects, sym e, f))
