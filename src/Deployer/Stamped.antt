-- ===== src/Deployer/Stamped.antt =====
-- agents/provisioning/deployer/submit.py: what every manifest of a prepared bundle carries.
use agentic_netops.Deployer.{
  Context, Outcome, correlation_label, crashed, failed, intent_namespace, ok,
}
use agentic_netops.Deployer.Manifest.{
  stamp_hashed, Identity, is_allowed, is_hashable, is_object, is_valid_name, name_of, own_metadata,
  seen_before, stamp_annotations, stamp_checked, stamp_described, stamp_labels, stamp_metadata,
  stamp_named, stamp_one, stamped_with, with_default, with_metadata,
}
use agentic_netops.Json.{
  Fields, Json, end, get, get-put_ne, get-put_self, get-remove_ne, has_key, obj, put, remove, str,
}
use agentic_netops.Prelude.{
  Bool-cases, List, Option, String, ap, arith, eq_iff, false, if-Both, inl, inr, none, refl, some,
  str_eq, true, ◌&&◌, ◌∙◌, ◌≡◌, ◌≢◌,
}

-- An allow-listed manifest of a valid name, in the intent tier's namespace, with the labels that the
-- rollback and the pruning select by.
pub record IsStamped (ctx : Context) (m : Fields) : Type 0 where
  pub allowed : is_allowed (get "apiVersion" m) (get "kind" m) ≡ true
  pub spec_object : is_object (get "spec" m) ≡ true
  pub meta : Fields
  pub labels : Fields
  pub has_meta : get "metadata" m ≡ obj meta
  pub has_labels : get "labels" meta ≡ obj labels
  pub valid_name : is_valid_name (get "name" meta) ≡ true
  pub own_namespace : get "namespace" meta ≡ str intent_namespace
  pub own_correlation : get correlation_label labels ≡ str ctx.correlation_id
  pub own_tier : get "agentic-netops.io/tier" labels ≡ str "intent"

differ : (a b : String) → str_eq a b ≡ false → a ≢ b
differ a b h e = absurd (ground (arith, eq_iff a b))

get-with_default_ne : (j k : String) (fs : Fields) → j ≢ k → get j (with_default k fs) ≡ get j fs
unfolding with_default
get-with_default_ne j k fs h = elim (Bool-cases (has_key k fs)) [
  | inl there ↦ rw there refl
  | inr missing ↦ rw missing (get-put_ne j k (obj end) fs h)
]

-- A field that the server's fields and the two dictionaries do not touch.
get-own_metadata :
    (j : String) (fs : Fields)
    → j ≢ "annotations"
    → j ≢ "labels"
    → j ≢ "managedFields"
    → j ≢ "generation"
    → j ≢ "resourceVersion"
    → j ≢ "uid"
    → get j (own_metadata fs) ≡ get j (put "namespace" (str intent_namespace) fs)
unfolding own_metadata
get-own_metadata j fs a l m g r u =
    let m0 = put "namespace" (str intent_namespace) fs in
    let m1 = remove "uid" m0 in
    let m2 = remove "resourceVersion" m1 in
    let m3 = remove "generation" m2 in
    let m4 = remove "managedFields" m3 in
    get-with_default_ne j "annotations" (with_default "labels" m4) a
    ∙ get-with_default_ne j "labels" m4 l
    ∙ get-remove_ne j "managedFields" m3 m
    ∙ get-remove_ne j "generation" m2 g
    ∙ get-remove_ne j "resourceVersion" m1 r
    ∙ get-remove_ne j "uid" m0 u

own-namespace : (fs : Fields) → get "namespace" (own_metadata fs) ≡ str intent_namespace
own-namespace fs =
    get-own_metadata "namespace" fs (differ "namespace" "annotations" refl)
      (differ "namespace" "labels" refl) (differ "namespace" "managedFields" refl)
      (differ "namespace" "generation" refl) (differ "namespace" "resourceVersion" refl)
      (differ "namespace" "uid" refl)
    ∙ get-put_self "namespace" (str intent_namespace) fs

own-name : (fs : Fields) → get "name" (own_metadata fs) ≡ get "name" fs
own-name fs =
    get-own_metadata "name" fs (differ "name" "annotations" refl) (differ "name" "labels" refl)
      (differ "name" "managedFields" refl) (differ "name" "generation" refl)
      (differ "name" "resourceVersion" refl) (differ "name" "uid" refl)
    ∙ get-put_ne "name" "namespace" (str intent_namespace) fs (differ "name" "namespace" refl)

module _ (ctx : Context) (timestamp : String) where
  -- What the stamped metadata carries.
  abbrev Marked : Fields → Option Fields → Type 0
  Marked from none = Unit
  Marked from (some meta) =
      (labels : Fields) × (get "labels" meta ≡ obj labels)
      × (get "name" meta ≡ get "name" from)
      × (get "namespace" meta ≡ str intent_namespace)
      × (get correlation_label labels ≡ str ctx.correlation_id)
      × (get "agentic-netops.io/tier" labels ≡ str "intent")

  get-marked :
      (j : String) (fs labels annotations : Fields)
      → j ≢ "labels"
      → j ≢ "annotations"
      → get j (put "annotations" (obj annotations) (put "labels" (obj labels) fs)) ≡ get j fs
  get-marked j fs labels annotations l a =
      get-put_ne j "annotations" (obj annotations) (put "labels" (obj labels) fs) a
      ∙ get-put_ne j "labels" (obj labels) fs l

  stamped_with-Marked :
      (meta : Fields) (labels annotations : Json)
      → Marked meta (stamped_with ctx timestamp (own_metadata meta) labels annotations)
  unfolding stamped_with stamp_labels
  stamped_with-Marked meta (obj labels) (obj annotations) =
      let own = own_metadata meta in
      let with_cid = put correlation_label (str ctx.correlation_id) labels in
      let marked = stamp_labels ctx labels in
      let notes = stamp_annotations ctx timestamp annotations in
      (
        marked,
        get-put_ne "labels" "annotations" (obj notes) (put "labels" (obj marked) own)
              (differ "labels" "annotations" refl)
            ∙ get-put_self "labels" (obj marked) own,
        get-marked "name" own marked notes (differ "name" "labels" refl)
              (differ "name" "annotations" refl)
            ∙ own-name meta,
        get-marked "namespace" own marked notes (differ "namespace" "labels" refl)
              (differ "namespace" "annotations" refl)
            ∙ own-namespace meta,
        get-put_ne correlation_label "agentic-netops.io/tier" (str "intent") with_cid
              (differ correlation_label "agentic-netops.io/tier" refl)
            ∙ get-put_self correlation_label (str ctx.correlation_id) labels,
        get-put_self "agentic-netops.io/tier" (str "intent") with_cid,
      )
  stamped_with-Marked meta labels annotations = tt

  -- A stamped manifest, or no manifest.
  abbrev pub Good : Outcome (Fields × Identity) → Type 0
  Good (ok (m, identity)) = IsStamped ctx m
  Good (failed e) = Unit
  Good crashed = Unit

  with_metadata-Good :
      (m from : Fields) (identity : Identity) (o : Option Fields)
      → is_allowed (get "apiVersion" m) (get "kind" m) ≡ true
      → is_object (get "spec" m) ≡ true
      → is_valid_name (get "name" from) ≡ true
      → Marked from o
      → Good (with_metadata m identity o)
  unfolding with_metadata
  with_metadata-Good m from identity none a s n h = tt
  with_metadata-Good m from identity (some meta) a s n (labels, l, name, ns, cid, tier) =
      let kept : (k : String) → k ≢ "metadata" → get k (put "metadata" (obj meta) m) ≡ get k m =
        λ k ne. get-put_ne k "metadata" (obj meta) m ne in
      record {
        allowed =
            ap (λ v. is_allowed v (get "kind" (put "metadata" (obj meta) m)))
              (kept "apiVersion" (differ "apiVersion" "metadata" refl))
            ∙ ap (is_allowed (get "apiVersion" m)) (kept "kind" (differ "kind" "metadata" refl))
            ∙ a;
        spec_object = ap is_object (kept "spec" (differ "spec" "metadata" refl)) ∙ s;
        meta = meta;
        labels = labels;
        has_meta = get-put_self "metadata" (obj meta) m;
        has_labels = l;
        valid_name = ap is_valid_name name ∙ n;
        own_namespace = ns;
        own_correlation = cid;
        own_tier = tier;
      }

  module _ (seen : List Identity) (m : Fields) where
    stamp_checked-Good :
        (meta : Fields) (identity : Identity)
        → is_allowed (get "apiVersion" m) (get "kind" m) ≡ true
        → is_object (get "spec" m) ≡ true
        → is_valid_name (get "name" meta) ≡ true
        → Good (stamp_checked ctx timestamp seen m meta identity)
    unfolding stamp_checked stamp_metadata
    stamp_checked-Good meta identity a s n = elim (Bool-cases (seen_before seen identity)) [
      | inl old ↦ rw old tt
      | inr new ↦ rw new (
          with_metadata-Good m meta identity (stamp_metadata ctx timestamp meta) a s n (
            stamped_with-Marked meta (get "labels" (own_metadata meta))
              (get "annotations" (own_metadata meta))))
    ]

    stamp_named-Good :
        (meta : Fields)
        → is_allowed (get "apiVersion" m) (get "kind" m) ≡ true
        → Good (stamp_named ctx timestamp seen m meta)
    unfolding stamp_named
    stamp_named-Good meta a = elim (Bool-cases (is_valid_name (get "name" meta))) [
      | inr bad ↦ rw bad tt
      | inl n ↦ elim (Bool-cases (is_object (get "spec" m))) [
        | inr bad ↦ rw (n, bad) tt
        | inl s ↦
            rw (n, s)
              (stamp_checked-Good meta
                (name_of (get "apiVersion" m), name_of (get "kind" m), name_of (get "name" meta)) a
                s n)
      ]
    ]

    stamp_described-Good :
        (meta : Json)
        → is_allowed (get "apiVersion" m) (get "kind" m) ≡ true
        → Good (stamp_described ctx timestamp seen m meta)
    unfolding stamp_described
    stamp_described-Good (obj meta) a = stamp_named-Good meta a
    stamp_described-Good meta a = tt

  stamp_hashed-Good : (seen : List Identity) (m : Fields) → Good (stamp_hashed ctx timestamp seen m)
  unfolding stamp_hashed
  stamp_hashed-Good seen m = elim (Bool-cases (is_allowed (get "apiVersion" m) (get "kind" m))) [
    | inl a ↦ rw a (stamp_described-Good seen m (get "metadata" m) a)
    | inr bad ↦ rw bad tt
  ]

  pub stamp_one-Good : (seen : List Identity) (raw : Json) → Good (stamp_one ctx timestamp seen raw)
  unfolding stamp_one
  stamp_one-Good seen (obj m) =
      if-Both Good (is_hashable (get "apiVersion" m) && is_hashable (get "kind" m))
        (stamp_hashed-Good seen m) tt
  stamp_one-Good seen raw = tt
