-- ===== src/Deployer/Complete.antt =====
-- agents/provisioning/deployer/submit.py: what an answered listing of `KubernetesIntentClient` holds.
use agentic_netops.Deployer.{Reply, answer, raised}
use agentic_netops.Deployer.Client.{
  Http, Response, after_kind, is_2xx, items_of, iterated, joined, kubernetes_intent_client,
  list_kinds, listed_objects, plurals,
}
use agentic_netops.Json.{
  Fields, Json, Python, arr, bool, dicts_of, end, field, get, has_key, null, num, obj, str,
}
use agentic_netops.Prelude.{
  Bool-cases, List, Option, String, [], ap, arith, false, inl, inr, none, refl, some, subst, sym,
  true, ◌++◌, ◌==◌, ◌∙◌, ◌∷◌, ◌≡◌, ◌⊎◌,
}

-- What can be the items of a list's body.
abbrev pub IsIterable : Json → Type 0
IsIterable null = ⊥
IsIterable (bool b) = ⊥
IsIterable (num n) = ⊥
IsIterable _ = Unit

-- The objects of a body: the dictionaries of its items, which are not null or a scalar if they are
-- given; a body that is no dictionary holds none, and one that is no JSON is not read.
abbrev pub Holds : Option Json → List Fields → Type 0
Holds none found = ⊥
Holds (some (obj fs)) found =
    (found ≡ dicts_of (get "items" fs)) × (has_key "items" fs ≡ true → IsIterable (get "items" fs))
Holds (some _) found = found ≡ []

get-missing : (k : String) (fs : Fields) → has_key k fs ≡ false → get k fs ≡ null
unfolding has_key get
get-missing k end h = refl
get-missing k (field j v fs) h = ground (arith, get-missing k fs)

iterated-IsIterable :
    (j : Json) (found : List Fields)
    → iterated j ≡ answer found
    → (found ≡ dicts_of j) × IsIterable j
unfolding iterated dicts_of
iterated-IsIterable (arr xs) found e = (ground arith, tt)
iterated-IsIterable (str s) found e = (ground arith, tt)
iterated-IsIterable (obj fs) found e = (ground arith, tt)
iterated-IsIterable null found e = absurd (ground arith)
iterated-IsIterable (bool b) found e = absurd (ground arith)
iterated-IsIterable (num n) found e = absurd (ground arith)

items_of-Holds :
    (body : Option Json) (found : List Fields) → items_of body ≡ answer found → Holds body found
unfolding items_of dicts_of
items_of-Holds none found e = absurd (ground arith)
items_of-Holds (some (obj fs)) found e = elim (Bool-cases (has_key "items" fs)) [
  | inl given ↦
      let h = iterated-IsIterable (get "items" fs) found (rw given at e) in (h.0, λ _. h.1)
  | inr missing ↦ (
    ground arith ∙ sym (ap dicts_of (get-missing "items" fs missing)),
    λ given. absurd (ground arith),
  )
]
items_of-Holds (some null) found e = ground arith
items_of-Holds (some (bool b)) found e = ground arith
items_of-Holds (some (num n)) found e = ground arith
items_of-Holds (some (str s)) found e = ground arith
items_of-Holds (some (arr xs)) found e = ground arith

module _ {C : Type 0} (http : Http C) where
  -- A listing that was read: 404 and no objects, or a success and the objects of its body.
  abbrev pub IsRead : Option Response → List Fields → Type 0
  IsRead none found = ⊥
  IsRead (some r) found =
      ((r.code ≡ 404) × (found ≡ [])) ⊎ ((is_2xx r.code ≡ true) × Holds r.body found)

  -- Every kind was read, and the objects stand one kind after the other.
  abbrev pub AllRead : String → List String → C → List Fields → Type 0
  AllRead cid [] c objects = objects ≡ []
  AllRead cid (p ∷ ps) c objects =
      (found : List Fields) × (rest : List Fields) × (objects ≡ found ++ rest)
      × IsRead (http.list p (some cid) c).0 found
      × AllRead cid ps (http.list p (some cid) c).1 rest

  abbrev AllReadIf : String → List String → C → Reply (List Fields) × C → Type 0
  AllReadIf cid ps c (answer objects, d) = AllRead cid ps c objects
  AllReadIf cid ps c (raised message, d) = Unit

  listed_objects-IsRead :
      (response : Option Response) (found : List Fields)
      → listed_objects response ≡ answer found
      → IsRead response found
  unfolding listed_objects
  listed_objects-IsRead none found e = absurd (ground arith)
  listed_objects-IsRead (some r) found e = elim (Bool-cases (r.code == 404)) [
    | inl missing ↦ inl (ground arith, ground arith)
    | inr there ↦ elim (Bool-cases (is_2xx r.code)) [
      | inl good ↦ inr (good, items_of-Holds r.body found (ground arith))
      | inr bad ↦ absurd (ground arith)
    ]
  ]

  joined-AllReadIf :
      (cid p : String) (ps : List String) (c : C) (found : List Fields)
      (r : Reply (List Fields) × C)
      → IsRead (http.list p (some cid) c).0 found
      → AllReadIf cid ps (http.list p (some cid) c).1 r
      → AllReadIf cid (p ∷ ps) c (joined http found r)
  unfolding joined
  joined-AllReadIf cid p ps c found (answer rest, d) h k = (found, rest, refl, h, k)
  joined-AllReadIf cid p ps c found (raised message, d) h k = tt

  after_kind-AllReadIf :
      (cid p : String) (ps : List String) (c : C) (later : C → Reply (List Fields) × C)
      (reply : Reply (List Fields))
      → ((found : List Fields) → reply ≡ answer found → IsRead (http.list p (some cid) c).0 found)
      → ((d : C) → AllReadIf cid ps d (later d))
      → AllReadIf cid (p ∷ ps) c (after_kind http later reply (http.list p (some cid) c).1)
  unfolding after_kind
  after_kind-AllReadIf cid p ps c later (answer found) h k =
      let d = (http.list p (some cid) c).1 in
      joined-AllReadIf cid p ps c found (later d) (h found refl) (k d)
  after_kind-AllReadIf cid p ps c later (raised message) h k = tt

  list_kinds-AllReadIf :
      (cid : String) (ps : List String) (c : C) → AllReadIf cid ps c (list_kinds http ps cid c)
  unfolding list_kinds
  list_kinds-AllReadIf cid [] c = refl
  list_kinds-AllReadIf cid (p ∷ ps) c =
      let response = (http.list p (some cid) c).0 in
      after_kind-AllReadIf cid p ps c (list_kinds http ps cid) (listed_objects response)
        (listed_objects-IsRead response) (list_kinds-AllReadIf cid ps)

  module _ ⦃py : Python⦄ where
    answered :
        (cid : String) (c : C) (objects : List Fields) (r : Reply (List Fields) × C)
        → r.0 ≡ answer objects
        → AllReadIf cid plurals c r
        → AllRead cid plurals c objects
    answered cid c objects (answer found, d) e k = subst (AllRead cid plurals c) (ground arith) k
    answered cid c objects (raised message, d) e k = absurd (ground arith)

    -- If the client answers a listing by correlation id, then each allow-listed kind was read, with a
    -- success or a 404, and the answer is the objects of the bodies, one kind after the other: a
    -- failed read of one kind, or a body whose items are null or a scalar, is never passed off as a
    -- kind without objects.
    pub list_by_correlation_complete :
        (cid : String) (c : C) (objects : List Fields)
        → ((kubernetes_intent_client http).list_by_correlation cid c).0 ≡ answer objects
        → AllRead cid plurals c objects
    unfolding kubernetes_intent_client
    list_by_correlation_complete cid c objects e =
        answered cid c objects (list_kinds http plurals cid c) e
          (list_kinds-AllReadIf cid plurals c)
