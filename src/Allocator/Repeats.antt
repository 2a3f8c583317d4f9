-- ===== src/Allocator/Repeats.antt =====
-- agents/provisioning/allocator/agent.py: a repeated request is answered from the memo.
use agentic_netops.Allocator.{AllocationError, Allocators}
use agentic_netops.Allocator.Memo.{
  Memo, Reader, after_build, after_calls, ainvoke, alloc_node, allocate_once, by_reading, handed_on,
  read_message, recall, recalled,
}
use agentic_netops.Allocator.Parts.{Site}
use agentic_netops.Intent.{ServiceIntent}
use agentic_netops.Interpretation.{Interpretation}
use agentic_netops.Json.{Python}
use agentic_netops.Prelude.{
  List, Option, String, [], arith, eq_iff, inl, inr, none, refl, some, subst, ◌∷◌, ◌≡◌, ◌⊎◌,
}

module _ ⦃py : Python⦄ {C : Type 0} (kuid : Allocators C) (site : Site) (reader : Reader) where
  -- A build is remembered, and what was remembered under another digest stays.
  after_build-recall :
      (k j : String) (p : Memo) (x : ServiceIntent) (r : (AllocationError ⊎ ServiceIntent) × C)
      → recall k p ≡ none
      → recall j p ≡ some x
      → recall j (handed_on kuid site reader (after_build kuid site reader k [] p r)).1.0 ≡ some x
  unfolding handed_on after_build recall
  after_build-recall k j p x (inl e, c) h q = q
  after_build-recall k j p x (inr intent, c) h q = ground (arith, eq_iff k j)

  after_build-remembers :
      (k : String) (p : Memo) (x : ServiceIntent) (r : (AllocationError ⊎ ServiceIntent) × C)
      → (handed_on kuid site reader (after_build kuid site reader k [] p r)).0 ≡ inr x
      → recall k (handed_on kuid site reader (after_build kuid site reader k [] p r)).1.0 ≡ some x
  unfolding handed_on after_build recall
  after_build-remembers k p x (inl e, c) h = absurd (ground arith)
  after_build-remembers k p x (inr intent, c) h = ground (arith, eq_iff k k)

  allocate_once-recall :
      (i : Interpretation) (cid j : String) (o : Option ServiceIntent) (p : Memo) (c : C)
      (x : ServiceIntent)
      → recall (reader.key i) p ≡ o
      → recall j p ≡ some x
      → recall j
          (handed_on kuid site reader (allocate_once kuid site reader i cid o ([], p, c))).1.0
        ≡ some x
  unfolding allocate_once handed_on
  allocate_once-recall i cid j (some y) p c x h q = q
  allocate_once-recall i cid j none p c x h q = search after_build-recall

  allocate_once-remembers :
      (i : Interpretation) (cid : String) (o : Option ServiceIntent) (p : Memo) (c : C)
      (x : ServiceIntent)
      → recall (reader.key i) p ≡ o
      → (handed_on kuid site reader (allocate_once kuid site reader i cid o ([], p, c))).0 ≡ inr x
      → recall
          (reader.key i)
          (handed_on kuid site reader (allocate_once kuid site reader i cid o ([], p, c))).1.0
        ≡ some x
  unfolding allocate_once handed_on
  allocate_once-remembers i cid (some y) p c x h q = ground arith
  allocate_once-remembers i cid none p c x h q = search after_build-remembers

  by_reading-recall :
      (o : Option (Interpretation × String)) (j : String) (s : Memo × C) (x : ServiceIntent)
      → recall j s.0 ≡ some x
      → recall j (handed_on kuid site reader (by_reading kuid site reader o ([], s.0, s.1))).1.0
        ≡ some x
  unfolding by_reading handed_on recalled recall
  by_reading-recall none j s x h = h
  by_reading-recall (some (i, cid)) j s x h =
      allocate_once-recall i cid j (recall (reader.key i) s.0) s.0 s.1 x refl h

  ainvoke-recall :
      (content j : String) (s : Memo × C) (x : ServiceIntent)
      → recall j s.0 ≡ some x
      → recall j (ainvoke kuid site reader content s).1.0 ≡ some x
  unfolding ainvoke alloc_node
  ainvoke-recall content j s x h = by_reading-recall (read_message kuid site reader content) j s x h

  after_calls-recall :
      (contents : List String) (j : String) (s : Memo × C) (x : ServiceIntent)
      → recall j s.0 ≡ some x
      → recall j (after_calls kuid site reader contents s).0 ≡ some x
  unfolding after_calls
  after_calls-recall [] j s x h = h
  after_calls-recall (content ∷ contents) j s x h =
      after_calls-recall contents j _ x (ainvoke-recall content j s x h)

  -- A request whose digest is known is answered from the memo, and nothing changes.
  ainvoke-hit :
      (content cid : String) (i : Interpretation) (s : Memo × C) (x : ServiceIntent)
      → read_message kuid site reader content ≡ some (i, cid)
      → recall (reader.key i) s.0 ≡ some x
      → ainvoke kuid site reader content s ≡ (inr x, s)
  unfolding ainvoke alloc_node by_reading recalled recall allocate_once handed_on
  ainvoke-hit content cid i s x h q = rw h (rw q refl)

  ainvoke-remembers :
      (content cid : String) (i : Interpretation) (s : Memo × C) (x : ServiceIntent)
      → read_message kuid site reader content ≡ some (i, cid)
      → (ainvoke kuid site reader content s).0 ≡ inr x
      → recall (reader.key i) (ainvoke kuid site reader content s).1.0 ≡ some x
  unfolding ainvoke alloc_node by_reading recalled recall handed_on
  ainvoke-remembers content cid i s x h q =
      rw h (allocate_once-remembers i cid (recall (reader.key i) s.0) s.0 s.1 x refl (rw h at q))

  -- Once a request was answered with an intent, and whatever was asked in between, a request with
  -- the same digest is answered with the same intent, and neither the memo nor the cluster changes.
  pub ainvoke-repeats :
      (content content' cid cid' : String) (i i' : Interpretation) (between : List String)
      (s : Memo × C) (x : ServiceIntent)
      → read_message kuid site reader content ≡ some (i, cid)
      → read_message kuid site reader content' ≡ some (i', cid')
      → reader.key i ≡ reader.key i'
      → (ainvoke kuid site reader content s).0 ≡ inr x
      → ainvoke kuid site reader content'
          (after_calls kuid site reader between (ainvoke kuid site reader content s).1)
        ≡ (inr x, after_calls kuid site reader between (ainvoke kuid site reader content s).1)
  ainvoke-repeats content content' cid cid' i i' between s x h h' same q =
      ainvoke-hit content' cid' i' _ x h' (
        after_calls-recall between (reader.key i') _ x (
          subst (λ k. recall k (ainvoke kuid site reader content s).1.0 ≡ some x) same
            (ainvoke-remembers content cid i s x h q)))
