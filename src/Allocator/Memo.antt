-- ===== src/Allocator/Memo.antt =====
-- agents/provisioning/allocator/agent.py: `_alloc_node`, with the allocations that it remembers.
use agentic_netops.Allocator.{AllocationError, Allocators, malformed}
use agentic_netops.Allocator.Building.{build_intent}
use agentic_netops.Allocator.Parts.{Site}
use agentic_netops.Intent.{ServiceIntent}
use agentic_netops.Interpretation.{Interpretation}
use agentic_netops.Json.{Fields, Json, Python, get, obj, remove, text_or}
use agentic_netops.Prelude.{
  List, Option, String, [], if◌then◌else◌, inl, inr, none, or_else, some, str_eq, ◌∷◌, ◌⊎◌,
}

-- What the node reads from outside: the fenced part of a message, the JSON value of a text, the
-- pydantic model, and the digest of an interpretation's canonical JSON.
pub record Reader : Type 0 where
  pub fenced : String → Option String
  pub load : String → Option Json
  pub validate : Fields → Option Interpretation
  pub key : Interpretation → String

-- The remembered allocations, by the digest of the interpretation.
abbrev pub Memo : Type 0
Memo = List (String × ServiceIntent)

-- The answer of the node: no message, a payload that is not valid, or an intent.
pub data Answer : Type 0 where
  no_interpretation invalid_payload : Answer
  allocated : ServiceIntent → Answer

-- `d.get(k)`
unfoldable pub recall : String → Memo → Option ServiceIntent
recall k [] = none
recall k ((j, intent) ∷ rest) =
    let later = recall k rest in if str_eq j k then some intent else later

-- The memo of the thread, or else that of the process
unfoldable pub recalled : Option ServiceIntent → Option ServiceIntent → Option ServiceIntent
recalled none o = o
recalled (some intent) o = some intent

module _ ⦃py : Python⦄ {C : Type 0} (kuid : Allocators C) (site : Site) (reader : Reader) where
  -- The interpretation and the correlation id that a message carries.
  unfoldable pub read_fields : Option Json → Option (Interpretation × String)
  unfolding remove
  read_fields (some (obj fields)) = elim (reader.validate (remove "correlationId" fields)) [
    | none ↦ none
    | some i ↦ some (i, text_or "" (get "correlationId" fields))
  ]
  read_fields _ = none

  unfoldable pub read_message : String → Option (Interpretation × String)
  unfolding read_fields
  read_message content = read_fields (reader.load (or_else (reader.fenced content) content))

  unfoldable pub after_build :
      String
      → Memo
      → Memo
      → (AllocationError ⊎ ServiceIntent) × C
      → (AllocationError ⊎ Answer) × (Memo × Memo × C)
  after_build key thread process (inl e, c) = (inl e, (thread, process, c))
  after_build key thread process (inr intent, c) =
      (inr (allocated intent), ((key, intent) ∷ thread, (key, intent) ∷ process, c))

  unfoldable pub allocate_once :
      Interpretation
      → String
      → Option ServiceIntent
      → Memo × Memo × C
      → (AllocationError ⊎ Answer) × (Memo × Memo × C)
  unfolding after_build build_intent
  allocate_once i correlation_id (some intent) (thread, process, c) =
      (inr (allocated intent), (thread, process, c))
  allocate_once i correlation_id none (thread, process, c) =
      after_build (reader.key i) thread process (build_intent kuid site i correlation_id c)

  unfoldable pub by_reading :
      Option (Interpretation × String)
      → Memo × Memo × C
      → (AllocationError ⊎ Answer) × (Memo × Memo × C)
  unfolding allocate_once recalled recall
  by_reading none s = (inr invalid_payload, s)
  by_reading (some (i, correlation_id)) (thread, process, c) =
      allocate_once i correlation_id
        (recalled (recall (reader.key i) thread) (recall (reader.key i) process))
        (thread, process, c)

  -- `_alloc_node`, on the content of the last message, the memos and the cluster.
  unfoldable pub alloc_node :
      Option String → Memo × Memo × C → (AllocationError ⊎ Answer) × (Memo × Memo × C)
  unfolding by_reading read_message
  alloc_node none s = (inr no_interpretation, s)
  alloc_node (some content) s = by_reading (read_message content) s

  -- The intent is validated again, so an answer without one raises; the thread's memo is not kept.
  unfoldable pub handed_on :
      (AllocationError ⊎ Answer) × (Memo × Memo × C)
      → (AllocationError ⊎ ServiceIntent) × (Memo × C)
  handed_on (inl e, (thread, process, c)) = (inl e, (process, c))
  handed_on (inr (allocated intent), (thread, process, c)) = (inr intent, (process, c))
  handed_on (inr no_interpretation, (thread, process, c)) = (inl malformed, (process, c))
  handed_on (inr invalid_payload, (thread, process, c)) = (inl malformed, (process, c))

  -- `ainvoke`: the graph starts from the message alone and has no checkpointer, so the memo of its
  -- thread is empty at each call, and that of the process lasts.
  unfoldable pub ainvoke : String → Memo × C → (AllocationError ⊎ ServiceIntent) × (Memo × C)
  unfolding handed_on alloc_node
  ainvoke content (process, c) = handed_on (alloc_node (some content) ([], process, c))

  -- Calls one after another.
  unfoldable pub after_calls : List String → Memo × C → Memo × C
  unfolding ainvoke
  after_calls [] s = s
  after_calls (content ∷ contents) s = after_calls contents (ainvoke content s).1
