-- ===== src/Supervisor/Rendering.antt =====
-- agents/supervisors/provisioning/graph/graph.py: the texts that name resources and observations.
use agentic_netops.Json.{Fields, Json, Python, bool, dicts_of, get, is_true, text_of, text_or}
use agentic_netops.Prelude.{
  List, String, [], append, false, has_text, if◌then◌else◌, is_empty, map, true, ◌∷◌,
}
use agentic_netops.Prelude.Regex.{format, join}
use agentic_netops.Prelude.Text.{strip}

-- `f" ({s})"` and the like, where the text is not empty
if_text : String → (String → String) → String
if_text s f = if has_text s then f s else ""

module _ ⦃py : Python⦄ where
  unverified_items : List Fields → List String
  unfolding text_or get format
  unverified_items [] = []
  unverified_items (it ∷ rest) =
      format (text_or "property" (get "property" it) ∷ "@" ∷ text_or "node" (get "node" it) ∷ [])
      ∷ unverified_items rest

  -- The properties that were not observed, if any are named.
  unverified_note : Fields → String
  unfolding unverified_items dicts_of get join format
  unverified_note observation =
      let items = unverified_items (dicts_of (get "unverified" observation)) in
      if is_empty items then "" else append "unverified: " (join ", " items)

  convergence_text : String → String → String → String
  unfolding format
  convergence_text resource detail note =
      if has_text detail
      then format
          (resource ∷ " (" ∷ detail ∷ (if has_text note then append "; " note else "") ∷ ")" ∷ [])
      else if has_text note
      then format (resource ∷ " (" ∷ note ∷ ")" ∷ [])
      else resource

  convergence_texts : List Fields → List String
  unfolding convergence_text unverified_note text_or get strip
  convergence_texts [] = []
  convergence_texts (o ∷ os) =
      convergence_text (text_or "resource" (get "resource" o)) (strip (text_or "" (get "detail" o)))
        (unverified_note o)
      ∷ convergence_texts os

  -- `_describe_convergence`
  unfoldable pub describe_convergence : List Fields → String
  unfolding convergence_texts join
  describe_convergence observations =
      let text_ = join ", " (convergence_texts observations) in
      if has_text text_ then text_ else "no resource named"

  -- `f"{r.get('kind')}/{r.get('name')}"`
  resource_name : Fields → String
  unfolding text_of get format
  resource_name r = format (text_of (get "kind" r) ∷ "/" ∷ text_of (get "name" r) ∷ [])

  unfoldable pub resource_names : List Fields → String
  unfolding resource_name join
  resource_names rs = join ", " (map resource_name rs)

  verdict_text : String → Json → String
  unfolding format
  verdict_text what (bool true) = append what "=True"
  verdict_text what (bool false) = append what "=False"
  verdict_text what _ = append what "=<unset>"

  typed_name : String → String → String
  unfolding format
  typed_name name_ stype =
      if has_text stype then format (name_ ∷ " (" ∷ stype ∷ ")" ∷ []) else name_

  -- `str(r.get("message") or r.get("reason") or "")`
  detail_of : Fields → String
  unfolding text_or get is_true
  detail_of r = text_or "" (if is_true (get "message" r) then get "message" r else get "reason" r)

  -- One resource of a status report.
  status_text : Fields → String
  unfolding resource_name typed_name verdict_text detail_of unverified_note text_or get strip format
      if_text
  status_text r = format (
      typed_name (resource_name r) (text_or "" (get "serviceType" r))
      ∷ " "
      ∷ verdict_text "Ready" (get "ready" r)
      ∷ " "
      ∷ verdict_text "Degraded" (get "degraded" r)
      ∷ if_text (strip (detail_of r)) (λ d. format (" \"" ∷ d ∷ "\"" ∷ []))
      ∷ if_text (text_or "" (get "lastTransitionTime" r)) (λ at. append " since " at)
      ∷ if_text (unverified_note r) (λ note. append "; " note)
      ∷ [])

  -- The summary of a status report.
  unfoldable pub status_summary : Fields → String
  unfolding status_text text_or get dicts_of join format
  status_summary report = format (
      text_or "Unknown" (get "phase" report)
      ∷ ". "
      ∷ join "; " (map status_text (dicts_of (get "resources" report)))
      ∷ [])
