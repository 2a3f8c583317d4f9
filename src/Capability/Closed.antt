-- ===== src/Capability/Closed.antt =====
-- agents/supervisors/provisioning/capability.py: the reading of the capability fails closed.
use agentic_netops.Json.{Fields, Json, arr, bool, get, is_text, null, num, obj, str}
use agentic_netops.Capability.{
  Answer, Process, Srv6Capability, answered, ask, configmap_path, identity, raised, read_answer,
  read_body, read_capability, read_data, stated,
}
use agentic_netops.Prelude.{
  Option, String, ap, arith, eq_iff, if-When, leb, none, refl, some, true, ◌&&◌, ◌≡◌, ◌≤◌,
}

-- The data of a ConfigMap says that SRv6 is available.
abbrev SaysTrue : Json → Type 0
SaysTrue (obj data_) = get "cap-sai-srv6" data_ ≡ str "true"
SaysTrue _ = ⊥

is_text-eq : (s : String) (v : Json) → is_text s v ≡ true → v ≡ str s
unfolding is_text
is_text-eq s null e = absurd (ground arith)
is_text-eq s (bool b) e = absurd (ground arith)
is_text-eq s (num n) e = absurd (ground arith)
is_text-eq s (str t) e = ap str ((eq_iff t s).0 e)
is_text-eq s (arr xs) e = absurd (ground arith)
is_text-eq s (obj fs) e = absurd (ground arith)

stated-SaysTrue : (data_ : Fields) → (stated data_).available ≡ true → SaysTrue (obj data_)
unfolding stated
stated-SaysTrue data_ =
    if-When (λ (c : Srv6Capability). c.available ≡ true → SaysTrue (obj data_))
      (is_text "true" (get "cap-sai-srv6" data_)) (λ e h. is_text-eq "true" _ e)
      (λ e h. absurd (ground arith))

read_data-SaysTrue : (v : Json) → (read_data v).available ≡ true → SaysTrue v
unfolding read_data
read_data-SaysTrue (obj data_) h = stated-SaysTrue data_ h
read_data-SaysTrue null h = absurd (ground arith)
read_data-SaysTrue (bool b) h = absurd (ground arith)
read_data-SaysTrue (num n) h = absurd (ground arith)
read_data-SaysTrue (str s) h = absurd (ground arith)
read_data-SaysTrue (arr xs) h = absurd (ground arith)

-- The data that the body of an answer holds.
abbrev InBody : Option Json → Type 0
InBody (some (obj body)) = SaysTrue (get "data" body)
InBody _ = ⊥

read_body-InBody : (b : Option Json) → (read_body b).available ≡ true → InBody b
unfolding read_body
read_body-InBody none h = absurd (ground arith)
read_body-InBody (some (obj body)) h = read_data-SaysTrue (get "data" body) h
read_body-InBody (some null) h = absurd (ground arith)
read_body-InBody (some (bool b)) h = absurd (ground arith)
read_body-InBody (some (num n)) h = absurd (ground arith)
read_body-InBody (some (str s)) h = absurd (ground arith)
read_body-InBody (some (arr xs)) h = absurd (ground arith)

-- The answer is a success whose body is an object with data that say that SRv6 is available.
abbrev Proves : Answer → Type 0
Proves raised = ⊥
Proves (answered status body) = ((200 ≤ status) × (status ≤ 299)) × InBody body

read_answer-Proves : (a : Answer) → (read_answer a).available ≡ true → Proves a
unfolding read_answer
read_answer-Proves raised h = absurd (ground arith)
read_answer-Proves (answered status body) h =
    if-When (λ (c : Srv6Capability). c.available ≡ true → Proves (answered status body))
      (leb 200 status && leb status 299)
      (λ e k. ((ground (arith, e), ground (arith, e)), read_body-InBody body k))
      (λ e k. absurd (ground arith)) h

-- There is an identity, and the ConfigMap was asked for with it and answered with a proof.
pub record IsProven (p : Process) : Type 0 where
  pub endpoint : String
  pub token : String
  pub verify : Option String
  pub known : identity p ≡ some (endpoint, (token, verify))
  pub proof : Proves (p.http_get (p.without_slashes endpoint) configmap_path token verify)

ask-IsProven :
    (p : Process) (who : Option (String × (String × Option String)))
    → identity p ≡ who
    → (ask p who).available ≡ true
    → IsProven p
unfolding ask
ask-IsProven p none e h = absurd (ground arith)
ask-IsProven p (some (endpoint, (token, verify))) e h = record {
  endpoint = endpoint;
  token = token;
  verify = verify;
  known = e;
  proof = read_answer-Proves _ h;
}

-- The capability is available only if the process has an identity and the one request made with it was
-- answered with a 2xx status and an object whose data say "true": on every error, and on every other
-- body, it is read as unavailable.
pub read_capability-IsProven : (p : Process) → (read_capability p).available ≡ true → IsProven p
unfolding read_capability
read_capability-IsProven p h = ask-IsProven p (identity p) refl h
