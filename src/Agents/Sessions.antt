-- ===== src/Agents/Sessions.antt =====
-- sccsos/core/session.py: `AgentSessionManager`, with the statements of sccsos/core/db/crud.py that
-- it runs. A message's content is a text by its code points; instants are natural numbers; a new id
-- and the clock are arguments. The rows of `session_messages` stand in the order of their ids. Of
-- rows with equal `updated_at`, which SQL leaves open, the first is taken.
pub mod History
pub mod Active
mod Examples
use mathlib.Core.List.{reverse}
use sccsos.Prelude.{
  ℕ, zero, suc, ◌+◌, ◌*◌, ◌/◌, String, Bool, true, false, ◌&&◌, Option, none, some, List, [], ◌∷◌,
  ◌++◌, map, if◌then◌else◌, ltb, leb, str_eq, keep, length,
}
use sccsos.Prelude.Text.{codes}

pub record Message : Type 0 where
  pub id : ℕ
  pub session_id : String
  pub role : String
  pub content : List ℕ
  pub tokens : ℕ
  pub created_at : ℕ

pub record AgentSession : Type 0 where
  pub id : String
  pub agent_name : String
  pub tenant_id : String
  pub status : String
  pub created_at : ℕ
  pub updated_at : ℕ
  pub context_summary : String

pub record Store : Type 0 where
  pub agent_sessions : List AgentSession
  pub session_messages : List Message

abbrev pub max_of : ℕ → ℕ → ℕ
max_of a b = if ltb a b then b else a

-- `max(1, int(len(text) / 3.5))`
unfoldable pub estimate_tokens : List ℕ → ℕ
estimate_tokens text = max_of 1 (length text * 2 / 7)

unfoldable pub take {ℓ} : {A : Type ℓ} → ℕ → List A → List A
take zero xs = []
take (suc n) [] = []
take (suc n) (x ∷ xs) = x ∷ take n xs

-- `content[:997] + "..."` for a long message
abbrev pub shortened : List ℕ → List ℕ
shortened content = if ltb 1000 (length content) then take 997 content ++ codes "..." else content

abbrev pub line_of : Message → List ℕ
line_of msg =
    codes "  "
    ++ (if str_eq (msg.role) "user" then codes "You said:" else codes "Assistant:")
    ++ codes " "
    ++ shortened (msg.content)

-- `_format_history`, by its lines
unfoldable pub format_history : List Message → List (List ℕ)
format_history [] = []
format_history (m ∷ ms) =
    codes "[Previous conversation]"
    ∷ (map line_of (reverse (m ∷ ms)) ++ codes "[End of previous conversation]" ∷ [])

-- The row of a tie is the first one.
abbrev pub later_of : AgentSession → Option AgentSession → AgentSession
later_of r none = r
later_of r (some q) = if ltb (r.updated_at) (q.updated_at) then q else r

-- `ORDER BY updated_at DESC LIMIT 1`
unfoldable pub latest : List AgentSession → Option AgentSession
latest [] = none
latest (r ∷ rows) = let rest = latest rows in some (later_of r rest)

abbrev pub is_session : String → String → String → AgentSession → Bool
is_session tenant agent status r =
    str_eq (r.tenant_id) tenant && str_eq (r.agent_name) agent && str_eq (r.status) status

unfoldable pub find_session : String → String → String → Store → Option AgentSession
find_session tenant agent status s =
    latest (keep (is_session tenant agent status) (s.agent_sessions))

-- `crud.insert_session`, and what `_create` returns
abbrev pub new_session : String → String → String → ℕ → AgentSession
new_session id agent tenant now = record {
  id = id;
  agent_name = agent;
  tenant_id = tenant;
  status = "active";
  created_at = now;
  updated_at = now;
  context_summary = "";
}

abbrev pub create_session : String → String → String → ℕ → Store → AgentSession × Store
create_session id agent tenant now s = (
  new_session id agent tenant now,
  record s { agent_sessions = s.agent_sessions ++ new_session id agent tenant now ∷ [] },
)

abbrev pub found_or_created :
    String → String → String → ℕ → Store → Option AgentSession → AgentSession × Store
found_or_created id agent tenant now s none = create_session id agent tenant now s
found_or_created id agent tenant now s (some r) = (r, s)

unfoldable pub get_or_create : String → String → String → ℕ → Store → AgentSession × Store
get_or_create id agent tenant now s =
    found_or_created id agent tenant now s (find_session tenant agent "active" s)

unfoldable pub get_paused_session : String → String → Store → Option AgentSession
get_paused_session agent tenant s = find_session tenant agent "paused" s

-- `UPDATE agent_sessions SET … WHERE id = ?`
unfoldable pub update_rows :
    String → (AgentSession → AgentSession) → List AgentSession → List AgentSession
update_rows id f [] = []
update_rows id f (r ∷ rows) =
    let rest = update_rows id f rows in if str_eq (r.id) id then f r ∷ rest else r ∷ rest

abbrev pub update_session : String → (AgentSession → AgentSession) → Store → Store
update_session id f s = record s { agent_sessions = update_rows id f (s.agent_sessions) }

unfoldable pub append_message : String → String → List ℕ → ℕ → ℕ → ℕ → Store → ℕ × Store
append_message session_id role content tokens new_id now s =
    let row : Message = record {
      id = new_id;
      session_id = session_id;
      role = role;
      content = content;
      tokens = tokens;
      created_at = now;
    } in
    (
      new_id,
      update_session session_id (λ r. record r { updated_at = now })
          (record s { session_messages = s.session_messages ++ row ∷ [] }),
    )

unfoldable pub close_session : String → String → ℕ → Store → Store
close_session id new_status now = update_session id (λ r. record r {
  status = if str_eq new_status "" then r.status else new_status;
  updated_at = now;
})

unfoldable pub update_summary : String → String → Store → Store
update_summary id summary = update_session id (λ r. record r { context_summary = summary })

-- `max(msg.tokens, _estimate_tokens(msg.content))`
abbrev pub cost_of : Message → ℕ
cost_of msg = max_of (msg.tokens) (estimate_tokens (msg.content))

-- The trimming loop, newest first
unfoldable pub trim : ℕ → ℕ → List Message → List Message
trim max_tokens total [] = []
trim max_tokens total (m ∷ ms) =
    let rest = trim max_tokens (total + cost_of m) ms in
    if ltb max_tokens (total + cost_of m) then [] else m ∷ rest

abbrev pub messages_of : String → Store → List Message
messages_of session_id s = keep (λ m. str_eq (m.session_id) session_id) (s.session_messages)

-- The rows come newest first, are turned round, and are walked newest first again.
unfoldable pub get_history : String → ℕ → ℕ → Store → List Message
get_history session_id limit max_tokens s =
    let result = reverse (take limit (reverse (messages_of session_id s))) in
    reverse (trim max_tokens 0 (reverse result))

unfoldable pub get_history_block : String → ℕ → ℕ → Store → List (List ℕ)
get_history_block session_id limit max_tokens s =
    format_history (get_history session_id limit max_tokens s)
