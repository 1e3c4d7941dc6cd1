-- ===== src/Agents/Sessions/Examples.antt =====
-- A session of three messages.
use sccsos.Prelude.{◌≡◌, refl, [], ◌∷◌}
use sccsos.Prelude.Text.{codes}
use sccsos.Agents.Sessions.{
  Store, take, trim, estimate_tokens, format_history, latest, find_session, update_rows,
  get_or_create, append_message, get_history, get_history_block, messages_of,
}
use sccsos.Agents.Sessions.History.{IsRecent, get_history-IsRecent}

abbrev empty : Store
empty = record { agent_sessions = []; session_messages = [] }

session_store : Store
unfolding get_or_create find_session latest
session_store = (get_or_create "ses_1" "coder" "default" 5 empty).1

spoken_store : Store
unfolding append_message update_rows session_store
spoken_store =
    (append_message "ses_1" "assistant" (codes "second") 20 2 7
      ((append_message "ses_1" "user" (codes "first") 10 1 6 session_store).1)).1

-- The block shows the newest message first, below a header that names the previous conversation.
newest_first :
    get_history_block "ses_1" 10 3000 spoken_store
    ≡ codes "[Previous conversation]"
      ∷ codes "  Assistant: second"
      ∷ codes "  You said: first"
      ∷ codes "[End of previous conversation]"
      ∷ []
unfolding get_history_block get_history format_history trim take estimate_tokens spoken_store
    session_store get_or_create find_session latest append_message update_rows
newest_first = refl

get_history-IsRecent_example :
    IsRecent 10 25 (messages_of "ses_1" spoken_store) (get_history "ses_1" 10 25 spoken_store)
get_history-IsRecent_example = get_history-IsRecent "ses_1" 10 25 spoken_store
