-- ===== src/Agents/EventBus.antt =====
-- sccsos/core/event_bus.py: `LocalEventBus`. Handlers are known by a name, as `handler in handlers`
-- compares them; what a handler or the persistence callback does, an exception included, is an
-- argument that maps the name and the program's state to the new state and a flag for the exception.
-- Handlers that register or remove handlers while an event is delivered are left out.
pub mod Delivery
mod Examples
use sccsos.Prelude.{
  String, Bool, true, false, Option, none, some, List, [], ◌∷◌, ◌++◌, if◌then◌else◌, str_eq, has,
}
use sccsos.Prelude.Dict.{Dict, get, put}

pub record Bus : Type 0 where
  pub handlers : Dict (List String)
  pub persist_fn : Option String

abbrev pub or_empty : Option (List String) → List String
or_empty none = []
or_empty (some hs) = hs

abbrev pub handlers_of : String → Bus → List String
handlers_of event b = or_empty (get event (b.handlers))

unfoldable pub set_persist : Option String → Bus → Bus
set_persist fn b = record b { persist_fn = fn }

-- `on`: `setdefault(event, []).append(handler)`
unfoldable pub on : String → String → Bus → Bus
on event handler b = record b {
  handlers = put event (handlers_of event b ++ handler ∷ []) (b.handlers);
}

-- `list.remove`: the first one
unfoldable pub remove_first : String → List String → List String
remove_first h [] = []
remove_first h (x ∷ xs) = let rest = remove_first h xs in if str_eq x h then xs else x ∷ rest

-- `off`; for an event without handlers the source changes an empty list that it then drops.
abbrev pub off_in : String → String → Option (List String) → Bus → Bus
off_in event handler none b = b
off_in event handler (some hs) b =
    if has handler hs
    then record b { handlers = put event (remove_first handler hs) (b.handlers) }
    else b

unfoldable pub off : String → String → Bus → Bus
off event handler b = off_in event handler (get event (b.handlers)) b

abbrev pub is_filled : List String → Bool
is_filled [] = false
is_filled (h ∷ hs) = true

unfoldable pub has_handlers : String → Bus → Bool
has_handlers event b = is_filled (handlers_of event b)

unfoldable pub clear : Bus → Bus
clear b = record b { handlers = [] }

-- What `emit` does with the world outside, for a given event and its data: `call h` runs the callback
-- or handler `h`, whose flag says that it raised; the exception is logged with the name.
module _ {ℓ} {S : Type ℓ} (call : String → S → S × Bool) where
  abbrev pub note_failure : String → Bool → List String → List String
  note_failure h failed log = if failed then log ++ h ∷ [] else log

  abbrev pub attempt : String → S × List String → S × List String
  attempt h (s, log) = let (s', failed) = call h s in (s', note_failure h failed log)

  unfoldable pub dispatch : List String → S × List String → S × List String
  dispatch [] r = r
  dispatch (h ∷ hs) r = dispatch hs (attempt h r)

  abbrev pub persisted : Option String → S × List String → S × List String
  persisted none r = r
  persisted (some fn) r = attempt fn r

  unfoldable pub emit : String → Bus → S × List String → S × List String
  emit event b r = dispatch (handlers_of event b) (persisted (b.persist_fn) r)
