-- ===== src/Agents/EventBus/Examples.antt =====
-- Handlers that write their names, one of which raises.
use sccsos.Prelude.{String, ◌≡◌, refl, Bool, false, none, some, List, [], ◌∷◌, ◌++◌, str_eq, has}
use sccsos.Prelude.Dict.{get}
use sccsos.Agents.EventBus.{
  Bus, handlers_of, on, off, emit, dispatch, has_handlers, clear, set_persist,
}
use sccsos.Agents.EventBus.Delivery.{off-on}

abbrev write_name : String → List String → List String × Bool
write_name h written = (written ++ h ∷ [], str_eq h "audit")

abbrev quiet : String → List String → List String × Bool
quiet h written = (written ++ h ∷ [], false)

abbrev bus : Bus
bus = record {
  handlers = ("agent.started", "audit" ∷ "metrics" ∷ []) ∷ [];
  persist_fn = some "store";
}

delivered :
    emit write_name "agent.started" bus ([], [])
    ≡ ("store" ∷ "audit" ∷ "metrics" ∷ [], "audit" ∷ [])
unfolding emit dispatch get
delivered = refl

cleared : has_handlers "agent.started" (clear (set_persist none bus)) ≡ false
unfolding has_handlers clear set_persist get
cleared = refl

unregistered : has "mail" (handlers_of "agent.started" bus) ≡ false
unfolding get
unregistered = refl

off-on_example :
    handlers_of "agent.started" (off "agent.started" "mail" (on "agent.started" "mail" bus))
    ≡ handlers_of "agent.started" bus
off-on_example = off-on "agent.started" "agent.started" "mail" bus unregistered
