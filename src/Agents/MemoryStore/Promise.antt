-- ===== src/Agents/MemoryStore/Promise.antt =====
-- What the store promises: a memory that forgets each entry at its own time, the requests to both, and
-- the answers that fit the memory. The store may still hold rows that have expired, which `delete` and
-- the clears count; so what these answer follows the entries, whether or not they have outlived their time.
use sccsos.Prelude.{
  ℕ, ◌+◌, ◌*◌, ◌≤◌, String, Bool, false, ◌&&◌, Option, none, some, List, [], ◌∷◌, if◌then◌else◌,
  str_eq, ltb, ◌≡◌, true, ◌⊎◌,
}
use sccsos.Agents.MemoryStore.{
  Row, second, ttl_of, save, get, delete, clear_agent, clear_tenant, purge_expired,
}

-- What is remembered under an address, and until when
pub record Entry : Type 0 where
  pub value : String
  pub until : Option ℕ

abbrev pub Memory : Type 0
Memory = (agent key tenant : String) → Option Entry

abbrev outlived : ℕ → Option ℕ → Bool
outlived now none = false
outlived now (some until) = ltb until now

abbrev pub recalled : ℕ → Option Entry → Option String
recalled now none = none
recalled now (some e) = if outlived now e.until then none else some e.value

pub data Request : Type 0 where
  to_save : (agent key value tenant : String) → (ttl : Option ℕ) → Request
  to_get to_delete : (agent key tenant : String) → Request
  to_clear_agent : (agent tenant : String) → Request
  to_clear_tenant : (tenant : String) → Request
  to_purge : Request

abbrev pub lifetime : ℕ → ℕ → Option ℕ
lifetime now ttl = if ltb 0 ttl then some (now + ttl * second) else none

abbrev pub same_entry : String → String → String → String → String → String → Bool
same_entry agent key tenant a k t = (str_eq tenant t && str_eq agent a) && str_eq key k

-- What each request leaves of the memory
abbrev pub promise : ℕ → ℕ → Request → Memory → Memory
promise default_ttl now (to_save agent key value tenant ttl) m a k t =
    if same_entry agent key tenant a k t
    then some (record { value = value; until = lifetime now (ttl_of default_ttl ttl) })
    else m a k t
promise default_ttl now (to_get agent key tenant) m a k t = m a k t
promise default_ttl now (to_delete agent key tenant) m a k t =
    if same_entry agent key tenant a k t then none else m a k t
promise default_ttl now (to_clear_agent agent tenant) m a k t =
    if str_eq tenant t && str_eq agent a then none else m a k t
promise default_ttl now (to_clear_tenant tenant) m a k t = if str_eq tenant t then none else m a k t
promise default_ttl now to_purge m a k t = m a k t

-- What each request is answered with
abbrev pub Answer : Request → Type 0
Answer (to_save agent key value tenant ttl) = Unit
Answer (to_get agent key tenant) = Option String
Answer (to_delete agent key tenant) = Bool
Answer (to_clear_agent agent tenant) = ℕ
Answer (to_clear_tenant tenant) = ℕ
Answer to_purge = ℕ

abbrev pub serve : ℕ → ℕ → (q : Request) → List Row → Answer q × List Row
serve default_ttl now (to_save agent key value tenant ttl) rows =
    (tt, save default_ttl now agent key value tenant ttl rows)
serve default_ttl now (to_get agent key tenant) rows = get now agent key tenant rows
serve default_ttl now (to_delete agent key tenant) rows = delete agent key tenant rows
serve default_ttl now (to_clear_agent agent tenant) rows = clear_agent agent tenant rows
serve default_ttl now (to_clear_tenant tenant) rows = clear_tenant tenant rows
serve default_ttl now to_purge rows = purge_expired now rows

abbrev pub is_kept : Option Entry → Bool
is_kept none = false
is_kept (some e) = true

-- Answers that fit the memory when the request is served. A read has what is remembered. A delete that
-- answers True has an entry there, which may have outlived its time, and one that answers False has
-- nothing there that is remembered; a clear likewise for the entries that it is about.
abbrev pub Fits : ℕ → (q : Request) → Memory → Answer q → Type 0
Fits now (to_save agent key value tenant ttl) m answer = Unit
Fits now (to_get agent key tenant) m answer = answer ≡ recalled now (m agent key tenant)
Fits now (to_delete agent key tenant) m answer =
    ((answer ≡ true) × (is_kept (m agent key tenant) ≡ true))
    ⊎ ((answer ≡ false) × (recalled now (m agent key tenant) ≡ none))
Fits now (to_clear_agent agent tenant) m answer =
    ((1 ≤ answer) × ((k : String) × (is_kept (m agent k tenant) ≡ true)))
    ⊎ ((answer ≡ 0) × ((k : String) → recalled now (m agent k tenant) ≡ none))
Fits now (to_clear_tenant tenant) m answer =
    ((1 ≤ answer) × ((a : String) × (k : String) × (is_kept (m a k tenant) ≡ true)))
    ⊎ ((answer ≡ 0) × ((a k : String) → recalled now (m a k tenant) ≡ none))
Fits now to_purge m answer = Unit

-- Every one of a series of requests, each with the time at which it is served, is answered so.
abbrev pub AllFit : ℕ → List (ℕ × Request) → List Row → Memory → Type 0
AllFit default_ttl [] rows m = Unit
AllFit default_ttl ((now, q) ∷ qs) rows m =
    Fits now q m (serve default_ttl now q rows).0
    × AllFit default_ttl qs (serve default_ttl now q rows).1 (promise default_ttl now q m)

-- The clock does not run backwards.
abbrev pub IsForward : ℕ → List (ℕ × Request) → Type 0
IsForward now [] = Unit
IsForward now ((time, q) ∷ qs) = (now ≤ time) × IsForward time qs
