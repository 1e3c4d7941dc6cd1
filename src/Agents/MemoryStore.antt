-- ===== src/Agents/MemoryStore.antt =====
-- sccsos/memory/memory_store.py: `MemoryStore`, the table `memory_store` as a list of its rows. A time
-- is in microseconds, as `isoformat` writes it. SQLite's `datetime` drops what is below a second. A
-- negative `ttl_seconds` acts as 0 does. Every time stands in the form that `isoformat` gives, so the
-- branch for a text that is no time is left out, as is the order of the dict that `get_all` returns.
pub mod Rows
pub mod Promise
pub mod Agreement
pub mod Held
pub mod Answers
pub mod Refinement
pub mod Listing
mod Examples
use sccsos.Prelude.{
  ℕ, ◌+◌, ◌-◌, ◌*◌, ◌/◌, String, Bool, true, false, not, ◌&&◌, Option, none, some, List, [], ◌∷◌,
  ◌++◌, length, keep, map, if◌then◌else◌, str_eq, ltb,
}
use sccsos.Prelude.Dict.{Dict, put}

-- A row of `memory_store`
pub record Row : Type 0 where
  pub tenant_id : String
  pub agent_name : String
  pub key : String
  pub value : String
  pub updated_at : ℕ
  pub ttl_seconds : ℕ

abbrev pub second : ℕ
second = 1000000

-- The `WHERE` clauses
abbrev pub is_tenant : String → Row → Bool
is_tenant tenant r = str_eq r.tenant_id tenant

abbrev pub is_agent : String → String → Row → Bool
is_agent agent tenant r = str_eq r.tenant_id tenant && str_eq r.agent_name agent

abbrev pub is_entry : String → String → String → Row → Bool
is_entry agent key tenant r = is_agent agent tenant r && str_eq r.key key

-- `DELETE FROM memory_store WHERE …`, with `cursor.rowcount`
abbrev pub without : (Row → Bool) → List Row → List Row
without p = keep (λ r. not (p r))

-- `ORDER BY updated_at DESC LIMIT 1`
abbrev pub newer : Row → Option Row → Row
newer r none = r
newer r (some s) = if ltb r.updated_at s.updated_at then s else r

pub latest : (Row → Bool) → List Row → Option Row
latest p [] = none
latest p (r ∷ rows) = let rest = latest p rows in if p r then some (newer r rest) else rest

-- `ttl_seconds if ttl_seconds is not None else self._default_ttl`
abbrev pub ttl_of : ℕ → Option ℕ → ℕ
ttl_of default_ttl none = default_ttl
ttl_of default_ttl (some ttl) = ttl

unfoldable pub save : ℕ → ℕ → String → String → String → String → Option ℕ → List Row → List Row
save default_ttl now agent key value tenant ttl rows =
    without (is_entry agent key tenant) rows
    ++ record {
      tenant_id = tenant;
      agent_name = agent;
      key = key;
      value = value;
      updated_at = now;
      ttl_seconds = ttl_of default_ttl ttl;
    }
      ∷ []

-- `ttl > 0` and an age above it
abbrev pub is_expired : ℕ → Row → Bool
is_expired now r = ltb 0 r.ttl_seconds && ltb (r.ttl_seconds * second) (now - r.updated_at)

-- `get`, behind its `SELECT`
abbrev pub answered : ℕ → (Row → Bool) → Option Row → List Row → Option String × List Row
answered now p none rows = (none, rows)
answered now p (some r) rows =
    if is_expired now r then (none, without p rows) else (some r.value, rows)

unfoldable pub get : ℕ → String → String → String → List Row → Option String × List Row
unfolding latest
get now agent key tenant rows =
    let p = is_entry agent key tenant in answered now p (latest p rows) rows

unfoldable pub delete : String → String → String → List Row → Bool × List Row
delete agent key tenant rows =
    let p = is_entry agent key tenant in (ltb 0 (length (keep p rows)), without p rows)

-- `ORDER BY updated_at DESC`
pub insert_row : Row → List Row → List Row
insert_row r [] = r ∷ []
insert_row r (s ∷ rows) =
    let rest = insert_row r rows in if ltb r.updated_at s.updated_at then s ∷ rest else r ∷ s ∷ rows

pub sort_rows : List Row → List Row
unfolding insert_row
sort_rows [] = []
sort_rows (r ∷ rows) = insert_row r (sort_rows rows)

unfoldable pub list_keys : ℕ → String → String → List Row → List String
unfolding sort_rows
list_keys now agent tenant rows =
    map (λ r. r.key) (without (is_expired now) (sort_rows (keep (is_agent agent tenant) rows)))

-- `result[key] = value`, row by row
abbrev pub put_rows : List Row → Dict String → Dict String
put_rows [] d = d
put_rows (r ∷ rows) d = put_rows rows (put r.key r.value d)

unfoldable pub get_all : ℕ → String → String → List Row → Dict String
get_all now agent tenant rows =
    put_rows (without (is_expired now) (keep (is_agent agent tenant) rows)) []

unfoldable pub clear_agent : String → String → List Row → ℕ × List Row
clear_agent agent tenant rows =
    (length (keep (is_agent agent tenant) rows), without (is_agent agent tenant) rows)

unfoldable pub clear_tenant : String → List Row → ℕ × List Row
clear_tenant tenant rows = (length (keep (is_tenant tenant) rows), without (is_tenant tenant) rows)

-- `datetime(updated_at, '+' || ttl_seconds || ' seconds') < datetime('now')`
abbrev pub is_purged : ℕ → Row → Bool
is_purged now r = ltb 0 r.ttl_seconds && ltb (r.updated_at / second + r.ttl_seconds) (now / second)

unfoldable pub purge_expired : ℕ → List Row → ℕ × List Row
purge_expired now rows = (length (keep (is_purged now) rows), without (is_purged now) rows)
