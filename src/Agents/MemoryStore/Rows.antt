-- ===== src/Agents/MemoryStore/Rows.antt =====
-- The rows of one entry: there is at most one, and what deletes of rows do to it.
use sccsos.Prelude.{
  ◌+◌, ◌≤◌, String, ◌≡◌, refl, Bool, true, false, Option, none, some, List, [], ◌∷◌, ◌++◌, length,
  keep, if◌then◌else◌, arith,
}
use sccsos.Agents.MemoryStore.{Row, without, latest, is_entry}

-- `UNIQUE(tenant_id, agent_name, key)`
abbrev pub IsKeyed : List Row → Type 0
IsKeyed rows = (agent key tenant : String) → length (keep (is_entry agent key tenant) rows) ≤ 1

abbrev pub passed : (Row → Bool) → Option Row → Option Row
passed q none = none
passed q (some r) = if q r then none else some r

pub length-without :
    (p q : Row → Bool) (rows : List Row) → length (keep p (without q rows)) ≤ length (keep p rows)
length-without p q [] = omega arith
length-without p q (r ∷ rows) = ground (arith, length-without p q rows)

pub latest-none :
    (p : Row → Bool) (rows : List Row) → length (keep p rows) ≤ 0 → latest p rows ≡ none
unfolding latest
latest-none p [] h = refl
latest-none p (r ∷ rows) h = ground (arith, latest-none p rows)

pub latest-without :
    (p q : Row → Bool) (rows : List Row)
    → length (keep p rows) ≤ 1
    → latest p (without q rows) ≡ passed q (latest p rows)
unfolding latest
latest-without p q [] h = refl
latest-without p q (r ∷ rows) h = ground (
  arith,
  latest-without p q rows,
  latest-none p rows,
  latest-none p (without q rows),
  length-without p q rows,
)

pub keep-without :
    (p q : Row → Bool) (rows : List Row)
    → ((r : Row) → p r ≡ true → q r ≡ true)
    → length (keep p (without q rows)) ≤ 0
keep-without p q [] h = omega arith
keep-without p q (r ∷ rows) h = ground (arith, keep-without p q rows h, h r)

pub length-keep_last :
    (p : Row → Bool) (r : Row) (rows : List Row)
    → length (keep p (rows ++ r ∷ [])) ≡ length (keep p rows) + (if p r then 1 else 0)
length-keep_last p r [] = ground arith
length-keep_last p r (s ∷ rows) = ground (arith, length-keep_last p r rows)

pub latest-last_other :
    (p : Row → Bool) (r : Row) (rows : List Row)
    → p r ≡ false
    → latest p (rows ++ r ∷ []) ≡ latest p rows
unfolding latest
latest-last_other p r [] h = ground arith
latest-last_other p r (s ∷ rows) h = ground (arith, latest-last_other p r rows h)

pub latest-last :
    (p : Row → Bool) (r : Row) (rows : List Row)
    → p r ≡ true
    → length (keep p rows) ≤ 0
    → latest p (rows ++ r ∷ []) ≡ some r
unfolding latest
latest-last p r [] h k = ground arith
latest-last p r (s ∷ rows) h k = ground (arith, latest-last p r rows h)
