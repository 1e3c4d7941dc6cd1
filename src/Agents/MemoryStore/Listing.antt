-- ===== src/Agents/MemoryStore/Listing.antt =====
-- `list_keys` and `get_all` against `get`.
use sccsos.Prelude.{
  ℕ, ◌≤◌, String, ◌≡◌, refl, sym, ap, ◌∙◌, Bool, true, false, not, ◌&&◌, ◌||◌, Option, none, some,
  List, [], ◌∷◌, length, keep, map, has, some_of, str_eq, arith,
}
use sccsos.Prelude.Dict.{Dict, put, get-put}
use sccsos.Prelude.Dict
use sccsos.Agents.MemoryStore.{
  Row, is_agent, is_entry, without, latest, insert_row, sort_rows, is_expired, answered, put_rows,
  get, list_keys, get_all,
}
use sccsos.Agents.MemoryStore.Rows.{IsKeyed, passed, latest-none}

-- A row that a listing for key `k` shows
abbrev shows_key : (Row → Bool) → String → Row → Bool
shows_key q k r = not (q r) && str_eq r.key k

has-without :
    (q : Row → Bool) (k : String) (rows : List Row)
    → has k (map (λ r. r.key) (without q rows)) ≡ some_of (shows_key q k) rows
has-without q k [] = refl
has-without q k (r ∷ rows) = ground (arith, has-without q k rows)

some_of-insert_row :
    (p : Row → Bool) (r : Row) (rows : List Row)
    → some_of p (insert_row r rows) ≡ (p r || some_of p rows)
unfolding insert_row
some_of-insert_row p r [] = refl
some_of-insert_row p r (s ∷ rows) = ground (arith, some_of-insert_row p r rows)

some_of-sort_rows : (p : Row → Bool) (rows : List Row) → some_of p (sort_rows rows) ≡ some_of p rows
unfolding sort_rows
some_of-sort_rows p [] = refl
some_of-sort_rows p (r ∷ rows) =
    ground (arith, some_of-insert_row p r (sort_rows rows), some_of-sort_rows p rows)

abbrev pub is_there : Option String → Bool
is_there none = false
is_there (some v) = true

abbrev value_of : Option Row → Option String
value_of none = none
value_of (some r) = some r.value

some_of-latest :
    (q : Row → Bool) (agent k tenant : String) (rows : List Row)
    → length (keep (is_entry agent k tenant) rows) ≤ 1
    → some_of (shows_key q k) (keep (is_agent agent tenant) rows)
      ≡ is_there (value_of (passed q (latest (is_entry agent k tenant) rows)))
unfolding latest
some_of-latest q agent k tenant [] h = refl
some_of-latest q agent k tenant (r ∷ rows) h =
    ground (arith, some_of-latest q agent k tenant rows, latest-none (is_entry agent k tenant) rows)

answered-value :
    (now : ℕ) (p : Row → Bool) (o : Option Row) (rows : List Row)
    → (answered now p o rows).0 ≡ value_of (passed (is_expired now) o)
answered-value now p none rows = refl
answered-value now p (some r) rows = ground arith

-- Where each address has at most one row, the keys that `list_keys` lists for an agent of a tenant are
-- those for which `get` has a value at that time.
pub list_keys-get :
    (now : ℕ) (agent k tenant : String) (rows : List Row)
    → IsKeyed rows
    → has k (list_keys now agent tenant rows) ≡ is_there (get now agent k tenant rows).0
unfolding list_keys get
list_keys-get now agent k tenant rows h =
    has-without (is_expired now) k (sort_rows (keep (is_agent agent tenant) rows))
    ∙ some_of-sort_rows (shows_key (is_expired now) k) (keep (is_agent agent tenant) rows)
    ∙ some_of-latest (is_expired now) agent k tenant rows (h agent k tenant)
    ∙ ap is_there (
        sym (
          answered-value now (is_entry agent k tenant) (latest (is_entry agent k tenant) rows)
            rows))

abbrev or_else : Option String → Option String → Option String
or_else none o = o
or_else (some v) o = some v

or_else-none : (o : Option String) → or_else o none ≡ o
or_else-none none = refl
or_else-none (some v) = refl

get-put_rows :
    (q : Row → Bool) (agent k tenant : String) (rows : List Row) (d : Dict String)
    → length (keep (is_entry agent k tenant) rows) ≤ 1
    → Dict.get k (put_rows (without q (keep (is_agent agent tenant) rows)) d)
      ≡ or_else (value_of (passed q (latest (is_entry agent k tenant) rows))) (Dict.get k d)
unfolding latest
get-put_rows q agent k tenant [] d h = refl
get-put_rows q agent k tenant (r ∷ rows) d h = ground (
  arith,
  get-put_rows q agent k tenant rows d,
  get-put_rows q agent k tenant rows (put r.key r.value d),
  latest-none (is_entry agent k tenant) rows,
  get-put r.key k r.value d,
)

-- Where each address has at most one row, the dict that `get_all` gives for an agent of a tenant holds
-- under each key what `get` answers for it at that time.
pub get_all-get :
    (now : ℕ) (agent k tenant : String) (rows : List Row)
    → IsKeyed rows
    → Dict.get k (get_all now agent tenant rows) ≡ (get now agent k tenant rows).0
unfolding get_all get Dict.get
get_all-get now agent k tenant rows h =
    get-put_rows (is_expired now) agent k tenant rows [] (h agent k tenant)
    ∙ or_else-none (value_of (passed (is_expired now) (latest (is_entry agent k tenant) rows)))
    ∙ sym
        (answered-value now (is_entry agent k tenant) (latest (is_entry agent k tenant) rows) rows)
