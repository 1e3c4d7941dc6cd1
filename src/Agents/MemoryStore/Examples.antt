-- ===== src/Agents/MemoryStore/Examples.antt =====
-- A store with an entry that expires.
use sccsos.Prelude.{
  ℕ, ◌≡◌, refl, none, some, List, [], ◌∷◌, has, arith, eq_iff, str_eq, true, false, zero, suc,
}
use sccsos.Agents.MemoryStore.{Row, get, save, delete, purge_expired, clear_agent, list_keys}
use sccsos.Agents.MemoryStore.Rows.{IsKeyed}
use sccsos.Agents.MemoryStore.Promise.{
  Request, to_save, to_get, to_clear_agent, to_purge, to_delete, serve, AllFit, IsForward,
}
use sccsos.Agents.MemoryStore.Refinement.{store-AllFit}
use sccsos.Agents.MemoryStore.Listing.{is_there, list_keys-get}

abbrev requests : List (ℕ × Request)
requests =
    (5000000, to_save "architect" "language" "Python" "t1" (some 2))
    ∷ (5500000, to_save "architect" "editor" "vi" "t1" none)
    ∷ (6500000, to_get "architect" "language" "t1")
    ∷ (7000001, to_get "architect" "language" "t1")
    ∷ (7000002, to_purge)
    ∷ (7000003, to_get "architect" "editor" "t1")
    ∷ (7000004, to_clear_agent "architect" "t1")
    ∷ (7000005, to_get "architect" "editor" "t1")
    ∷ []

forward : IsForward 0 requests
forward = (
  omega arith,
  (
    omega arith,
    (omega arith, (omega arith, (omega arith, (omega arith, (omega arith, (omega arith, tt)))))),
  ),
)

-- The rows after some of the requests
abbrev after : ℕ → List (ℕ × Request) → List Row → List Row
after zero qs rows = rows
after (suc n) [] rows = rows
after (suc n) ((now, q) ∷ qs) rows = after n qs (serve 0 now q rows).1

-- The entry is read before its time is out, and not after it; then the clear counts the other one.
read_before :
    (serve 0 6500000 (to_get "architect" "language" "t1") (after 2 requests [])).0 ≡ some "Python"
unfolding get save
read_before = refl

read_after : (serve 0 7000001 (to_get "architect" "language" "t1") (after 3 requests [])).0 ≡ none
unfolding get save
read_after = refl

clear_counts : (serve 0 7000004 (to_clear_agent "architect" "t1") (after 6 requests [])).0 ≡ 1
unfolding get save purge_expired clear_agent
clear_counts = refl

-- A delete of what has expired answers True while the row is there.
delete_answers :
    (serve 0 9000000 (to_delete "architect" "language" "t1") (after 2 requests [])).0 ≡ true
unfolding delete save
delete_answers = refl

store-AllFit_example : AllFit 0 requests [] (λ a k t. none)
store-AllFit_example = store-AllFit 0 0 requests forward

abbrev rows : List Row
rows =
    record {
      tenant_id = "t1";
      agent_name = "architect";
      key = "language";
      value = "Python";
      updated_at = 5000000;
      ttl_seconds = 2;
    }
    ∷ record {
      tenant_id = "t1";
      agent_name = "architect";
      key = "editor";
      value = "vi";
      updated_at = 5500000;
      ttl_seconds = 0;
    }
    ∷ []

rows-IsKeyed : IsKeyed rows
rows-IsKeyed agent key tenant =
    let differ : str_eq "language" "editor" ≡ false = refl in
    ground (arith, eq_iff "language" key, eq_iff "editor" key, eq_iff "language" "editor", differ)

list_keys-get_example :
    has "editor" (list_keys 9000000 "architect" "t1" rows)
    ≡ is_there (get 9000000 "architect" "editor" "t1" rows).0
list_keys-get_example = list_keys-get 9000000 "architect" "editor" "t1" rows rows-IsKeyed
