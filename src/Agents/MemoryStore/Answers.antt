-- ===== src/Agents/MemoryStore/Answers.antt =====
-- What deletes and clears answer, against the memory.
use sccsos.Prelude.{
  ℕ, ◌≤◌, String, Bool, length, keep, ltb, ◌⊎◌, ◌≡◌, refl, sym, ap, ◌∙◌, true, none, List, [], ◌∷◌,
  arith, inl, inr, Bool-cases, eq_iff,
}
use sccsos.Agents.MemoryStore.{
  Row, is_tenant, is_agent, is_entry, delete, clear_agent, clear_tenant,
}
use sccsos.Agents.MemoryStore.Promise.{
  Memory, Memory, recalled, Fits, to_delete, to_clear_agent, to_clear_tenant,
}
use sccsos.Agents.MemoryStore.Rows.{latest-none}
use sccsos.Agents.MemoryStore.Held.{is_held, AllHeld, held_row, kept_at}
use sccsos.Agents.MemoryStore.Agreement.{shown, Agrees}

-- What is not there is not remembered.
forgot :
    (now : ℕ) (a k t : String) (rows : List Row) (m : Memory)
    → length (keep (is_entry a k t) rows) ≤ 0
    → Agrees now rows m
    → recalled now (m a k t) ≡ none
forgot now a k t rows m h g =
    sym (g.shows a k t now (omega arith)) ∙ ap (shown now) (latest-none (is_entry a k t) rows h)

-- Fewer rows stand under an address than under a wider one.
length-keep_le :
    (p q : Row → Bool) (rows : List Row)
    → ((r : Row) → p r ≡ true → q r ≡ true)
    → length (keep p rows) ≤ length (keep q rows)
length-keep_le p q [] h = omega arith
length-keep_le p q (r ∷ rows) h = ground (arith, length-keep_le p q rows h, h r)

pub deleted-Fits :
    (now : ℕ) (agent key tenant : String) (rows : List Row) (m : Memory)
    → Agrees now rows m
    → AllHeld rows m
    → Fits now (to_delete agent key tenant) m (delete agent key tenant rows).0
unfolding delete
deleted-Fits now agent key tenant rows m g held =
    elim (Bool-cases (ltb 0 (length (keep (is_entry agent key tenant) rows)))) [
      | inl there ↦
          let (r, at, kept) =
            held_row (is_entry agent key tenant) rows m (ground (arith, there)) held in
          inl (
            there,
            kept_at m r.agent_name r.key r.tenant_id agent key tenant
                (ground (arith, at, eq_iff r.agent_name agent))
                (ground (arith, at, eq_iff r.key key))
                (ground (arith, at, eq_iff r.tenant_id tenant)) kept,
          )
      | inr gone ↦ inr (gone, forgot now agent key tenant rows m (ground (arith, gone)) g)
    ]

-- Rows there, one of which has an entry; or none, and nothing is remembered of what they are about.
cleared :
    (now : ℕ) (q : Row → Bool) (rows : List Row) (m : Memory)
    → Agrees now rows m
    → AllHeld rows m
    → ((1 ≤ length (keep q rows)) × ((r : Row) × (q r ≡ true) × (is_held m r ≡ true)))
      ⊎ ((length (keep q rows) ≡ 0)
          × ((a k t : String)
              → ((r : Row) → is_entry a k t r ≡ true → q r ≡ true)
              → recalled now (m a k t) ≡ none))
cleared now q rows m g held = elim (Bool-cases (ltb 0 (length (keep q rows)))) [
  | inl there ↦
      let le : 1 ≤ length (keep q rows) = ground (arith, there) in
      inl (le, held_row q rows m le held)
  | inr gone ↦ inr (
    ground (arith, gone),
    λ a k t h.
        forgot now a k t rows m (ground (arith, gone, length-keep_le (is_entry a k t) q rows h)) g,
  )
]

pub agent-Fits :
    (now : ℕ) (agent tenant : String) (rows : List Row) (m : Memory)
    → Agrees now rows m
    → AllHeld rows m
    → Fits now (to_clear_agent agent tenant) m (clear_agent agent tenant rows).0
unfolding clear_agent
agent-Fits now agent tenant rows m g held =
    elim (cleared now (is_agent agent tenant) rows m g held) [
      | inl (le, seen) ↦
          let (r, at, kept) = seen in
          inl (
            le,
            (
              r.key,
              kept_at m r.agent_name r.key r.tenant_id agent r.key tenant
                  (ground (arith, at, eq_iff r.agent_name agent)) refl
                  (ground (arith, at, eq_iff r.tenant_id tenant)) kept,
            ),
          )
      | inr (empty, h) ↦ inr (empty, λ k. h agent k tenant (λ r e. ground (arith, e)))
    ]

pub tenant-Fits :
    (now : ℕ) (tenant : String) (rows : List Row) (m : Memory)
    → Agrees now rows m
    → AllHeld rows m
    → Fits now (to_clear_tenant tenant) m (clear_tenant tenant rows).0
unfolding clear_tenant
tenant-Fits now tenant rows m g held = elim (cleared now (is_tenant tenant) rows m g held) [
  | inl (le, seen) ↦
      let (r, at, kept) = seen in
      inl (
        le,
        (
          r.agent_name,
          r.key,
          kept_at m r.agent_name r.key r.tenant_id r.agent_name r.key tenant refl refl
              (ground (arith, at, eq_iff r.tenant_id tenant)) kept,
        ),
      )
  | inr (empty, h) ↦ inr (empty, λ a k. h a k tenant (λ r e. ground (arith, e)))
]
