-- ===== src/Agents/MemoryStore/Refinement.antt =====
-- The store against what it promises: a memory that forgets each entry at its own time, with no
-- deletes of what has expired.
use sccsos.Prelude.{
  ℕ, String, ◌≡◌, refl, sym, ap, ◌∙◌, true, ◌&&◌, Option, none, some, List, [], ◌∷◌, str_eq, arith,
  inl, inr, Bool-cases, eq_iff,
}
use sccsos.Agents.MemoryStore.{
  Row, is_tenant, is_agent, is_entry, latest, ttl_of, is_expired, answered, is_purged, save, get,
  delete, clear_agent, clear_tenant, purge_expired,
}
use sccsos.Agents.MemoryStore.Promise.{
  Entry, Memory, Memory, recalled, Request, same_entry, promise, serve, Fits, AllFit, IsForward,
  to_save, to_get, to_delete, to_clear_agent, to_clear_tenant, to_purge,
}
use sccsos.Agents.MemoryStore.Answers.{deleted-Fits, agent-Fits, tenant-Fits}
use sccsos.Agents.MemoryStore.Held.{AllHeld, serve-AllHeld}
use sccsos.Agents.MemoryStore.Agreement.{
  shown, found, Agrees, later-Agrees, latest_at, forgotten-Agrees, expired-Agrees, purged-expired,
  saved-Agrees,
}

-- Two rows found under addresses that one of them has are one row.
same_found :
    (now : ℕ) (agent key tenant a k t : String) (rows : List Row) (r x : Row)
    → found agent key tenant rows ≡ some r
    → found a k t rows ≡ some x
    → is_entry agent key tenant x ≡ true
    → is_expired now r ≡ true
    → is_expired now x ≡ true
same_found now agent key tenant a k t rows r x e f h old =
    let at = latest_at (is_entry a k t) rows x f in
    let same_t : t ≡ tenant =
      ground (arith, at, h, eq_iff x.tenant_id tenant, eq_iff x.tenant_id t) in
    let same_a : a ≡ agent =
      ground (arith, at, h, eq_iff x.agent_name agent, eq_iff x.agent_name a) in
    let same_k : k ≡ key = ground (arith, at, h, eq_iff x.key key, eq_iff x.key k) in
    let both : some x ≡ some r =
      sym f
      ∙ ap (λ z. found z k t rows) same_a
      ∙ ap (λ z. found agent z t rows) same_k
      ∙ ap (λ z. found agent key z rows) same_t
      ∙ e in
    ground (arith, both, old)

-- Reads
read_now :
    (now : ℕ) (o : Option Row) (r : Row) (e : Option Entry)
    → o ≡ some r
    → shown now o ≡ recalled now e
    → shown now (some r) ≡ recalled now e
read_now now o r e h k = ap (shown now) (sym h) ∙ k

answered-Agrees :
    (now : ℕ) (agent key tenant : String) (rows : List Row) (m : Memory) (o : Option Row)
    → found agent key tenant rows ≡ o
    → Agrees now rows m
    → ((answered now (is_entry agent key tenant) o rows).0 ≡ recalled now (m agent key tenant))
      × Agrees now (answered now (is_entry agent key tenant) o rows).1 m
answered-Agrees now agent key tenant rows m none e g =
    (ap (shown now) (sym e) ∙ g.shows agent key tenant now (omega arith), g)
answered-Agrees now agent key tenant rows m (some r) e g =
    let read =
      read_now now (found agent key tenant rows) r (m agent key tenant) e
        (g.shows agent key tenant now (omega arith)) in
    elim (Bool-cases (is_expired now r)) [
      | inl old ↦ rw old (
        ground (arith, read, old),
        expired-Agrees now (is_entry agent key tenant) rows m
            (λ a k t x f h. same_found now agent key tenant a k t rows r x e f h old) g,
      )
      | inr fresh ↦ rw fresh (ground (arith, read, fresh), g)
    ]

serve-Agrees :
    (default_ttl now : ℕ) (q : Request) (rows : List Row) (m : Memory)
    → Agrees now rows m
    → AllHeld rows m
    → Fits now q m (serve default_ttl now q rows).0
      × Agrees now (serve default_ttl now q rows).1 (promise default_ttl now q m)
unfolding save get delete clear_agent clear_tenant purge_expired
serve-Agrees default_ttl now (to_save agent key value tenant ttl) rows m g held = (
  tt,
  saved-Agrees now
      (record {
        tenant_id = tenant;
        agent_name = agent;
        key = key;
        value = value;
        updated_at = now;
        ttl_seconds = ttl_of default_ttl ttl;
      })
      refl rows m g,
)
serve-Agrees default_ttl now (to_get agent key tenant) rows m g held =
    answered-Agrees now agent key tenant rows m (found agent key tenant rows) refl g
serve-Agrees default_ttl now (to_delete agent key tenant) rows m g held = (
  deleted-Fits now agent key tenant rows m g held,
  forgotten-Agrees now (is_entry agent key tenant) (same_entry agent key tenant) rows m
      (λ a k t r e. ground (
        arith,
        e,
        eq_iff r.tenant_id tenant,
        eq_iff r.agent_name agent,
        eq_iff r.key key,
        eq_iff r.tenant_id t,
        eq_iff r.agent_name a,
        eq_iff r.key k,
        eq_iff tenant t,
        eq_iff agent a,
        eq_iff key k,
      ))
      g,
)
serve-Agrees default_ttl now (to_clear_agent agent tenant) rows m g held = (
  agent-Fits now agent tenant rows m g held,
  forgotten-Agrees now (is_agent agent tenant) (λ a k t. str_eq tenant t && str_eq agent a) rows m
      (λ a k t r e. ground (
        arith,
        e,
        eq_iff r.tenant_id tenant,
        eq_iff r.agent_name agent,
        eq_iff r.tenant_id t,
        eq_iff r.agent_name a,
        eq_iff tenant t,
        eq_iff agent a,
      ))
      g,
)
serve-Agrees default_ttl now (to_clear_tenant tenant) rows m g held = (
  tenant-Fits now tenant rows m g held,
  forgotten-Agrees now (is_tenant tenant) (λ a k t. str_eq tenant t) rows m
      (λ a k t r e.
        ground (arith, e, eq_iff r.tenant_id tenant, eq_iff r.tenant_id t, eq_iff tenant t))
      g,
)
serve-Agrees default_ttl now to_purge rows m g held =
    (tt, expired-Agrees now (is_purged now) rows m (λ a k t r e h. purged-expired now r h) g)

served-AllFit :
    (default_ttl now : ℕ) (qs : List (ℕ × Request)) (rows : List Row) (m : Memory)
    → IsForward now qs
    → Agrees now rows m
    → AllHeld rows m
    → AllFit default_ttl qs rows m
served-AllFit default_ttl now [] rows m h g held = tt
served-AllFit default_ttl now ((time, q) ∷ qs) rows m h g held =
    let (fit, g') =
      serve-Agrees default_ttl time q rows m (later-Agrees now time rows m h.0 g) held in
    (
      fit,
      served-AllFit default_ttl time qs (serve default_ttl time q rows).1
          (promise default_ttl time q m) h.1 g' (serve-AllHeld default_ttl time q rows m held),
    )

-- The store refines a memory that forgets each entry at its own time. Where the clock does not run
-- backwards, along every series of saves, reads, deletes, clears and purges from the empty table: a read
-- answers what the memory has then; a delete that answers True, and a clear that counts a row, is of an
-- entry that was saved and neither deleted nor cleared since, whose time may be over; a delete that
-- answers False, and a clear that counts 0, has nothing there that the memory still has. (Nothing is
-- said of the count of a purge.)
pub store-AllFit :
    (default_ttl now : ℕ) (qs : List (ℕ × Request))
    → IsForward now qs
    → AllFit default_ttl qs [] (λ a k t. none)
unfolding latest
store-AllFit default_ttl now qs h =
    served-AllFit default_ttl now qs [] (λ a k t. none) h
      (record { keyed = λ a k t. omega arith; shows = λ a k t time le. refl }) refl
