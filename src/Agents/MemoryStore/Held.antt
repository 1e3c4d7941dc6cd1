-- ===== src/Agents/MemoryStore/Held.antt =====
-- Every row of the store is of an entry that the memory has, though its time may be over.
use sccsos.Prelude.{
  ℕ, ◌≤◌, String, ◌≡◌, refl, subst, Bool, true, false, Option, none, some, List, [], ◌∷◌, ◌++◌,
  length, keep, every, if◌then◌else◌, arith, inl, inr, Bool-cases, eq_iff, eq_refl,
}
use sccsos.Agents.MemoryStore.{
  Row, is_entry, without, save, get, delete, clear_agent, clear_tenant, purge_expired, answered,
  ttl_of, latest, is_expired,
}
use sccsos.Agents.MemoryStore.Promise.{
  Entry, Memory, is_kept, Request, to_save, to_get, to_delete, to_clear_agent, to_clear_tenant,
  to_purge, serve, promise, same_entry, lifetime,
}

abbrev pub is_held : Memory → Row → Bool
is_held m r = is_kept (m r.agent_name r.key r.tenant_id)

abbrev pub AllHeld : List Row → Memory → Type 0
AllHeld rows m = every (is_held m) rows ≡ true

without-AllHeld :
    (q : Row → Bool) (rows : List Row) (m m' : Memory)
    → ((r : Row) → q r ≡ false → is_held m r ≡ true → is_held m' r ≡ true)
    → AllHeld rows m
    → AllHeld (without q rows) m'
without-AllHeld q [] m m' h e = refl
without-AllHeld q (r ∷ rows) m m' h e = ground (arith, h r, e, without-AllHeld q rows m m' h)

saved-AllHeld :
    (r : Row) (rows : List Row) (m' : Memory)
    → is_held m' r ≡ true
    → AllHeld rows m'
    → AllHeld (rows ++ r ∷ []) m'
saved-AllHeld r [] m' h e = ground (arith, h)
saved-AllHeld r (s ∷ rows) m' h e = ground (arith, h, e, saved-AllHeld r rows m' h)

kept_if :
    (b : Bool) (e : Entry) (o : Option Entry)
    → is_kept o ≡ true
    → is_kept (if b then some e else o) ≡ true
kept_if true e o h = refl
kept_if false e o h = h

answered-AllHeld :
    (now : ℕ) (p : Row → Bool) (o : Option Row) (rows : List Row) (m : Memory)
    → AllHeld rows m
    → AllHeld (answered now p o rows).1 m
answered-AllHeld now p none rows m h = h
answered-AllHeld now p (some r) rows m h = elim (Bool-cases (is_expired now r)) [
  | inl old ↦ rw old (without-AllHeld p rows m m (λ x a k. k) h)
  | inr fresh ↦ rw fresh h
]

pub serve-AllHeld :
    (default_ttl now : ℕ) (q : Request) (rows : List Row) (m : Memory)
    → AllHeld rows m
    → AllHeld (serve default_ttl now q rows).1 (promise default_ttl now q m)
unfolding save get delete clear_agent clear_tenant purge_expired
serve-AllHeld default_ttl now (to_save agent key value tenant ttl) rows m h =
    saved-AllHeld
      (record {
        tenant_id = tenant;
        agent_name = agent;
        key = key;
        value = value;
        updated_at = now;
        ttl_seconds = ttl_of default_ttl ttl;
      })
      (without (is_entry agent key tenant) rows)
      (promise default_ttl now (to_save agent key value tenant ttl) m)
      (ground (arith, eq_refl tenant, eq_refl agent, eq_refl key))
      (without-AllHeld (is_entry agent key tenant) rows m
        (promise default_ttl now (to_save agent key value tenant ttl) m)
        (λ r a k.
          kept_if (same_entry agent key tenant r.agent_name r.key r.tenant_id)
            (record { value = value; until = lifetime now (ttl_of default_ttl ttl) })
            (m r.agent_name r.key r.tenant_id) k)
        h)
serve-AllHeld default_ttl now (to_get agent key tenant) rows m h =
    answered-AllHeld now (is_entry agent key tenant) (latest (is_entry agent key tenant) rows) rows
      m h
serve-AllHeld default_ttl now (to_delete agent key tenant) rows m h =
    without-AllHeld _ rows m _
      (λ r a k. ground (
        arith,
        a,
        k,
        eq_iff tenant r.tenant_id,
        eq_iff agent r.agent_name,
        eq_iff key r.key,
        eq_iff r.tenant_id tenant,
        eq_iff r.agent_name agent,
        eq_iff r.key key,
      ))
      h
serve-AllHeld default_ttl now (to_clear_agent agent tenant) rows m h =
    without-AllHeld _ rows m _
      (λ r a k. ground (
        arith,
        a,
        k,
        eq_iff tenant r.tenant_id,
        eq_iff agent r.agent_name,
        eq_iff r.tenant_id tenant,
        eq_iff r.agent_name agent,
      ))
      h
serve-AllHeld default_ttl now (to_clear_tenant tenant) rows m h =
    without-AllHeld _ rows m _
      (λ r a k. ground (arith, a, k, eq_iff tenant r.tenant_id, eq_iff r.tenant_id tenant)) h
serve-AllHeld default_ttl now to_purge rows m h = without-AllHeld _ rows m m (λ r a k. k) h

-- A row that is there has an entry.
pub held_row :
    (q : Row → Bool) (rows : List Row) (m : Memory)
    → 1 ≤ length (keep q rows)
    → AllHeld rows m
    → (r : Row) × (q r ≡ true) × (is_held m r ≡ true)
held_row q [] m h e = absurd (omega (arith, h))
held_row q (r ∷ rows) m h e = elim (Bool-cases (q r)) [
  | inl here ↦ (r, here, ground (arith, e))
  | inr there ↦ held_row q rows m (ground (arith, h, there)) (ground (arith, e))
]

-- What stands under an address that has a row of an entry
pub kept_at :
    (m : Memory) (a k t a' k' t' : String)
    → a ≡ a'
    → k ≡ k'
    → t ≡ t'
    → is_kept (m a k t) ≡ true
    → is_kept (m a' k' t') ≡ true
kept_at m a k t a' k' t' ea ek et h =
    subst (λ z. is_kept (m z k' t') ≡ true) ea
      (subst (λ z. is_kept (m a z t') ≡ true) ek (subst (λ z. is_kept (m a k z) ≡ true) et h))
