-- ===== src/Agents/MemoryStore/Agreement.antt =====
-- Rows that show the same as a memory under every address, and what keeps them so.
use sccsos.Prelude.{
  ℕ, ◌≤◌, String, ◌≡◌, refl, sym, ap, ◌∙◌, Bool, true, false, Option, none, some, List, [], ◌∷◌,
  ◌++◌, if◌then◌else◌, ltb, arith, inl, inr, Bool-cases, eq_iff,
}
use sccsos.Agents.MemoryStore.{Row, is_entry, without, latest, newer, is_expired, is_purged}
use sccsos.Agents.MemoryStore.Rows.{
  IsKeyed, passed, length-without, latest-without, keep-without, length-keep_last, latest-last,
  latest-last_other,
}
use sccsos.Agents.MemoryStore.Promise.{Entry, Memory, Memory, recalled, lifetime, same_entry}

abbrev pub shown : ℕ → Option Row → Option String
shown time none = none
shown time (some r) = if is_expired time r then none else some r.value

abbrev pub found : String → String → String → List Row → Option Row
found agent key tenant rows = latest (is_entry agent key tenant) rows

-- From now on, rows and memory show the same under every address.
abbrev Shows : ℕ → List Row → Memory → Type 0
Shows now rows m =
    (a k t : String) (time : ℕ)
    → now ≤ time
    → shown time (found a k t rows) ≡ recalled time (m a k t)

pub record Agrees (now : ℕ) (rows : List Row) (m : Memory) : Type 0 where
  pub keyed : IsKeyed rows
  pub shows : Shows now rows m

without-IsKeyed : (q : Row → Bool) (rows : List Row) → IsKeyed rows → IsKeyed (without q rows)
without-IsKeyed q rows h a k t = omega (arith, h a k t, length-without (is_entry a k t) q rows)

pub later-Agrees :
    (now time : ℕ) (rows : List Row) (m : Memory)
    → now ≤ time
    → Agrees now rows m
    → Agrees time rows m
later-Agrees now time rows m h g = record {
  keyed = g.keyed;
  shows = λ a k t u le. g.shows a k t u (omega (arith, h, le));
}

-- A delete that removes the rows of some addresses, and nothing that is shown under the others
without-Agrees :
    (now : ℕ) (q : Row → Bool) (rows : List Row) (m m' : Memory)
    → Agrees now rows m
    → ((a k t : String) (time : ℕ)
        → now ≤ time
        → shown time (passed q (found a k t rows)) ≡ recalled time (m' a k t))
    → Agrees now (without q rows) m'
without-Agrees now q rows m m' g h = record {
  keyed = without-IsKeyed q rows g.keyed;
  shows = λ a k t time le.
      ap (shown time) (latest-without (is_entry a k t) q rows (g.keyed a k t)) ∙ h a k t time le;
}

-- The row that is found is one that was looked for.
newest_at :
    (p : Row → Bool) (s r : Row) (rest : Option Row)
    → p s ≡ true
    → ((q : Row) → rest ≡ some q → p q ≡ true)
    → newer s rest ≡ r
    → p r ≡ true
newest_at p s r none h k e = sym (ap p e) ∙ h
newest_at p s r (some q) h k e = elim (Bool-cases (ltb s.updated_at q.updated_at)) [
  | inl old ↦ sym (ap p e) ∙ rw old (k q refl)
  | inr new ↦ sym (ap p e) ∙ rw new h
]

pub latest_at : (p : Row → Bool) (rows : List Row) (r : Row) → latest p rows ≡ some r → p r ≡ true
unfolding latest
latest_at p [] r e = absurd (cc)
latest_at p (s ∷ rows) r e = elim (Bool-cases (p s)) [
  | inl here ↦ newest_at p s r (latest p rows) here (λ q. latest_at p rows q) (ground (arith, here))
  | inr there ↦ latest_at p rows r (ground (arith, there))
]

-- Deletes of all that stands under some addresses
abbrev forgotten : ((agent key tenant : String) → Bool) → Memory → Memory
forgotten at m a k t = if at a k t then none else m a k t

forgotten_shown :
    (q : Row → Bool) (b : Bool) (time : ℕ) (o : Option Row) (e : Option Entry)
    → ((r : Row) → o ≡ some r → q r ≡ b)
    → shown time o ≡ recalled time e
    → shown time (passed q o) ≡ recalled time (if b then none else e)
forgotten_shown q true time none e h g = refl
forgotten_shown q false time none e h g = g
forgotten_shown q true time (some r) e h g = rw (h r refl) refl
forgotten_shown q false time (some r) e h g = rw (h r refl) g

pub forgotten-Agrees :
    (now : ℕ) (q : Row → Bool) (at : (agent key tenant : String) → Bool) (rows : List Row)
    (m : Memory)
    → ((a k t : String) (r : Row) → is_entry a k t r ≡ true → q r ≡ at a k t)
    → Agrees now rows m
    → Agrees now (without q rows) (forgotten at m)
forgotten-Agrees now q at rows m h g =
    without-Agrees now q rows m (forgotten at m) g λ a k t time le.
      forgotten_shown q (at a k t) time (found a k t rows) (m a k t)
        (λ r e. h a k t r (latest_at (is_entry a k t) rows r e)) (g.shows a k t time le)

expired_later :
    (now time : ℕ) (r : Row) → now ≤ time → is_expired now r ≡ true → is_expired time r ≡ true
expired_later now time r le h = ground (arith, le, h)

-- Deletes of rows that have expired
expired_shown :
    (q : Row → Bool) (now time : ℕ) (o : Option Row)
    → ((r : Row) → o ≡ some r → q r ≡ true → is_expired now r ≡ true)
    → now ≤ time
    → shown time (passed q o) ≡ shown time o
expired_shown q now time none h le = refl
expired_shown q now time (some r) h le = elim (Bool-cases (q r)) [
  | inl gone ↦ rw gone (rw (expired_later now time r le (h r refl gone)) refl)
  | inr kept ↦ rw kept refl
]

pub expired-Agrees :
    (now : ℕ) (q : Row → Bool) (rows : List Row) (m : Memory)
    → ((a k t : String) (r : Row)
        → found a k t rows ≡ some r
        → q r ≡ true
        → is_expired now r ≡ true)
    → Agrees now rows m
    → Agrees now (without q rows) m
expired-Agrees now q rows m h g = without-Agrees now q rows m m g λ a k t time le.
    expired_shown q now time (found a k t rows) (λ r e. h a k t r e) le ∙ g.shows a k t time le

pub purged-expired : (now : ℕ) (r : Row) → is_purged now r ≡ true → is_expired now r ≡ true
purged-expired now r h = ground (arith, h)

-- Saves
module _ (now : ℕ) (r : Row) (at_now : r.updated_at ≡ now) (rows : List Row) (m : Memory) where
  -- The row's own address
  abbrev mine : Row → Bool
  mine = is_entry r.agent_name r.key r.tenant_id

  abbrev with_row : Memory
  with_row a k t =
      if same_entry r.agent_name r.key r.tenant_id a k t
      then some (record { value = r.value; until = lifetime now r.ttl_seconds })
      else m a k t

  shown_saved :
      (time : ℕ)
      → now ≤ time
      → shown time (some r)
        ≡ recalled time (some (record { value = r.value; until = lifetime now r.ttl_seconds }))
  shown_saved time le = ground (arith, at_now, le)

  mine_of :
      (a k t : String)
      → is_entry a k t r ≡ true
      → (s : Row) → is_entry a k t s ≡ true
      → mine s ≡ true
  mine_of a k t h s e =
      ground (arith, h, e, eq_iff r.tenant_id t, eq_iff r.agent_name a, eq_iff r.key k)

  not_mine :
      (a k t : String)
      → is_entry a k t r ≡ false
      → (s : Row) → is_entry a k t s ≡ true
      → mine s ≡ false
  not_mine a k t h s e = ground (
    arith,
    h,
    e,
    eq_iff s.tenant_id t,
    eq_iff s.agent_name a,
    eq_iff s.key k,
    eq_iff s.tenant_id r.tenant_id,
    eq_iff s.agent_name r.agent_name,
    eq_iff s.key r.key,
    eq_iff r.tenant_id t,
    eq_iff r.agent_name a,
    eq_iff r.key k,
  )

  saved-IsKeyed : IsKeyed rows → IsKeyed (without mine rows ++ r ∷ [])
  saved-IsKeyed h a k t = elim (Bool-cases (is_entry a k t r)) [
    | inl here ↦ ground (
      arith,
      here,
      length-keep_last (is_entry a k t) r (without mine rows),
      keep-without (is_entry a k t) mine rows (mine_of a k t here),
    )
    | inr other ↦ ground (
      arith,
      other,
      length-keep_last (is_entry a k t) r (without mine rows),
      length-without (is_entry a k t) mine rows,
      h a k t,
    )
  ]

  pub saved-Agrees : Agrees now rows m → Agrees now (without mine rows ++ r ∷ []) with_row
  saved-Agrees g = record {
    keyed = saved-IsKeyed g.keyed;
    shows = λ a k t time le. elim (Bool-cases (is_entry a k t r)) [
      | inl here ↦
          rw
            (latest-last (is_entry a k t) r (without mine rows) here
              (keep-without (is_entry a k t) mine rows (mine_of a k t here)))
            (rw here (shown_saved time le))
      | inr other ↦ rw (latest-last_other (is_entry a k t) r (without mine rows) other) (
          rw (latest-without (is_entry a k t) mine rows (g.keyed a k t)) (
            rw other (
              forgotten_shown mine false time (found a k t rows) (m a k t)
                (λ s e. not_mine a k t other s (latest_at (is_entry a k t) rows s e))
                (g.shows a k t time le))))
    ];
  }
