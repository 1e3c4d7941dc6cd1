-- ===== src/Agents/Sessions/Active.antt =====
-- The active session of an agent.
use sccsos.Prelude.{
  ℕ, ◌≡◌, refl, sym, ap, ◌∙◌, subst, inl, inr, String, Bool, true, none, some, List, [], ◌∷◌, ◌++◌,
  keep, arith, eq_refl, Option-cases,
}
use sccsos.Agents.Sessions.{
  AgentSession, Store, latest, is_session, find_session, new_session, create_session,
  found_or_created, get_or_create,
}

latest-none : (rows : List AgentSession) → latest rows ≡ none → rows ≡ []
unfolding latest
latest-none [] h = refl
latest-none (r ∷ rows) h = ground (arith, h)

keep-append :
    (p : AgentSession → Bool) (xs : List AgentSession) (x : AgentSession)
    → p x ≡ true
    → keep p (xs ++ x ∷ []) ≡ keep p xs ++ x ∷ []
keep-append p [] x h = ground (arith, h)
keep-append p (y ∷ xs) x h = ground (arith, keep-append p xs x h)

created_found :
    (id agent tenant : String) (now : ℕ) (s : Store)
    → find_session tenant agent "active" s ≡ none
    → find_session tenant agent "active" ((create_session id agent tenant now s).1)
      ≡ some (new_session id agent tenant now)
unfolding find_session latest
created_found id agent tenant now s absent =
    ap latest (
      keep-append (is_session tenant agent "active") (s.agent_sessions)
        (new_session id agent tenant now) (rw (eq_refl tenant, eq_refl agent)))
    ∙ ap (λ l. latest (l ++ new_session id agent tenant now ∷ []))
        (latest-none (keep (is_session tenant agent "active") (s.agent_sessions)) absent)

-- A session that `get_or_create` has returned, found or new, is the one that the next call for the
-- same agent and tenant returns, and that call changes nothing, whatever id and time it has.
pub get_or_create_again :
    (id id' agent tenant : String) (now later : ℕ) (s : Store)
    → let (session, s') = get_or_create id agent tenant now s in
      get_or_create id' agent tenant later s' ≡ (session, s')
unfolding get_or_create
get_or_create_again id id' agent tenant now later s =
    elim (Option-cases (find_session tenant agent "active" s)) [
      | inr (r, found) ↦
          subst
            (λ o.
              let out = found_or_created id agent tenant now s o in
              found_or_created id' agent tenant later out.1
                (find_session tenant agent "active" out.1)
              ≡ out)
            (sym found) (ap (found_or_created id' agent tenant later s) found)
      | inl absent ↦
          subst
            (λ o.
              let out = found_or_created id agent tenant now s o in
              found_or_created id' agent tenant later out.1
                (find_session tenant agent "active" out.1)
              ≡ out)
            (sym absent)
            (ap (found_or_created id' agent tenant later (create_session id agent tenant now s).1)
              (created_found id agent tenant now s absent))
    ]
