-- ===== src/Agents/EventBus/Delivery.antt =====
-- How `LocalEventBus` delivers events: order, failures, registration and removal.
use sccsos.Prelude.{
  String, ◌≡◌, ◌≢◌, refl, ap, ◌∙◌, Bool, true, false, Option, none, some, List, [], ◌∷◌, ◌++◌,
  if◌then◌else◌, has, arith, eq_iff, eq_refl,
}
use sccsos.Prelude.Dict.{get, put, get-put, get-put_self}
use sccsos.Agents.EventBus.{
  Bus, handlers_of, or_empty, on, off, off_in, remove_first, emit, dispatch, attempt, persisted,
}

dispatch-append :
    {S : Type 0} (call : String → S → S × Bool) (xs ys : List String) (r : S × List String)
    → dispatch call (xs ++ ys) r ≡ dispatch call ys (dispatch call xs r)
unfolding dispatch
dispatch-append call [] ys r = refl
dispatch-append call (x ∷ xs) ys r = dispatch-append call xs ys (attempt call x r)

-- After `on`, an emitted event does all that it did before and then runs the new handler on what that
-- left, whatever was raised on the way; every other event is emitted as before.
pub emit-on :
    {S : Type 0} (call : String → S → S × Bool) (event other handler : String) (b : Bus)
    (r : S × List String)
    → (emit call event (on event handler b) r ≡ attempt call handler (emit call event b r))
      × (event ≢ other → emit call other (on event handler b) r ≡ emit call other b r)
unfolding emit on dispatch
emit-on call event other handler b r = (
  ap (λ o. dispatch call (or_empty o) (persisted call (b.persist_fn) r))
        (get-put_self event (handlers_of event b ++ handler ∷ []) (b.handlers))
      ∙ dispatch-append call (handlers_of event b) (handler ∷ []) (persisted call (b.persist_fn) r),
  λ ne.
      ap (λ o. dispatch call (or_empty o) (persisted call (b.persist_fn) r))
        {y = get other (b.handlers)}
        (get-put event other (handlers_of event b ++ handler ∷ []) (b.handlers)
          ∙ ground (arith, eq_iff event other)),
)

remove_first-append :
    (h : String) (xs : List String) → has h xs ≡ false → remove_first h (xs ++ h ∷ []) ≡ xs
unfolding remove_first
remove_first-append h [] e = ground (arith, eq_refl h)
remove_first-append h (x ∷ xs) e = ground (arith, remove_first-append h xs)

has-snoc : (h : String) (xs : List String) → has h (xs ++ h ∷ []) ≡ true
has-snoc h [] = ground (arith, eq_refl h)
has-snoc h (x ∷ xs) = ground (arith, has-snoc h xs)

module _ (event handler : String) (b : Bus) where
  abbrev more : List String
  more = handlers_of event b ++ handler ∷ []

  off_registered :
      has handler (handlers_of event b) ≡ false
      → off event handler (on event handler b)
        ≡ record b { handlers = put event (handlers_of event b) (put event more (b.handlers)) }
  unfolding off on
  off_registered new =
      ap (λ o. off_in event handler o (on event handler b)) (get-put_self event more (b.handlers))
      ∙ ap
          (λ t.
            if t
            then record b {
              handlers = put event (remove_first handler more) (put event more (b.handlers));
            }
            else on event handler b)
          (has-snoc handler (handlers_of event b))
      ∙ ap (λ hs. record b { handlers = put event hs (put event more (b.handlers)) })
          (remove_first-append handler (handlers_of event b) new)

  back :
      (other : String)
      → or_empty (get other (put event (handlers_of event b) (put event more (b.handlers))))
        ≡ handlers_of other b
  back other = ground (
    arith,
    get-put event other (handlers_of event b) (put event more (b.handlers)),
    get-put event other more (b.handlers),
    eq_iff event other,
  )

-- A handler that was not registered for an event, registered and then removed again, leaves every
-- event with the handlers that it had, in their order.
pub off-on :
    (event other handler : String) (b : Bus)
    → has handler (handlers_of event b) ≡ false
    → handlers_of other (off event handler (on event handler b)) ≡ handlers_of other b
off-on event other handler b new =
    ap (handlers_of other) (off_registered event handler b new) ∙ back event handler b other

module _ {S : Type 0} (call call' : String → S → S × Bool)
    (same : (h : String) (s : S) → (call h s).0 ≡ (call' h s).0) where
  attempt_same :
      (h : String) (s : S) (l l' : List String)
      → (attempt call h (s, l)).0 ≡ (attempt call' h (s, l')).0
  attempt_same h s l l' = same h s

  dispatch_same :
      (hs : List String) (r r' : S × List String)
      → r.0 ≡ r'.0
      → (dispatch call hs r).0 ≡ (dispatch call' hs r').0
  unfolding dispatch
  dispatch_same [] r r' e = e
  dispatch_same (h ∷ hs) r r' e =
      dispatch_same hs (attempt call h r) (attempt call' h r')
        (same h r.0 ∙ ap (λ s. (call' h s).0) e)

  persisted_same :
      (fn : Option String) (r : S × List String)
      → (persisted call fn r).0 ≡ (persisted call' fn r).0
  persisted_same none r = refl
  persisted_same (some fn) r = same fn r.0

-- Whether a handler or the persistence callback raises has no effect on the others: two worlds in
-- which they do the same but raise differently are in the same state after an event.
pub emit-isolated :
    {S : Type 0} (call call' : String → S → S × Bool) (event : String) (b : Bus)
    (r : S × List String)
    → ((h : String) (s : S) → (call h s).0 ≡ (call' h s).0)
    → (emit call event b r).0 ≡ (emit call' event b r).0
unfolding emit
emit-isolated call call' event b r same =
    dispatch_same call call' same (handlers_of event b) (persisted call b.persist_fn r)
      (persisted call' b.persist_fn r) (persisted_same call call' same b.persist_fn r)
