-- ===== src/Agents/Sessions/History.antt =====
-- Which messages `get_history` returns.
use mathlib.Core.List.{reverse, reverse-append, reverse-reverse, append_assoc}
use sccsos.Prelude.{
  ℕ, zero, suc, ◌+◌, ◌≤◌, ◌<◌, ◌≡◌, refl, sym, ap, ◌∙◌, subst, ◌⊎◌, inl, inr, String, List, [], ◌∷◌,
  ◌++◌, if◌then◌else◌, ltb, length, length-append, arith, Bool-cases, ltb→lt,
}
use sccsos.Agents.Sessions.{Message, Store, take, trim, cost_of, messages_of, get_history}

abbrev pub spent : List Message → ℕ
spent [] = 0
spent (m ∷ ms) = cost_of m + spent ms

spent-append : (xs ys : List Message) → spent (xs ++ ys) ≡ spent xs + spent ys
spent-append [] ys = omega arith
spent-append (x ∷ xs) ys = omega (arith, spent-append xs ys)

spent-reverse : (xs : List Message) → spent (reverse xs) ≡ spent xs
spent-reverse [] = refl
spent-reverse (x ∷ xs) =
    ap spent (reverse-append (x ∷ []) xs)
    ∙ spent-append (reverse xs) (x ∷ [])
    ∙ omega (arith, spent-reverse xs)

length-reverse : (xs : List Message) → length (reverse xs) ≡ length xs
length-reverse [] = refl
length-reverse (x ∷ xs) =
    ap length (reverse-append (x ∷ []) xs)
    ∙ length-append (reverse xs) (x ∷ [])
    ∙ omega (arith, length-reverse xs)

-- The first `n`, and why there are no more
record Taken (n : ℕ) (xs : List Message) : Type 0 where
  rest : List Message
  split : take n xs ++ rest ≡ xs
  fits : length (take n xs) ≤ n
  stop : (rest ≡ []) ⊎ (length (take n xs) ≡ n)

take-Taken : (n : ℕ) (xs : List Message) → Taken n xs
unfolding take
take-Taken zero xs = record { rest = xs; split = refl; fits = omega arith; stop = inr refl }
take-Taken (suc n) [] = record { rest = []; split = refl; fits = omega arith; stop = inl refl }
take-Taken (suc n) (x ∷ xs) =
    let t = take-Taken n xs in
    record {
      rest = t.rest;
      split = ap (λ l. x ∷ l) t.split;
      fits = omega (arith, t.fits);
      stop = elim t.stop [ inl e ↦ inl e | inr e ↦ inr (ap suc e) ];
    }

-- The messages that `trim` keeps, and the one that ends it
record Trimmed (budget total : ℕ) (xs out : List Message) : Type 0 where
  rest : List Message
  split : out ++ rest ≡ xs
  within : total + spent out ≤ budget
  shorter : length out ≤ length xs
  stop :
      (rest ≡ [])
      ⊎ ((m : Message) × (tl : List Message) × (rest ≡ m ∷ tl)
          × (budget < total + spent out + cost_of m))

trim-Trimmed :
    (budget total : ℕ) (xs : List Message)
    → total ≤ budget
    → Trimmed budget total xs (trim budget total xs)
unfolding trim
trim-Trimmed budget total [] h = record {
  rest = [];
  split = refl;
  within = omega (arith, h);
  shorter = omega arith;
  stop = inl refl;
}
trim-Trimmed budget total (x ∷ xs) h = elim (Bool-cases (ltb budget (total + cost_of x))) [
  | inl over ↦
      subst
        (λ b.
          Trimmed budget total (x ∷ xs) (if b then [] else x ∷ trim budget (total + cost_of x) xs))
        (sym over)
        (record {
          rest = x ∷ xs;
          split = refl;
          within = omega (arith, h);
          shorter = omega arith;
          stop = inr (x, xs, refl, omega (arith, ltb→lt budget (total + cost_of x) over));
        })
  | inr fits ↦
      let t = trim-Trimmed budget (total + cost_of x) xs (ground (arith, fits)) in
      subst
        (λ b.
          Trimmed budget total (x ∷ xs) (if b then [] else x ∷ trim budget (total + cost_of x) xs))
        (sym fits)
        (record {
          rest = t.rest;
          split = ap (λ l. x ∷ l) t.split;
          within = omega (arith, t.within);
          shorter = omega (arith, t.shorter);
          stop = elim t.stop [
            | inl e ↦ inl e
            | inr (m, tl, e, over) ↦ inr (m, tl, e, omega (arith, over))
          ];
        })
]

-- The messages of a session as they stand in the table, older ones and the returned ones.
pub record IsRecent (limit budget : ℕ) (all history : List Message) : Type 0 where
  pub older : List Message
  pub split : older ++ history ≡ all
  pub in_budget : spent history ≤ budget
  pub in_limit : length history ≤ limit
  pub as_many :
      (older ≡ [])
      ⊎ (length history ≡ limit)
      ⊎ ((m : Message) × (front : List Message) × (older ≡ front ++ m ∷ [])
          × (budget < spent history + cost_of m))

recent :
    (limit budget : ℕ) (all : List Message)
    → IsRecent limit budget all (reverse (trim budget 0 (take limit (reverse all))))
recent limit budget all = record {
  older = reverse (t.rest ++ k.rest);
  split =
      sym (reverse-append out (t.rest ++ k.rest))
      ∙ ap reverse (sym (append_assoc out t.rest k.rest) ∙ ap (λ l. l ++ k.rest) t.split ∙ k.split)
      ∙ reverse-reverse all;
  in_budget = omega (arith, t.within, spent-reverse out);
  in_limit = omega (arith, t.shorter, k.fits, length-reverse out);
  as_many = why t.stop k.stop;
}
  where
    k : Taken limit (reverse all)
    k = take-Taken limit (reverse all)

    newest : List Message
    newest = take limit (reverse all)

    out : List Message
    out = trim budget 0 newest

    t : Trimmed budget 0 newest out
    t = trim-Trimmed budget 0 newest (omega arith)

    why :
        (t.rest ≡ [])
          ⊎ ((m : Message) × (tl : List Message) × (t.rest ≡ m ∷ tl)
              × (budget < 0 + spent out + cost_of m))
        → (k.rest ≡ []) ⊎ (length newest ≡ limit)
        → (reverse (t.rest ++ k.rest) ≡ [])
          ⊎ (length (reverse out) ≡ limit)
          ⊎ ((m : Message) × (front : List Message) × (reverse (t.rest ++ k.rest) ≡ front ++ m ∷ [])
              × (budget < spent (reverse out) + cost_of m))
    why (inl e) (inl f) = inl (ap reverse (ap (λ l. l ++ k.rest) e ∙ f))
    why (inl e) (inr f) = inr (
        inl (
          omega (
            arith,
            length-reverse out,
            ap length t.split,
            length-append out t.rest,
            ap length e,
            f,
          )))
    why (inr (m, tl, e, over)) _ = inr (
        inr (
          m,
          reverse (tl ++ k.rest),
          ap (λ l. reverse (l ++ k.rest)) e ∙ reverse-append (m ∷ []) (tl ++ k.rest),
          omega (arith, over, spent-reverse out),
        ))

-- `get_history` returns the newest messages of the session, in the order in which they were written:
-- they are within the token budget and the limit, and there are as many as that allows, since there
-- is no older message, or the limit is reached, or the next older message would exceed the budget.
pub get_history-IsRecent :
    (session_id : String) (limit budget : ℕ) (s : Store)
    → IsRecent limit budget (messages_of session_id s) (get_history session_id limit budget s)
unfolding get_history
get_history-IsRecent session_id limit budget s =
    subst (λ l. IsRecent limit budget (messages_of session_id s) (reverse (trim budget 0 l)))
      (sym (reverse-reverse (take limit (reverse (messages_of session_id s)))))
      (recent limit budget (messages_of session_id s))
