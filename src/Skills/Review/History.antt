-- ===== src/Skills/Review/History.antt =====
-- The review history as the path that the status of each skill has taken.
use sccsos.Prelude.{
  ℕ, String, ◌≡◌, refl, sym, ap, ◌∙◌, Bool, true, false, ◌&&◌, Option, none, some, List, [], ◌∷◌,
  ◌++◌, keep, if◌then◌else◌, arith, inl, inr, Bool-cases,
}
use sccsos.Skills.Validation.{Parsed}
use sccsos.Skills.Review.{
  Status, draft, pending_review, approved, rejected, Action, submit, approve, reject, reset,
  ReviewHistoryEntry, Skill, Market, get_skill, status_in, status_of,
}
use sccsos.Skills.Review.Operations.{
  Operation, to_submit, to_approve, to_reject, to_reset, name_of, version_of, action_of, perform,
  permitted, goes_to, is_in,
}
use sccsos.Skills.Review.Moves.{Performed, refused, done, perform-Performed}
use sccsos.Skills.Review.Answers.{same_skill, at_same, status_of-change}

-- The moves of the pipeline; an approval may come from any status.
abbrev pub is_move : Status → Action → Status → Bool
is_move draft submit pending_review = true
is_move old approve approved = true
is_move pending_review reject rejected = true
is_move rejected reset draft = true
is_move _ _ _ = false

abbrev pub is_entry_of : String → String → ReviewHistoryEntry → Bool
is_entry_of name version e = same_skill e.skill_name e.skill_version name version

-- The status at the end of a series of entries, if each goes on from the one before it by a move
abbrev pub step_from : Status → ReviewHistoryEntry → Option Status
step_from st e =
    if is_in st e.old_status && is_move st e.action e.new_status then some e.new_status else none

abbrev pub walk : Option Status → List ReviewHistoryEntry → Option Status
walk none es = none
walk (some st) [] = some st
walk (some st) (e ∷ es) = walk (step_from st e) es

-- The entries of each skill that is there lead from draft to its status.
abbrev pub IsRecorded : Market → Type 0
IsRecorded s =
    (name version : String) (st : Status)
    → status_of name version s ≡ some st
    → walk (some draft) (keep (is_entry_of name version) s.review_history) ≡ some st

abbrev pub perform_all : (String → Parsed) → List (ℕ × Operation) → Market → Market
perform_all load [] s = s
perform_all load ((now, op) ∷ ops) s = perform_all load ops (perform load now op s).1

walk-append :
    (o : Option Status) (es : List ReviewHistoryEntry) (e : ReviewHistoryEntry) (st : Status)
    → walk o es ≡ some st
    → walk o (es ++ e ∷ []) ≡ walk (some st) (e ∷ [])
walk-append none es e st h = absurd (cc)
walk-append (some old) [] e st h = ap (λ o. walk o (e ∷ [])) h
walk-append (some old) (d ∷ es) e st h = walk-append (step_from old d) es e st h

keep-last :
    (p : ReviewHistoryEntry → Bool) (es : List ReviewHistoryEntry) (e : ReviewHistoryEntry)
    → keep p (es ++ e ∷ []) ≡ (if p e then keep p es ++ e ∷ [] else keep p es)
keep-last p [] e = ground arith
keep-last p (d ∷ es) e = ground (arith, keep-last p es e)

is_in_self : (st : Status) → is_in st (some st) ≡ true
is_in_self draft = refl
is_in_self pending_review = refl
is_in_self approved = refl
is_in_self rejected = refl

submit_move : (st : Status) → is_in draft (some st) ≡ true → is_move st submit pending_review ≡ true
submit_move draft h = refl
submit_move pending_review h = h
submit_move approved h = h
submit_move rejected h = h

reject_move :
    (st : Status) → is_in pending_review (some st) ≡ true → is_move st reject rejected ≡ true
reject_move draft h = h
reject_move pending_review h = refl
reject_move approved h = h
reject_move rejected h = h

reset_move : (st : Status) → is_in rejected (some st) ≡ true → is_move st reset draft ≡ true
reset_move draft h = h
reset_move pending_review h = h
reset_move approved h = h
reset_move rejected h = refl

approve_move : (st : Status) → is_move st approve approved ≡ true
approve_move draft = refl
approve_move pending_review = refl
approve_move approved = refl
approve_move rejected = refl

-- What is permitted is a move.
permitted_move :
    (load : String → Parsed) (op : Operation) (row : Skill)
    → permitted load op (some row) ≡ true
    → is_move row.status (action_of op) (goes_to (action_of op)) ≡ true
permitted_move load (to_submit _ _) row h = submit_move row.status h
permitted_move load (to_approve _ _ _ _) row h = approve_move row.status
permitted_move load (to_reject _ _ reason _) row h = reject_move row.status (ground (arith, h))
permitted_move load (to_reset _ _ _) row h = reset_move row.status h

-- One entry that is a move from the status before it
walk_one :
    (old new : Status) (e : ReviewHistoryEntry)
    → e.old_status ≡ some old
    → e.new_status ≡ new
    → is_move old e.action new ≡ true
    → walk (some old) (e ∷ []) ≡ some new
walk_one old new e eo en h =
    let here : is_in old e.old_status ≡ true = ap (is_in old) eo ∙ is_in_self old in
    let there : is_move old e.action e.new_status ≡ true = ap (is_move old e.action) en ∙ h in
    let one : step_from old e ≡ some new = rw here (rw there (ap some en)) in
    ap (λ o. walk o []) one

module _ (load : String → Parsed) (now : ℕ) (op : Operation) (s : Market)
    (kept : IsRecorded s) where
  abbrev mine : String → String → Bool
  mine name version = same_skill (name_of op) (version_of op) name version

  entry_mine :
      (e : ReviewHistoryEntry) (name version : String)
      → e.skill_name ≡ name_of op
      → e.skill_version ≡ version_of op
      → is_entry_of name version e ≡ mine name version
  entry_mine e name version en ev =
      ap (λ x. same_skill x e.skill_version name version) en
      ∙ ap (λ x. same_skill (name_of op) x name version) ev

  done-walk :
      (row : Skill) (e : ReviewHistoryEntry) (name version : String) (st : Status)
      → get_skill (name_of op) (version_of op) s.skill_market ≡ some row
      → is_move row.status (action_of op) (goes_to (action_of op)) ≡ true
      → (e.skill_name ≡ name_of op) × (e.skill_version ≡ version_of op)
      → (e.action ≡ action_of op)
        × (e.old_status ≡ some row.status)
        × (e.new_status ≡ goes_to (action_of op))
      → (if mine name version then some (goes_to (action_of op)) else status_of name version s)
        ≡ some st
      → walk (some draft) (keep (is_entry_of name version) (s.review_history ++ e ∷ [])) ≡ some st
  done-walk row e name version st at mv (en, ev) (ea, eo, ew) h =
      elim (Bool-cases (mine name version)) [
        | inl same ↦ rw (keep-last (is_entry_of name version) s.review_history e) (
            rw (entry_mine e name version en ev) (
              rw same (
                walk-append (some draft) (keep (is_entry_of name version) s.review_history) e
                  row.status
                  (kept name version row.status (
                    ap status_in (
                      at_same (name_of op) (version_of op) name version s.skill_market row same
                        at)))
                ∙ walk_one row.status (goes_to (action_of op)) e eo ew
                    (ap (λ a. is_move row.status a (goes_to (action_of op))) ea ∙ mv)
                ∙ ground (arith, h, same))))
        | inr other ↦ rw (keep-last (is_entry_of name version) s.review_history e) (
            rw (entry_mine e name version en ev)
              (rw other (kept name version st (ground (arith, h, other)))))
      ]

  Performed-IsRecorded :
      (r : Bool × Market)
      → Performed op s (permitted load op (get_skill (name_of op) (version_of op) s.skill_market)) r
      → IsRecorded r.1
  Performed-IsRecorded r (refused _ e) name version st h =
      ap (λ x. walk (some draft) (keep (is_entry_of name version) x.1.review_history)) e
      ∙ kept name version st (sym (ap (λ x. status_of name version x.1) e) ∙ h)
  Performed-IsRecorded r (done row f e allowed at sets of_op is_op _ rows entries) name version st
        h =
      ap (λ x. walk (some draft) (keep (is_entry_of name version) x)) entries
      ∙ done-walk row e name version st at
          (permitted_move load op row (sym (ap (permitted load op) at) ∙ allowed)) of_op is_op
          (sym (
              ap (λ x. status_in (get_skill name version x)) rows
              ∙ status_of-change (name_of op) (version_of op) name version (goes_to (action_of op))
                  f s.skill_market row sets at)
            ∙ h)

-- After any series of submissions, approvals, rejections and resets, the history entries of each skill
-- lead by moves of the pipeline, each from the status that the one before it left, from draft to the
-- status that the skill has, if they did so before; an approval may be a move from any status.
pub perform_all-IsRecorded :
    (load : String → Parsed) (ops : List (ℕ × Operation)) (s : Market)
    → IsRecorded s
    → IsRecorded (perform_all load ops s)
perform_all-IsRecorded load [] s h = h
perform_all-IsRecorded load ((now, op) ∷ ops) s h =
    perform_all-IsRecorded load ops (perform load now op s).1 (
      Performed-IsRecorded load now op s h (perform load now op s)
        (perform-Performed load now op s))
