-- ===== src/Skills/Review/Moves.antt =====
-- What each of the four operations does to the tables.
use sccsos.Prelude.{
  ℕ, String, ◌≡◌, refl, sym, ap, ◌∙◌, Bool, true, false, Option, none, some, [], ◌∷◌, ◌++◌, str_eq,
  arith, inl, inr, Bool-cases,
}
use sccsos.Prelude.Text.{codes, strip}
use sccsos.Skills.Validation.{Parsed, yaml_error, no_mapping, mapping, is_nil, validate_parsed}
use sccsos.Skills.Review.{
  Status, draft, pending_review, approved, rejected, Skill, ReviewHistoryEntry, Market, get_skill,
  update_skills, status_in, submit_in, submit_for_review, validate_in, validate, approved_in,
  approve_skill, reject_in, reject_skill, reset_in, reset_to_draft,
}
use sccsos.Skills.Review.Operations.{
  Operation, name_of, version_of, action_of, perform, is_full, is_complete, is_in, permitted,
  goes_to, Sets, to_submit, to_approve, to_reject, to_reset,
}

-- What an operation makes of a market: nothing, or a change of one row with its entry
pub data Performed (op : Operation) (s : Market) (allowed : Bool) (r : Bool × Market) : Type 0 where
  refused : allowed ≡ false → r ≡ (false, s) → Performed op s allowed r
  done :
      (row : Skill) (f : Skill → Skill) (e : ReviewHistoryEntry)
      → allowed ≡ true
      → get_skill (name_of op) (version_of op) s.skill_market ≡ some row
      → Sets (goes_to (action_of op)) f
      → (e.skill_name ≡ name_of op) × (e.skill_version ≡ version_of op)
      → (e.action ≡ action_of op)
        × (e.old_status ≡ some row.status)
        × (e.new_status ≡ goes_to (action_of op))
      → r.0 ≡ true
      → (r.1).skill_market ≡ update_skills (name_of op) (version_of op) f s.skill_market
      → (r.1).review_history ≡ s.review_history ++ e ∷ []
      → Performed op s allowed r

module _ (s : Market) (name version : String) (now : ℕ) where
  -- The row that was read, and its status
  submitted :
      (row : Skill) (st : Status)
      → get_skill name version s.skill_market ≡ some row
      → row.status ≡ st
      → Performed
          (to_submit name version)
          s
          (is_in draft (some st))
          (submit_in name version now (some st) s)
  unfolding submit_in
  submitted row draft e h =
      done row _ _ refl e
        (record { same_skill = λ n v r. refl; new_status = λ r. refl; same_type = λ r. refl })
        (refl, refl) (refl, ap some (sym h), refl) refl refl refl
  submitted row pending_review e h = refused refl refl
  submitted row approved e h = refused refl refl
  submitted row rejected e h = refused refl refl

  submit-Performed :
      (o : Option Skill)
      → get_skill name version s.skill_market ≡ o
      → Performed
          (to_submit name version)
          s
          (is_in draft (status_in o))
          (submit_in name version now (status_in o) s)
  unfolding submit_in
  submit-Performed none e = refused refl refl
  submit-Performed (some row) e = submitted row row.status e refl

  was_rejected :
      (reviewer : String) (row : Skill) (st : Status)
      → get_skill name version s.skill_market ≡ some row
      → row.status ≡ st
      → Performed
          (to_reset name version reviewer)
          s
          (is_in rejected (some st))
          (reset_in name version reviewer now (some st) s)
  unfolding reset_in
  was_rejected reviewer row rejected e h =
      done row _ _ refl e
        (record { same_skill = λ n v r. refl; new_status = λ r. refl; same_type = λ r. refl })
        (refl, refl) (refl, ap some (sym h), refl) refl refl refl
  was_rejected reviewer row pending_review e h = refused refl refl
  was_rejected reviewer row approved e h = refused refl refl
  was_rejected reviewer row draft e h = refused refl refl

  reset-Performed :
      (reviewer : String) (o : Option Skill)
      → get_skill name version s.skill_market ≡ o
      → Performed
          (to_reset name version reviewer)
          s
          (is_in rejected (status_in o))
          (reset_in name version reviewer now (status_in o) s)
  unfolding reset_in
  reset-Performed reviewer none e = refused refl refl
  reset-Performed reviewer (some row) e = was_rejected reviewer row row.status e refl

  was_pending :
      (reason reviewer : String) (row : Skill) (st : Status)
      → str_eq reason "" ≡ false
      → get_skill name version s.skill_market ≡ some row
      → row.status ≡ st
      → Performed
          (to_reject name version reason reviewer)
          s
          (is_in pending_review (some st))
          (reject_in name version reason reviewer now (some st) s)
  unfolding reject_in
  was_pending reason reviewer row pending_review g e h =
      done row _ _ refl e
        (record { same_skill = λ n v r. refl; new_status = λ r. refl; same_type = λ r. refl })
        (refl, refl) (refl, ap some (sym h), refl) refl refl refl
  was_pending reason reviewer row draft g e h = refused refl refl
  was_pending reason reviewer row approved g e h = refused refl refl
  was_pending reason reviewer row rejected g e h = refused refl refl

  reject-Performed :
      (reason reviewer : String) (o : Option Skill)
      → str_eq reason "" ≡ false
      → get_skill name version s.skill_market ≡ o
      → Performed
          (to_reject name version reason reviewer)
          s
          (is_in pending_review (status_in o))
          (reject_in name version reason reviewer now (status_in o) s)
  unfolding reject_in
  reject-Performed reason reviewer none g e = refused refl refl
  reject-Performed reason reviewer (some row) g e =
      was_pending reason reviewer row row.status g e refl

  approve-done :
      (load : String → Parsed) (reviewer notes : String) (row : Skill)
      → get_skill name version s.skill_market ≡ some row
      → Performed
          (to_approve name version reviewer notes)
          s
          true
          (true, approved_in name version reviewer notes now s)
  unfolding approved_in
  approve-done load reviewer notes row e =
      done row _ _ refl e
        (record { same_skill = λ n v r. refl; new_status = λ r. refl; same_type = λ r. refl })
        (refl, refl) (refl, ap status_in e, refl) refl refl refl

validate_parsed-valid : (p : Parsed) → (validate_parsed p).valid ≡ is_full p
validate_parsed-valid (yaml_error text) = refl
validate_parsed-valid no_mapping = refl
validate_parsed-valid (mapping d) = ground arith

-- A validation says valid for a row whose content is a mapping with the required fields.
validate_in-valid :
    (load : String → Parsed) (o : Option Skill) → (validate_in load o).valid ≡ is_complete load o
validate_in-valid load none = refl
validate_in-valid load (some r) = elim (Bool-cases (is_nil (strip (codes r.content)))) [
  | inl blank ↦ rw blank refl
  | inr filled ↦ rw filled (validate_parsed-valid (load r.content))
]

validate-valid :
    (load : String → Parsed) (s : Market) (name version : String) (o : Option Skill)
    → get_skill name version s.skill_market ≡ o
    → (validate load name version s).valid ≡ is_complete load o
unfolding validate
validate-valid load s name version o e =
    ap (λ x. (validate_in load x).valid) e ∙ validate_in-valid load o

approve-Performed :
    (load : String → Parsed) (s : Market) (name version reviewer notes : String) (now : ℕ)
    (o : Option Skill)
    → get_skill name version s.skill_market ≡ o
    → Performed
        (to_approve name version reviewer notes)
        s
        (is_complete load o)
        (approve_skill load name version reviewer notes now s)
unfolding approve_skill
approve-Performed load s name version reviewer notes now none e =
    rw (validate-valid load s name version none e) (refused refl refl)
approve-Performed load s name version reviewer notes now (some row) e =
    elim (Bool-cases (is_complete load (some row))) [
      | inl good ↦
          rw (validate-valid load s name version (some row) e)
            (rw good (approve-done s name version now load reviewer notes row e))
      | inr bad ↦ rw (validate-valid load s name version (some row) e) (rw bad (refused refl refl))
    ]

reject_checked :
    (s : Market) (name version reason reviewer : String) (now : ℕ) (load : String → Parsed)
    → Performed
        (to_reject name version reason reviewer)
        s
        (permitted load
          (to_reject name version reason reviewer)
          (get_skill name version s.skill_market))
        (reject_skill name version reason reviewer now s)
unfolding reject_skill
reject_checked s name version reason reviewer now load = elim (Bool-cases (str_eq reason "")) [
  | inl blank ↦ rw blank (refused refl refl)
  | inr given ↦ rw given (
      reject-Performed s name version now reason reviewer (get_skill name version s.skill_market)
        given refl)
]

pub perform-Performed :
    (load : String → Parsed) (now : ℕ) (op : Operation) (s : Market)
    → Performed op s
        (permitted load op (get_skill (name_of op) (version_of op) s.skill_market))
        (perform load now op s)
unfolding submit_for_review reset_to_draft
perform-Performed load now (to_submit name version) s =
    submit-Performed s name version now (get_skill name version s.skill_market) refl
perform-Performed load now (to_approve name version reviewer notes) s =
    approve-Performed load s name version reviewer notes now (get_skill name version s.skill_market)
      refl
perform-Performed load now (to_reject name version reason reviewer) s =
    reject_checked s name version reason reviewer now load
perform-Performed load now (to_reset name version reviewer) s =
    reset-Performed s name version now reviewer (get_skill name version s.skill_market) refl
