-- ===== src/Skills/Review/Operations.antt =====
-- The four operations that change a status as one, and when each of them is done.
use sccsos.Prelude.{ℕ, String, ◌≡◌, Bool, true, false, not, ◌&&◌, Option, none, some, str_eq, has}
use sccsos.Prelude.Dict.{keys}
use sccsos.Prelude.Text.{codes, strip}
use sccsos.Skills.Validation.{Parsed, yaml_error, no_mapping, mapping, is_nil}
use sccsos.Skills.Review.{
  Status, draft, pending_review, approved, rejected, Skill, Action, submit, approve, reject, reset,
  Market, is_skill, status_in, submit_for_review, approve_skill, reject_skill, reset_to_draft,
}

pub data Operation : Type 0 where
  to_submit : (name version : String) → Operation
  to_approve : (name version reviewer notes : String) → Operation
  to_reject : (name version reason reviewer : String) → Operation
  to_reset : (name version reviewer : String) → Operation

abbrev pub name_of : Operation → String
name_of (to_submit name _) = name
name_of (to_approve name _ _ _) = name
name_of (to_reject name _ _ _) = name
name_of (to_reset name _ _) = name

abbrev pub version_of : Operation → String
version_of (to_submit _ version) = version
version_of (to_approve _ version _ _) = version
version_of (to_reject _ version _ _) = version
version_of (to_reset _ version _) = version

abbrev pub action_of : Operation → Action
action_of (to_submit _ _) = submit
action_of (to_approve _ _ _ _) = approve
action_of (to_reject _ _ _ _) = reject
action_of (to_reset _ _ _) = reset

abbrev pub perform : (String → Parsed) → ℕ → Operation → Market → Bool × Market
perform load now (to_submit name version) s = submit_for_review name version now s
perform load now (to_approve name version reviewer notes) s =
    approve_skill load name version reviewer notes now s
perform load now (to_reject name version reason reviewer) s =
    reject_skill name version reason reviewer now s
perform load now (to_reset name version reviewer) s = reset_to_draft name version reviewer now s

-- A content that is a mapping with both required fields
abbrev pub is_full : Parsed → Bool
is_full (yaml_error text) = false
is_full no_mapping = false
is_full (mapping d) = has "name" (keys d) && has "system_prompt" (keys d)

abbrev pub is_complete : (String → Parsed) → Option Skill → Bool
is_complete load none = false
is_complete load (some r) = not (is_nil (strip (codes r.content))) && is_full (load r.content)

abbrev pub is_in : Status → Option Status → Bool
is_in draft (some draft) = true
is_in pending_review (some pending_review) = true
is_in approved (some approved) = true
is_in rejected (some rejected) = true
is_in _ _ = false

-- When an operation is done, from the row that it is about
abbrev pub permitted : (String → Parsed) → Operation → Option Skill → Bool
permitted load (to_submit _ _) row = is_in draft (status_in row)
permitted load (to_approve _ _ _ _) row = is_complete load row
permitted load (to_reject _ _ reason _) row =
    not (str_eq reason "") && is_in pending_review (status_in row)
permitted load (to_reset _ _ _) row = is_in rejected (status_in row)

abbrev pub goes_to : Action → Status
goes_to submit = pending_review
goes_to approve = approved
goes_to reject = rejected
goes_to reset = draft

-- A change of a row that gives it a status
pub record Sets (st : Status) (f : Skill → Skill) : Type 0 where
  pub same_skill :
      (name version : String) (r : Skill) → is_skill name version (f r) ≡ is_skill name version r
  pub new_status : (r : Skill) → (f r).status ≡ st
  pub same_type : (r : Skill) → (f r).type ≡ r.type
