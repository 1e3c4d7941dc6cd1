-- ===== src/Skills/Review.antt =====
-- sccsos/core/skill_review.py: `SkillReviewManager` on its tables. Of a skill only the columns
-- are kept that a review reads or writes. Comments are in the child Comments. The comparison of two versions, which only reads, is left out.
pub mod Operations
pub mod Moves
pub mod Answers
pub mod History
pub mod Comments
mod Examples
use Prim.Native.String.{◌++◌ as ◌+++◌}
use sccsos.Prelude.{
  ℕ, ◌+◌, String, Bool, true, false, not, ◌&&◌, ◌||◌, Option, none, some, List, [], ◌∷◌, ◌++◌, map,
  has, keep, some_of, if◌then◌else◌, str_eq, ltb, ◌==◌,
}
use sccsos.Skills.Validation.{Parsed, ValidationResult, not_found, failed_with, validate_content}

-- `VALID_STATUSES`
pub data Status : Type 0 where
  draft pending_review approved rejected : Status

-- A row of `skill_market`
pub record Skill : Type 0 where
  pub name : String
  pub version : String
  pub type : String
  pub content : String
  pub status : Status
  pub review_notes : String
  pub updated_at : ℕ

pub record Installed : Type 0 where
  pub name : String
  pub version : String
  pub type : String

pub record ReviewComment : Type 0 where
  pub id : ℕ
  pub skill_name : String
  pub skill_version : String
  pub reviewer : String
  pub comment : String
  pub parent_id : ℕ
  pub created_at : ℕ

pub data Action : Type 0 where
  submit approve reject reset : Action

pub record ReviewHistoryEntry : Type 0 where
  pub skill_name : String
  pub skill_version : String
  pub action : Action
  pub reviewer : String
  pub old_status : Option Status
  pub new_status : Status
  pub detail : String
  pub created_at : ℕ

pub data SkillEvent : Type 0 where
  skill_submitted : (name version : String) → SkillEvent
  skill_approved : (name version reviewer : String) → SkillEvent
  skill_rejected : (name version reason : String) → SkillEvent
  skill_reset : (name version : String) → SkillEvent

-- The tables and the bus; `next_id` is the next id of a comment.
pub record Market : Type 0 where
  pub skill_market : List Skill
  pub installed_skills : List Installed
  pub review_comments : List ReviewComment
  pub next_id : ℕ
  pub review_history : List ReviewHistoryEntry
  pub emitted : List SkillEvent

abbrev pub is_skill : String → String → Skill → Bool
is_skill name version r = str_eq r.name name && str_eq r.version version

-- `_get_skill`
pub get_skill : String → String → List Skill → Option Skill
get_skill name version [] = none
get_skill name version (r ∷ rows) =
    let rest = get_skill name version rows in if is_skill name version r then some r else rest

-- `UPDATE skill_market SET … WHERE name = ? AND version = ?`
pub update_skills : String → String → (Skill → Skill) → List Skill → List Skill
update_skills name version f [] = []
update_skills name version f (r ∷ rows) =
    let rest = update_skills name version f rows in
    if is_skill name version r then f r ∷ rest else r ∷ rest

-- What each change of a status writes: the row, the entry of `_record_history`, the event
abbrev pub moved :
    String → String → (Skill → Skill) → ReviewHistoryEntry → SkillEvent → Market → Market
moved name version f entry event s = record s {
  skill_market = update_skills name version f s.skill_market;
  review_history = s.review_history ++ entry ∷ [];
  emitted = s.emitted ++ event ∷ [];
}

-- `submit_for_review`, behind `_get_skill`
submit_in : String → String → ℕ → Option Status → Market → Bool × Market
unfolding update_skills
submit_in name version now (some draft) s = (
  true,
  moved name version (λ r. record r { status = pending_review; updated_at = now })
      (record {
        skill_name = name;
        skill_version = version;
        action = submit;
        reviewer = "";
        old_status = some draft;
        new_status = pending_review;
        detail = "";
        created_at = now;
      })
      (skill_submitted name version) s,
)
submit_in name version now none s = (false, s)
submit_in name version now (some pending_review) s = (false, s)
submit_in name version now (some approved) s = (false, s)
submit_in name version now (some rejected) s = (false, s)

abbrev pub status_in : Option Skill → Option Status
status_in none = none
status_in (some r) = some r.status

-- The status of a row, if it is there
abbrev pub status_of : String → String → Market → Option Status
status_of name version s = status_in (get_skill name version s.skill_market)

unfoldable pub submit_for_review : String → String → ℕ → Market → Bool × Market
unfolding submit_in get_skill
submit_for_review name version now s = submit_in name version now (status_of name version s) s

abbrev pub validate_in : (String → Parsed) → Option Skill → ValidationResult
validate_in load none = failed_with not_found
validate_in load (some r) = validate_content load r.content

unfoldable pub validate : (String → Parsed) → String → String → Market → ValidationResult
unfolding get_skill
validate load name version s = validate_in load (get_skill name version s.skill_market)

-- `INSERT OR IGNORE INTO installed_skills`, whose rows are unique by name and type
abbrev pub is_installed : String → String → List Installed → Bool
is_installed name type = some_of (λ i. str_eq i.name name && str_eq i.type type)

abbrev pub install : String → String → Option Skill → List Installed → List Installed
install name version none rows = rows
install name version (some r) rows =
    if is_installed name r.type rows
    then rows
    else rows ++ record { name = name; version = version; type = r.type } ∷ []

abbrev pub approval_notes : String → String → String
approval_notes reviewer notes =
    if str_eq notes ""
    then "Approved by " +++ reviewer
    else "Approved by " +++ reviewer +++ ": " +++ notes

approved_in : String → String → String → String → ℕ → Market → Market
unfolding update_skills get_skill
approved_in name version reviewer notes now s =
    let old = status_of name version s in
    let s' =
      moved name version
        (λ r. record r {
          status = approved;
          review_notes = approval_notes reviewer notes;
          updated_at = now;
        })
        (record {
          skill_name = name;
          skill_version = version;
          action = approve;
          reviewer = reviewer;
          old_status = old;
          new_status = approved;
          detail = notes;
          created_at = now;
        })
        (skill_approved name version reviewer) s in
    record s' {
      installed_skills =
          install name version (get_skill name version s'.skill_market) s.installed_skills;
    }

-- `approve`
unfoldable pub approve_skill :
    (String → Parsed) → String → String → String → String → ℕ → Market → Bool × Market
unfolding validate approved_in
approve_skill load name version reviewer notes now s =
    if (validate load name version s).valid
    then (true, approved_in name version reviewer notes now s)
    else (false, s)

reject_in : String → String → String → String → ℕ → Option Status → Market → Bool × Market
unfolding update_skills
reject_in name version reason reviewer now (some pending_review) s = (
  true,
  moved name version
      (λ r. record r {
        status = rejected;
        review_notes = "Rejected by " +++ reviewer +++ ": " +++ reason;
        updated_at = now;
      })
      (record {
        skill_name = name;
        skill_version = version;
        action = reject;
        reviewer = reviewer;
        old_status = some pending_review;
        new_status = rejected;
        detail = reason;
        created_at = now;
      })
      (skill_rejected name version reason) s,
)
reject_in name version reason reviewer now none s = (false, s)
reject_in name version reason reviewer now (some draft) s = (false, s)
reject_in name version reason reviewer now (some approved) s = (false, s)
reject_in name version reason reviewer now (some rejected) s = (false, s)

-- `reject`
unfoldable pub reject_skill : String → String → String → String → ℕ → Market → Bool × Market
unfolding reject_in get_skill
reject_skill name version reason reviewer now s =
    if str_eq reason ""
    then (false, s)
    else reject_in name version reason reviewer now (status_of name version s) s

reset_in : String → String → String → ℕ → Option Status → Market → Bool × Market
unfolding update_skills
reset_in name version reviewer now (some rejected) s = (
  true,
  moved name version (λ r. record r { status = draft; review_notes = ""; updated_at = now })
      (record {
        skill_name = name;
        skill_version = version;
        action = reset;
        reviewer = reviewer;
        old_status = some rejected;
        new_status = draft;
        detail = "";
        created_at = now;
      })
      (skill_reset name version) s,
)
reset_in name version reviewer now none s = (false, s)
reset_in name version reviewer now (some draft) s = (false, s)
reset_in name version reviewer now (some pending_review) s = (false, s)
reset_in name version reviewer now (some approved) s = (false, s)

unfoldable pub reset_to_draft : String → String → String → ℕ → Market → Bool × Market
unfolding reset_in get_skill
reset_to_draft name version reviewer now s =
    reset_in name version reviewer now (status_of name version s) s
