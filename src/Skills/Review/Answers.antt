-- ===== src/Skills/Review/Answers.antt =====
-- What the operations answer, and the status that each skill has behind them.
use sccsos.Prelude.{
  ℕ, String, ◌≡◌, refl, sym, ap, ◌∙◌, Bool, true, false, ◌&&◌, Option, none, some, List, [], ◌∷◌,
  if◌then◌else◌, str_eq, arith, inl, inr, Bool-cases, eq_iff, eq_refl,
}
use sccsos.Skills.Validation.{Parsed}
use sccsos.Skills.Review.{
  Status, Skill, Market, Installed, get_skill, update_skills, status_in, status_of, is_installed,
  install, approved, approval_notes, approved_in, approve_skill, validate,
}
use sccsos.Skills.Review.Operations.{
  Operation, name_of, version_of, action_of, perform, permitted, goes_to, Sets,
}
use sccsos.Skills.Review.Moves.{Performed, refused, done, perform-Performed}

abbrev changed : (Skill → Skill) → Option Skill → Option Skill
changed f none = none
changed f (some r) = some (f r)

abbrev pub same_skill : String → String → String → String → Bool
same_skill n v name version = str_eq n name && str_eq v version

get_skill-update_skills :
    (n v name version : String) (st : Status) (f : Skill → Skill) (rows : List Skill)
    → Sets st f
    → get_skill name version (update_skills n v f rows) ≡ (
        if same_skill n v name version
        then changed f (get_skill name version rows)
        else get_skill name version rows)
unfolding get_skill update_skills
get_skill-update_skills n v name version st f [] h = ground arith
get_skill-update_skills n v name version st f (r ∷ rows) h = ground (
  arith,
  get_skill-update_skills n v name version st f rows h,
  h.same_skill name version r,
  eq_iff r.name n,
  eq_iff r.name name,
  eq_iff r.version v,
  eq_iff r.version version,
  eq_iff n name,
  eq_iff v version,
)

changed-status :
    (st : Status) (f : Skill → Skill) (row : Skill) (o : Option Skill)
    → Sets st f
    → o ≡ some row
    → status_in (changed f o) ≡ some st
changed-status st f row o h e = ap (λ x. status_in (changed f x)) e ∙ ap some (h.new_status row)

pub at_same :
    (n v name version : String) (rows : List Skill) (row : Skill)
    → same_skill n v name version ≡ true
    → get_skill n v rows ≡ some row
    → get_skill name version rows ≡ some row
at_same n v name version rows row h e =
    let en : name ≡ n = ground (arith, h, eq_iff n name) in
    let ev : version ≡ v = ground (arith, h, eq_iff v version) in
    ap (λ x. get_skill x version rows) en ∙ ap (λ x. get_skill n x rows) ev ∙ e

-- The status of a skill behind a change of another, or of the same
pub status_of-change :
    (n v name version : String) (st : Status) (f : Skill → Skill) (rows : List Skill) (row : Skill)
    → Sets st f
    → get_skill n v rows ≡ some row
    → status_in (get_skill name version (update_skills n v f rows))
      ≡ (if same_skill n v name version then some st else status_in (get_skill name version rows))
status_of-change n v name version st f rows row h e =
    elim (Bool-cases (same_skill n v name version)) [
      | inl same ↦ rw (get_skill-update_skills n v name version st f rows h) (
          rw same (
            changed-status st f row (get_skill name version rows) h
              (at_same n v name version rows row same e)))
      | inr other ↦ rw (get_skill-update_skills n v name version st f rows h) (rw other refl)
    ]

-- What an operation permits or refuses, as a statement on its result
performed :
    (load : String → Parsed) (op : Operation) (s : Market) (b : Bool) (r : Bool × Market)
    → Performed op s b r
    → (r.0 ≡ b)
      × (b ≡ false → r.1 ≡ s)
      × ((name version : String)
          → status_of name version r.1 ≡ (
              if b && same_skill (name_of op) (version_of op) name version
              then some (goes_to (action_of op))
              else status_of name version s))
performed load op s b r (refused no_way e) = (
  ap (λ x. x.0) e ∙ sym no_way,
  (λ h. ap (λ x. x.1) e),
  λ name version. ap (λ x. status_of name version x.1) e ∙ ground (arith, no_way),
)
performed load op s b r (done row f entry yes_way e sets _ _ answer rows _) = (
  answer ∙ sym yes_way,
  (λ h. absurd (cc)),
  λ name version.
      ap (λ x. status_in (get_skill name version x)) rows
      ∙ status_of-change (name_of op) (version_of op) name version (goes_to (action_of op)) f
          s.skill_market row sets e
      ∙ ground (arith, yes_way),
)

-- Each of submit, approve, reject and reset answers true where it is permitted: submit for a draft,
-- reject with a reason for a pending skill, reset for a rejected one, and approve for a skill of any
-- status whose content is a mapping with the required fields. Then the skill gets the status of the
-- operation, and every other skill keeps its own. Where it is not permitted, nothing changes.
pub perform-permitted :
    (load : String → Parsed) (now : ℕ) (op : Operation) (s : Market)
    → let b = permitted load op (get_skill (name_of op) (version_of op) s.skill_market) in
      ((perform load now op s).0 ≡ b)
      × (b ≡ false → (perform load now op s).1 ≡ s)
      × ((name version : String)
          → status_of name version (perform load now op s).1 ≡ (
              if b && same_skill (name_of op) (version_of op) name version
              then some (goes_to (action_of op))
              else status_of name version s))
perform-permitted load now op s =
    performed load op s (permitted load op (get_skill (name_of op) (version_of op) s.skill_market))
      (perform load now op s) (perform-Performed load now op s)

get_skill_updated :
    (name version : String) (st : Status) (f : Skill → Skill) (rows : List Skill) (row : Skill)
    → Sets st f
    → get_skill name version rows ≡ some row
    → get_skill name version (update_skills name version f rows) ≡ some (f row)
get_skill_updated name version st f rows row h e =
    let same : same_skill name version name version ≡ true =
      ground (arith, eq_refl name, eq_refl version) in
    get_skill-update_skills name version name version st f rows h
    ∙ ap (λ b. if b then changed f (get_skill name version rows) else get_skill name version rows)
        same
    ∙ ap (changed f) e

install_again :
    (name version : String) (o : Option Skill) (row : Skill) (rows : List Installed)
    → o ≡ some row
    → is_installed name row.type rows ≡ true
    → install name version o rows ≡ rows
install_again name version none row rows e h = absurd (cc)
install_again name version (some r) row rows e h = ground (arith, e, h)

approved_keeps :
    (name version reviewer notes : String) (now : ℕ) (s : Market) (row : Skill)
    → get_skill name version s.skill_market ≡ some row
    → is_installed name row.type s.installed_skills ≡ true
    → (approved_in name version reviewer notes now s).installed_skills ≡ s.installed_skills
unfolding approved_in
approved_keeps name version reviewer notes now s row e h =
    let f : Skill → Skill = λ r. record r {
      status = approved;
      review_notes = approval_notes reviewer notes;
      updated_at = now;
    } in
    install_again name version
      (get_skill name version (update_skills name version f s.skill_market)) (f row)
      s.installed_skills
      (get_skill_updated name version approved f s.skill_market row
        (record { same_skill = λ n v r. refl; new_status = λ r. refl; same_type = λ r. refl }) e)
      h

-- An approval of a version of a skill that is installed, in whatever version, leaves the table of the
-- installed skills as it is: the installed version stays.
pub approve-keeps_installed :
    (load : String → Parsed) (name version reviewer notes : String) (now : ℕ) (s : Market)
    (row : Skill)
    → get_skill name version s.skill_market ≡ some row
    → is_installed name row.type s.installed_skills ≡ true
    → (approve_skill load name version reviewer notes now s).1.installed_skills ≡ s.installed_skills
unfolding approve_skill
approve-keeps_installed load name version reviewer notes now s row e h =
    elim (Bool-cases (validate load name version s).valid) [
      | inl good ↦ rw good (approved_keeps name version reviewer notes now s row e h)
      | inr bad ↦ rw bad refl
    ]
