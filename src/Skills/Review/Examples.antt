-- ===== src/Skills/Review/Examples.antt =====
-- One skill in two versions, of which the first is installed.
use sccsos.Prelude.{ℕ, String, ◌≡◌, refl, false, some, List, [], ◌∷◌, arith, if◌then◌else◌, ◌&&◌}
use sccsos.Prelude.Dict.{put, get}
use sccsos.Prelude.Text.{strip, lower, holds_text}
use sccsos.Skills.Validation.{Parsed, mapping}
use sccsos.Skills.Review.{
  draft, approved, pending_review, Skill, Market, get_skill, update_skills, status_of,
  submit_for_review, approve_skill, reject_skill, reset_to_draft,
}
use sccsos.Skills.Review.Operations.{
  Operation, to_submit, to_approve, to_reject, to_reset, perform, permitted,
}
use sccsos.Skills.Review.Answers.{same_skill, perform-permitted, approve-keeps_installed}
use sccsos.Skills.Review.History.{IsRecorded, perform_all, perform_all-IsRecorded}
use sccsos.Skills.Review.Comments.{Commented, add_comment, add_comment-Commented}

abbrev skill : String → Skill
skill version = record {
  name = "architect";
  version = version;
  type = "personality";
  content = "name: architect";
  status = draft;
  review_notes = "";
  updated_at = 0;
}

abbrev market : Market
market = record {
  skill_market = skill "1.0" ∷ skill "1.1" ∷ [];
  installed_skills = record { name = "architect"; version = "1.0"; type = "personality" } ∷ [];
  review_comments = [];
  next_id = 1;
  review_history = [];
  emitted = [];
}

abbrev load : String → Parsed
load text = mapping (("name", "architect") ∷ ("system_prompt", "You plan.") ∷ [])

abbrev ops : List (ℕ × Operation)
ops =
    (1, to_submit "architect" "1.1")
    ∷ (2, to_reject "architect" "1.1" "too short" "ann")
    ∷ (3, to_reset "architect" "1.1" "ann")
    ∷ (4, to_approve "architect" "1.1" "bob" "")
    ∷ []

program : Unit {0}
unfolding submit_for_review approve_skill reject_skill reset_to_draft get_skill update_skills strip
    lower holds_text get put
program = tt

-- The skill ends as approved, though it was a draft when it was approved.
approved_from_draft : status_of "architect" "1.1" (perform_all load ops market) ≡ some approved
unfolding program
approved_from_draft = refl

perform-permitted_example :
    let b =
      permitted load
        (to_submit "architect" "1.1")
        (get_skill "architect" "1.1" market.skill_market) in
    ((perform load 1 (to_submit "architect" "1.1") market).0 ≡ b)
    × (b ≡ false → (perform load 1 (to_submit "architect" "1.1") market).1 ≡ market)
    × ((name version : String)
        → status_of name version (perform load 1 (to_submit "architect" "1.1") market).1 ≡ (
            if b && same_skill "architect" "1.1" name version
            then some pending_review
            else status_of name version market))
perform-permitted_example = perform-permitted load 1 (to_submit "architect" "1.1") market

second_there : get_skill "architect" "1.1" market.skill_market ≡ some (skill "1.1")
unfolding program
second_there = refl

approve-keeps_installed_example :
    (approve_skill load "architect" "1.1" "bob" "" 4 market).1.installed_skills
    ≡ record { name = "architect"; version = "1.0"; type = "personality" } ∷ []
approve-keeps_installed_example =
    approve-keeps_installed load "architect" "1.1" "bob" "" 4 market (skill "1.1") second_there refl

market-IsRecorded : IsRecorded market
unfolding program
market-IsRecorded name version st h = ground (arith, h)

perform_all-IsRecorded_example : IsRecorded (perform_all load ops market)
perform_all-IsRecorded_example = perform_all-IsRecorded load ops market market-IsRecorded

add_comment-Commented_example :
    Commented (add_comment "architect" "ann" "Needs a license" "1.1" 0 5 market).1
add_comment-Commented_example =
    add_comment-Commented "architect" "ann" "Needs a license" "1.1" 0 5 market
      (record { threaded = tt; below = refl; first = omega arith })
