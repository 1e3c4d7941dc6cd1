-- ===== src/Skills/Validation.antt =====
-- The part of `SkillReviewManager.validate` in sccsos/core/skill_review.py that looks at a content. What
-- `yaml.safe_load` gives for it is an argument (`Parsed`).
use sccsos.Prelude.{
  String, Bool, true, false, Option, none, some, List, [], ◌∷◌, has, if◌then◌else◌,
}
use sccsos.Prelude.Dict.{Dict, get, keys}
use sccsos.Prelude.Text.{codes, lower, strip, holds_text}

-- What `yaml.safe_load` gives: an error, a value that is no dict, or a dict with `str` of its values
pub data Parsed : Type 0 where
  yaml_error : String → Parsed
  no_mapping : Parsed
  mapping : Dict String → Parsed

pub data Problem : Type 0 where
  not_found : Problem
  empty_content : Problem
  parse_error : String → Problem
  not_a_mapping : Problem
  missing_field : String → Problem

pub record ValidationResult : Type 0 where
  pub valid : Bool
  pub errors : List Problem
  pub warnings : List String

-- `dangerous` of `validate`
abbrev pub dangerous : List (String × String)
dangerous =
    ("ignore all previous instructions", "Prompt injection risk: override instruction")
    ∷ ("you are now", "Prompt injection risk: role override")
    ∷ ("system override", "Prompt injection risk: system override pattern")
    ∷ ("<|im_start|>", "Prompt injection risk: token injection")
    ∷ []

abbrev pub warned : String → List (String × String) → List String
warned prompt [] = []
warned prompt ((pattern, warning) ∷ ps) =
    let rest = warned prompt ps in
    if holds_text (lower (codes pattern)) (lower (codes prompt)) then warning ∷ rest else rest

-- `for field_name in self.REQUIRED_FIELDS`
abbrev pub missing : List String → Dict String → List Problem
missing [] d = []
missing (f ∷ fs) d =
    let rest = missing fs d in if has f (keys d) then rest else missing_field f ∷ rest

abbrev pub is_nil {ℓ} : {A : Type ℓ} → List A → Bool
is_nil [] = true
is_nil (x ∷ xs) = false

abbrev pub or_blank : Option String → String
or_blank none = ""
or_blank (some t) = t

abbrev pub failed_with : Problem → ValidationResult
failed_with p = record { valid = false; errors = p ∷ []; warnings = [] }

abbrev pub validate_parsed : Parsed → ValidationResult
validate_parsed (yaml_error text) = failed_with (parse_error text)
validate_parsed no_mapping = failed_with not_a_mapping
validate_parsed (mapping d) =
    let errors = missing ("name" ∷ "system_prompt" ∷ []) d in
    record {
      valid = is_nil errors;
      errors = errors;
      warnings = warned (or_blank (get "system_prompt" d)) dangerous;
    }

abbrev pub validate_content : (String → Parsed) → String → ValidationResult
validate_content load content =
    if is_nil (strip (codes content))
    then failed_with empty_content
    else validate_parsed (load content)
