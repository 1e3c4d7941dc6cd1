-- ===== src/Skills/Review/Comments.antt =====
-- The comments of a review: `add_comment` and `list_comments`.
use sccsos.Prelude.{
  ℕ, ◌+◌, String, Bool, true, false, not, ◌&&◌, ◌||◌, Option, none, some, List, [], ◌∷◌, ◌++◌, keep,
  some_of, if◌then◌else◌, str_eq, ltb, ◌==◌, ◌<◌, ◌≡◌, ◌⊎◌, inl, inr, every, refl, sym, ap, ◌∙◌,
  arith, subst, Bool-cases,
}
use mathlib.Core.List.{append_assoc, append-nil}
use sccsos.Skills.Review.{Skill, ReviewComment, Market, get_skill}

-- `_get_comment_by_id`
abbrev pub has_comment : ℕ → List ReviewComment → Bool
has_comment id = some_of (λ c. c.id == id)

comment_in :
    String
    → String
    → String
    → String
    → ℕ
    → ℕ
    → Option Skill
    → Market
    → Option ReviewComment × Market
comment_in name reviewer text version parent_id now none s = (none, s)
comment_in name reviewer text version parent_id now (some r) s =
    let c : ReviewComment = record {
      id = s.next_id;
      skill_name = name;
      skill_version = version;
      reviewer = reviewer;
      comment = text;
      parent_id = parent_id;
      created_at = now;
    } in
    if ltb 0 parent_id && not (has_comment parent_id s.review_comments) then (none, s) else (
      some c,
      record s { review_comments = s.review_comments ++ c ∷ []; next_id = s.next_id + 1 },
    )

unfoldable pub add_comment :
    String → String → String → String → ℕ → ℕ → Market → Option ReviewComment × Market
unfolding comment_in get_skill
add_comment name reviewer text version parent_id now s =
    comment_in name reviewer text version parent_id now (get_skill name version s.skill_market) s

-- `ORDER BY parent_id ASC, id ASC`
abbrev pub comes_first : ReviewComment → ReviewComment → Bool
comes_first a b = ltb a.parent_id b.parent_id || (a.parent_id == b.parent_id && ltb a.id b.id)

pub insert_comment : ReviewComment → List ReviewComment → List ReviewComment
insert_comment c [] = c ∷ []
insert_comment c (d ∷ cs) =
    let rest = insert_comment c cs in if comes_first d c then d ∷ rest else c ∷ d ∷ cs

pub sort_comments : List ReviewComment → List ReviewComment
unfolding insert_comment
sort_comments [] = []
sort_comments (c ∷ cs) = insert_comment c (sort_comments cs)

unfoldable pub list_comments : String → String → Market → List ReviewComment
unfolding sort_comments
list_comments name version s =
    sort_comments
      (keep (λ c. str_eq c.skill_name name && str_eq c.skill_version version) s.review_comments)

-- Each comment is new behind those before it, and answers one of them or none.
abbrev pub IsThreaded : List ReviewComment → List ReviewComment → Type 0
IsThreaded before [] = Unit
IsThreaded before (c ∷ cs) =
    (has_comment c.id before ≡ false)
    × ((c.parent_id ≡ 0) ⊎ (has_comment c.parent_id before ≡ true))
    × IsThreaded (before ++ c ∷ []) cs

-- The ids that are given are below the next one.
abbrev pub is_below : ℕ → List ReviewComment → Bool
is_below next = every (λ c. ltb c.id next)

pub record Commented (s : Market) : Type 0 where
  pub threaded : IsThreaded [] s.review_comments
  pub below : is_below s.next_id s.review_comments ≡ true
  pub first : 0 < s.next_id

IsThreaded-last :
    (before cs : List ReviewComment) (c : ReviewComment)
    → IsThreaded before cs
    → has_comment c.id (before ++ cs) ≡ false
    → (c.parent_id ≡ 0) ⊎ (has_comment c.parent_id (before ++ cs) ≡ true)
    → IsThreaded before (cs ++ c ∷ [])
IsThreaded-last before [] c h new parent = (
  ap (has_comment c.id) (sym (append-nil before)) ∙ new,
  subst (λ x. (c.parent_id ≡ 0) ⊎ (has_comment c.parent_id x ≡ true)) (append-nil before) parent,
  tt,
)
IsThreaded-last before (d ∷ cs) c (fresh, answers, rest) new parent = (
  fresh,
  answers,
  IsThreaded-last (before ++ d ∷ []) cs c rest
      (ap (has_comment c.id) (append_assoc before (d ∷ []) cs) ∙ new)
      (subst (λ x. (c.parent_id ≡ 0) ⊎ (has_comment c.parent_id x ≡ true))
        (sym (append_assoc before (d ∷ []) cs)) parent),
)

not_below :
    (next : ℕ) (cs : List ReviewComment) → is_below next cs ≡ true → has_comment next cs ≡ false
not_below next [] h = refl
not_below next (c ∷ cs) h = ground (arith, not_below next cs, h)

is_below-suc :
    (next : ℕ) (cs : List ReviewComment) (c : ReviewComment)
    → c.id ≡ next
    → is_below next cs ≡ true
    → is_below (next + 1) (cs ++ c ∷ []) ≡ true
is_below-suc next [] c e h = ground (arith, e)
is_below-suc next (d ∷ cs) c e h = ground (arith, is_below-suc next cs c e, h)

-- A reply is checked against the comments that are there.
answers_one :
    (parent_id : ℕ) (cs : List ReviewComment)
    → (ltb 0 parent_id && not (has_comment parent_id cs)) ≡ false
    → (parent_id ≡ 0) ⊎ (has_comment parent_id cs ≡ true)
answers_one parent_id cs h = elim (Bool-cases (has_comment parent_id cs)) [
  | inl there ↦ inr there
  | inr gone ↦ inl (ground (arith, h, gone))
]

comment_in-Commented :
    (name reviewer text version : String) (parent_id now : ℕ) (o : Option Skill) (s : Market)
    → Commented s
    → Commented (comment_in name reviewer text version parent_id now o s).1
unfolding comment_in
comment_in-Commented name reviewer text version parent_id now none s h = h
comment_in-Commented name reviewer text version parent_id now (some r) s h =
    elim (Bool-cases (ltb 0 parent_id && not (has_comment parent_id s.review_comments))) [
      | inl bad ↦ rw bad h
      | inr good ↦ rw good (record {
        threaded =
            IsThreaded-last [] s.review_comments _ h.threaded
              (not_below s.next_id s.review_comments h.below)
              (answers_one parent_id s.review_comments good);
        below = is_below-suc s.next_id s.review_comments _ refl h.below;
        first = omega (arith, h.first);
      })
    ]

-- Each call of `add_comment` keeps it so that every comment has an id that no comment before it has and
-- that is below the next one, and answers no comment or one that was there before it.
pub add_comment-Commented :
    (name reviewer text version : String) (parent_id now : ℕ) (s : Market)
    → Commented s
    → Commented (add_comment name reviewer text version parent_id now s).1
unfolding add_comment
add_comment-Commented name reviewer text version parent_id now s h =
    comment_in-Commented name reviewer text version parent_id now
      (get_skill name version s.skill_market) s h
