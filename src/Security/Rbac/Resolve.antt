-- ===== src/Security/Rbac/Resolve.antt =====
-- How `require_permission` treats the role text of a request, next to `RoleChecker.check`.
use sccsos.Prelude.{
  ℕ, String, ◌≡◌, refl, sym, ap, ◌∙◌, subst, Bool, true, false, none, some, List, [], ◌∷◌,
  if◌then◌else◌, arith, ◌↔◌,
}
use sccsos.Prelude.Result.{Result, ok, err}
use sccsos.Prelude.Text.{codes, strip, lower, same_text, skip_blanks}
use sccsos.Security.Rbac.{
  Role, admin, operator, viewer, role_of, normalise, granted, check, or_viewer, known_or_viewer,
  resolve_role, Unauthorized, require_permission,
}

same_text_sound : (t u : List ℕ) → same_text t u ≡ true → t ≡ u
unfolding same_text
same_text_sound [] [] h = refl
same_text_sound (c ∷ t) (d ∷ u) h = ground (arith, same_text_sound t u)
same_text_sound [] (d ∷ u) h = ground arith
same_text_sound (c ∷ t) [] h = ground arith

abbrev pub role_name : Role → List ℕ
role_name admin = codes "admin"
role_name operator = codes "operator"
role_name viewer = codes "viewer"

role_of-name : (t : List ℕ) (r : Role) → role_of t ≡ some r → t ≡ role_name r
unfolding role_of
role_of-name t r h = ground (
  arith,
  same_text_sound t (codes "admin"),
  same_text_sound t (codes "operator"),
  same_text_sound t (codes "viewer"),
)

name-normal : (r : Role) → normalise (role_name r) ≡ role_name r
unfolding normalise strip lower skip_blanks
name-normal admin = refl
name-normal operator = refl
name-normal viewer = refl

name-role : (r : Role) → role_of (role_name r) ≡ some r
unfolding role_of same_text
name-role admin = refl
name-role operator = refl
name-role viewer = refl

check-name : (r : Role) (p : String) → check (role_name r) p ≡ granted (some r) p
unfolding check
check-name r p =
    ap (λ t. granted (role_of t) p) (name-normal r) ∙ ap (λ o. granted o p) (name-role r)

abbrev answer : Role → String → Result Unauthorized (Unit {0})
answer r p =
    if granted (some r) p then ok tt else err (record { permission = p; role = role_name r })

no_role : role_of (normalise []) ≡ none
unfolding role_of same_text normalise strip lower skip_blanks
no_role = refl

resolve_known :
    (x : List ℕ) (r : Role) → role_of (normalise x) ≡ some r → resolve_role x ≡ role_name r
unfolding resolve_role or_viewer
resolve_known [] r h = ground (arith, no_role)
resolve_known (c ∷ x) r h =
    ap (known_or_viewer (normalise (c ∷ x))) h ∙ role_of-name (normalise (c ∷ x)) r h

resolve_unknown : (x : List ℕ) → role_of (normalise x) ≡ none → resolve_role x ≡ role_name viewer
unfolding resolve_role or_viewer
resolve_unknown [] h =
    ap (λ t. known_or_viewer t (role_of t)) (name-normal viewer)
    ∙ ap (known_or_viewer (role_name viewer)) (name-role viewer)
resolve_unknown (c ∷ x) h = ap (known_or_viewer (normalise (c ∷ x))) h

require-answer :
    (p : String) (x : List ℕ) (r : Role)
    → resolve_role x ≡ role_name r
    → require_permission p x ≡ answer r p
unfolding require_permission
require-answer p x r h =
    ap (λ t. if check t p then ok tt else err (record { permission = p; role = t })) h
    ∙ ap (λ b. if b then ok tt else err (record { permission = p; role = role_name r }))
        (check-name r p)

passes_if : (b : Bool) (e : Unauthorized) → (if b then ok tt else err e) ≡ ok (tt {0}) ↔ b ≡ true
passes_if true e = (λ _. refl, λ _. refl)
passes_if false e = (λ h. ground arith, λ h. ground arith)

check-known :
    (x : List ℕ) (r : Role) (p : String)
    → role_of (normalise x) ≡ some r
    → check x p ≡ granted (some r) p
unfolding check
check-known x r p h = ap (λ o. granted o p) h

check-unknown : (x : List ℕ) (p : String) → role_of (normalise x) ≡ none → check x p ≡ false
unfolding check
check-unknown x p h = ap (λ o. granted o p) h

-- If a role text names a role, whatever its letter case and the blanks around it, a route that
-- requires a permission lets its request through exactly when `check` grants the permission.
pub require_known :
    (p : String) (x : List ℕ) (r : Role)
    → role_of (normalise x) ≡ some r
    → (require_permission p x ≡ ok tt) ↔ (check x p ≡ true)
require_known p x r h =
    subst (λ a. a ≡ ok tt ↔ check x p ≡ true) (sym (require-answer p x r (resolve_known x r h)))
      (subst (λ b. answer r p ≡ ok tt ↔ b ≡ true) (sym (check-known x r p h))
        (passes_if (granted (some r) p) (record { permission = p; role = role_name r })))

-- If a role text names no role, `check` refuses it every permission, and a route that requires a
-- permission answers its request as it answers a viewer's.
pub require_unknown :
    (p : String) (x : List ℕ)
    → role_of (normalise x) ≡ none
    → (check x p ≡ false) × (require_permission p x ≡ require_permission p (codes "viewer"))
require_unknown p x h = (
  check-unknown x p h,
  require-answer p x viewer (resolve_unknown x h)
      ∙ sym (
          require-answer p (codes "viewer") viewer (
            resolve_known (codes "viewer") viewer
              (ap role_of (name-normal viewer) ∙ name-role viewer))),
)
