-- ===== src/Security/Rbac/Hierarchy.antt =====
-- The roles of sccsos/security/rbac.py, ordered by what they may do.
use sccsos.Prelude.{ℕ, String, ◌≡◌, refl, sym, ap, ◌∙◌, true, false, some, List, has, every, arith}
use sccsos.Prelude.Sets.{Included, every_at}
use sccsos.Security.Rbac.{
  Role, admin, operator, viewer, role_permissions, role_of, normalise, granted, check,
}

-- A role is at most another.
pub data ◌⊑◌ : Role → Role → Type 0 where
  same : (r : Role) → r ⊑ r
  viewer_operator : viewer ⊑ operator
  viewer_admin : viewer ⊑ admin
  operator_admin : operator ⊑ admin

infix 40 ◌⊑◌
has_admin : has "admin:*" (role_permissions admin) ≡ true
unfolding role_permissions
has_admin = refl

included : (xs ys : List String) → every (λ x. has x ys) xs ≡ true → Included xs ys
included xs ys h k m = every_at (λ x. has x ys) xs k h m

viewer-operator : Included (role_permissions viewer) (role_permissions operator)
unfolding role_permissions
viewer-operator = included (role_permissions viewer) (role_permissions operator) refl

not_viewer : has "admin:*" (role_permissions viewer) ≡ false
unfolding role_permissions
not_viewer = refl

-- What one role may do, every role above it may do, for any permission text.
granted_mono :
    (a b : Role) (p : String) → a ⊑ b → granted (some a) p ≡ true → granted (some b) p ≡ true
granted_mono a b p (same r) h = h
granted_mono a b p viewer_operator h = ground (arith, viewer-operator p, not_viewer)
granted_mono a b p viewer_admin h = ground (arith, has_admin)
granted_mono a b p operator_admin h = ground (arith, has_admin)

-- If two role texts name roles of which one is at most the other, every permission that `check`
-- grants to the lower it grants to the higher.
pub check_mono :
    (t u : List ℕ) (a b : Role) (p : String)
    → role_of (normalise t) ≡ some a
    → role_of (normalise u) ≡ some b
    → a ⊑ b
    → check t p ≡ true
    → check u p ≡ true
unfolding check
check_mono t u a b p x y le h =
    ap (λ r. granted r p) y ∙ granted_mono a b p le (sym (ap (λ r. granted r p) x) ∙ h)
