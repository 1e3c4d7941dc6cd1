-- ===== src/Security/Rbac/Examples.antt =====
-- Requests with concrete role texts.
use sccsos.Prelude.{◌≡◌, refl, true, false, none, some}
use sccsos.Prelude.Result.{err}
use sccsos.Prelude.Text.{codes, strip, lower, same_text, skip_blanks}
use sccsos.Security.Rbac.{
  viewer, operator, role_permissions, role_of, normalise, check, call, or_viewer, resolve_role,
  require_permission,
}

names_viewer : role_of (normalise (codes " Viewer")) ≡ some viewer
unfolding role_of same_text normalise strip lower skip_blanks
names_viewer = refl

names_operator : role_of (normalise (codes "OPERATOR\n")) ≡ some operator
unfolding role_of same_text normalise strip lower skip_blanks
names_operator = refl

names_nothing : role_of (normalise (codes "root")) ≡ none
unfolding role_of same_text normalise strip lower skip_blanks
names_nothing = refl

viewer_reads : check (codes " Viewer") "quota:read" ≡ true
unfolding check role_of same_text normalise strip lower skip_blanks role_permissions
viewer_reads = refl

-- `checker(role)` asks for the empty permission, which only `admin` has.
call_operator : call (codes "operator") ≡ false
unfolding call check role_of same_text normalise strip lower skip_blanks role_permissions
call_operator = refl

call_admin : call (codes "admin") ≡ true
unfolding call check role_of same_text normalise strip lower skip_blanks role_permissions
call_admin = refl

viewer_cannot_write :
    require_permission "quota:write" (codes "")
    ≡ err (record { permission = "quota:write"; role = codes "viewer" })
unfolding require_permission resolve_role or_viewer check role_of same_text normalise strip lower
    skip_blanks role_permissions
viewer_cannot_write = refl
