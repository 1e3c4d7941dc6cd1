-- ===== src/Security/Rbac.antt =====
-- sccsos/security/rbac.py: roles, permissions, `RoleChecker` and `require_permission`. A role as it
-- comes in a header is a text by its code points; a permission is a text.
pub mod Hierarchy
pub mod Resolve
mod Examples
use sccsos.Prelude.{
  ℕ, String, Bool, true, false, ◌&&◌, ◌||◌, Option, none, some, List, [], ◌∷◌, has, if◌then◌else◌,
}
use sccsos.Prelude.Result.{Result, ok, err}
use sccsos.Prelude.Text.{codes, lower, strip, same_text}

pub data Role : Type 0 where
  admin operator viewer : Role

-- `ROLE_PERMISSIONS`
unfoldable pub role_permissions : Role → List String
role_permissions admin =
    "agents:read" ∷ "agents:write" ∷ "agents:manage" ∷ "skills:read" ∷ "skills:write"
    ∷ "skills:approve" ∷ "quota:read" ∷ "quota:write" ∷ "billing:read" ∷ "billing:export"
    ∷ "traces:read" ∷ "sessions:read" ∷ "sessions:write" ∷ "webhooks:read" ∷ "webhooks:write"
    ∷ "admin:*" ∷ []
role_permissions operator =
    "agents:read" ∷ "agents:manage" ∷ "skills:read" ∷ "skills:write" ∷ "quota:read" ∷ "billing:read"
    ∷ "traces:read" ∷ "sessions:read" ∷ "webhooks:read" ∷ []
role_permissions viewer =
    "agents:read" ∷ "skills:read" ∷ "quota:read" ∷ "billing:read" ∷ "traces:read" ∷ "sessions:read"
    ∷ "webhooks:read" ∷ []

-- The key of `ROLE_PERMISSIONS` that a text is, if it is one of `VALID_ROLES`.
unfoldable pub role_of : List ℕ → Option Role
role_of t =
    if same_text t (codes "admin")
    then some admin
    else if same_text t (codes "operator")
    then some operator
    else if same_text t (codes "viewer")
    then some viewer
    else none

-- `role.strip().lower()`
unfoldable pub normalise : List ℕ → List ℕ
normalise t = lower (strip t)

abbrev pub granted : Option Role → String → Bool
granted none permission = false
granted (some role) permission =
    has permission (role_permissions role) || has "admin:*" (role_permissions role)

-- `RoleChecker.check`
unfoldable pub check : List ℕ → String → Bool
check role permission = granted (role_of (normalise role)) permission

-- `RoleChecker.__call__`
unfoldable pub call : List ℕ → Bool
call role = check role ""

-- `(x_role or "viewer").strip().lower()`, a default for what is no role
unfoldable pub or_viewer : List ℕ → List ℕ
or_viewer [] = codes "viewer"
or_viewer (c ∷ t) = c ∷ t

abbrev pub known_or_viewer : List ℕ → Option Role → List ℕ
known_or_viewer t none = codes "viewer"
known_or_viewer t (some role) = t

-- `RoleChecker._default_role_resolver`, and the first lines of the dependency
unfoldable pub resolve_role : List ℕ → List ℕ
resolve_role x_role = let role = normalise (or_viewer x_role) in known_or_viewer role (role_of role)

-- `Unauthorized`, HTTP status 403
pub record Unauthorized : Type 0 where
  pub permission : String
  pub role : List ℕ

-- The dependency that `require_permission` returns.
unfoldable pub require_permission : String → List ℕ → Result Unauthorized (Unit {0})
require_permission permission x_role =
    let role = resolve_role x_role in
    if check role permission then ok tt else err (record { permission = permission; role = role })
