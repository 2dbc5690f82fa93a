-- ===== src/Projects/Permissions.antt =====
-- app/core/project_permission.py, app/core/project_role_permissions.py, `has_project_permission` of
-- app/services/auth_service.py and `require_project_permission` of app/dependencies.py.
use outbox_service.Prelude.{
  ℕ, Bool, true, false, not, Option, none, some, Result, ok, ◌>>◌, raise_if, if◌then◌else◌,
}
use outbox_service.Projects.Model.{
  UserRole, UserAccount, ProjectMemberRole, owner, developer, viewer, ProjectMember, Directory,
  find_by_project_and_user,
}

pub data ProjectPermission : Type 0 where
  project_read project_write event_type_read event_type_write : ProjectPermission
  schema_read schema_write route_read route_write : ProjectPermission
  api_key_read api_key_write metrics_read metrics_write : ProjectPermission

-- `permission in PROJECT_ROLE_PERMISSIONS[role]`
unfoldable pub project_role_permissions : ProjectMemberRole → ProjectPermission → Bool
project_role_permissions owner _ = true
project_role_permissions developer project_write = false
project_role_permissions developer _ = true
project_role_permissions viewer project_read = true
project_role_permissions viewer event_type_read = true
project_role_permissions viewer schema_read = true
project_role_permissions viewer route_read = true
project_role_permissions viewer api_key_read = true
project_role_permissions viewer metrics_read = true
project_role_permissions viewer _ = false

-- `has_project_permission`
unfoldable pub has_project_permission : ℕ → ℕ → ProjectPermission → Directory → Bool
has_project_permission user_id project_id permission db =
    granted (find_by_project_and_user project_id user_id db.members)
  where
    granted : Option ProjectMember → Bool
    granted none = false
    granted (some m) = project_role_permissions m.role permission

abbrev pub is_admin : UserRole → Bool
is_admin UserRole.admin = true
is_admin UserRole.user = false

-- the answer 403
pub data AccessError : Type 0 where
  insufficient_permissions : AccessError

-- the dependency that `require_project_permission` makes: a global ADMIN is not asked for a membership
unfoldable pub require_project_permission :
    ProjectPermission → ℕ → UserAccount → Directory → Result AccessError UserAccount
require_project_permission permission project_id current_user db =
    if is_admin current_user.role then ok current_user else do
      raise_if (not (has_project_permission current_user.id project_id permission db))
          insufficient_permissions
      ok current_user
