-- ===== src/Projects/Model.antt =====
-- app/models/project.py, app/models/project_member.py, app/core/auth_enums.py and the errors of
-- app/services/project_errors.py and app/services/project_member_service.py.
use outbox_service.Prelude.{
  ℕ, Bool, true, false, not, ◌&&◌, Option, none, some, List, [], ◌∷◌, String, ◌==◌, if◌then◌else◌,
  select, sum_by,
}

pub data UserRole : Type 0 where
  admin user : UserRole

pub data ProjectMemberRole : Type 0 where
  owner developer viewer : ProjectMemberRole

pub record Project : Type 0 where
  pub id : ℕ
  pub name : String
  pub description : Option String
  pub is_active : Bool

pub record ProjectMember : Type 0 where
  pub id : ℕ
  pub project_id : ℕ
  pub user_id : ℕ
  pub role : ProjectMemberRole

pub record UserAccount : Type 0 where
  pub id : ℕ
  pub email : String
  pub role : UserRole

-- the three tables, and the sequences of two of them
pub record Directory : Type 0 where
  pub projects : List Project
  pub users : List UserAccount
  pub members : List ProjectMember
  pub next_project_id : ℕ
  pub next_member_id : ℕ

pub data ProjectError : Type 0 where
  project_not_found : ProjectError
  project_update_empty project_name_invalid : ProjectError
  project_name_conflict : String → ProjectError

pub data MemberError : Type 0 where
  no_project no_user already_member not_a_member last_owner : MemberError

abbrev pub is_owner : ProjectMemberRole → Bool
is_owner owner = true
is_owner _ = false

abbrev pub owners_of : ℕ → ProjectMember → ℕ
owners_of project_id m = if m.project_id == project_id && is_owner m.role then 1 else 0

-- `count_owners`
unfoldable pub count_owners : ℕ → List ProjectMember → ℕ
count_owners project_id ms = sum_by (λ m. m.id) (owners_of project_id) ms

-- `find_by_project_and_user`
unfoldable pub find_by_project_and_user : ℕ → ℕ → List ProjectMember → Option ProjectMember
find_by_project_and_user project_id user_id [] = none
find_by_project_and_user project_id user_id (m ∷ ms) =
    if m.project_id == project_id && m.user_id == user_id
    then some m
    else find_by_project_and_user project_id user_id ms

-- `delete` of a row by its primary key
unfoldable pub delete_member : ProjectMember → List ProjectMember → List ProjectMember
delete_member m = select (λ x. not (x.id == m.id))
