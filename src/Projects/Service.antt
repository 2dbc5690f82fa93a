-- ===== src/Projects/Service.antt =====
-- app/services/project_service.py, over app/repositories/project_repository.py. An operation that
-- raises rolls back; an IntegrityError is the conflict of a name. `lower` is the lower case of a text.
use outbox_service.Prelude.{
  ℕ, suc, Bool, true, false, not, ◌&&◌, ◌||◌, Option, none, some, List, [], ◌∷◌, ◌++◌, String,
  Result, ok, err, ◌>>=◌, ◌>>◌, raise_if, or_raise, ◌==◌, str_eq, if◌then◌else◌, select, any_of,
  find_row, put_row, order_by, leb,
}
use outbox_service.Projects.Model.{
  UserRole, admin, user, owner, Project, UserAccount, Directory, ProjectError, project_not_found,
  project_update_empty, project_name_invalid, project_name_conflict,
}

-- the modifiable fields that the dict of the updates holds
pub record Updates : Type 0 where
  pub name : Option (Option String)
  pub description : Option (Option String)

abbrev pub is_given : {A : Type 0} → Option A → Bool
is_given none = false
is_given (some _) = true

-- `list_all` and `list_by_user_id`, by id
unfoldable pub list_all : Directory → List Project
list_all db = order_by (λ p q. leb p.id q.id) db.projects

unfoldable pub list_by_user_id : ℕ → Directory → List Project
list_by_user_id user_id db =
    order_by (λ p q. leb p.id q.id)
      (select (λ p. any_of (λ m. m.project_id == p.id && m.user_id == user_id) db.members)
        db.projects)

-- `list_projects`
unfoldable pub list_projects : UserAccount → Directory → List Project
list_projects current_user db = visible current_user.role
  where
    visible : UserRole → List Project
    visible admin = list_all db
    visible user = list_by_user_id current_user.id db

-- `get_project`
unfoldable pub get_project : ℕ → Directory → Result ProjectError Project
get_project project_id db = or_raise (find_row (λ p. p.id) project_id db.projects) project_not_found

-- the two rows that `create_project` adds
unfoldable pub with_project : ℕ → String → Option String → Directory → Directory
with_project owner_user_id name description db = record db {
  projects =
      db.projects
      ++ record {
        id = db.next_project_id;
        name = name;
        description = description;
        is_active = true;
      }
        ∷ [];
  members =
      db.members
      ++ record {
        id = db.next_member_id;
        project_id = db.next_project_id;
        user_id = owner_user_id;
        role = owner;
      }
        ∷ [];
  next_project_id = suc db.next_project_id;
  next_member_id = suc db.next_member_id;
}

abbrev pub save_project : Project → Directory → Directory
save_project p db = record db { projects = put_row (λ x. x.id) p db.projects }

-- the new description, where it is given
abbrev pub describe : Option (Option String) → Project → Project
describe none p = p
describe (some description) p = record p { description = description }

module _ (lower : String → String) where
  -- `find_by_name(name, exclude_project_id)` is not None
  unfoldable pub is_taken : Option ℕ → String → Directory → Bool
  is_taken excluded name db =
      any_of (λ p. str_eq (lower p.name) (lower name) && not (is_excluded p.id excluded))
        db.projects
    where
      is_excluded : ℕ → Option ℕ → Bool
      is_excluded id none = false
      is_excluded id (some x) = id == x

  -- `create_project`; the owner's foreign key wants an account
  unfoldable pub create_project :
      ℕ → String → Option String → Directory → Result ProjectError Directory
  create_project owner_user_id name description db = do
    raise_if (is_taken none name db) (project_name_conflict name)
    raise_if (not (any_of (λ u. u.id == owner_user_id) db.users)) (project_name_conflict name)
    ok (with_project owner_user_id name description db)

  unfoldable pub rename : Option (Option String) → Project → Directory → Result ProjectError Project
  rename none p db = ok p
  rename (some none) p db = err project_name_invalid
  rename (some (some name)) p db = do
    raise_if (is_taken (some p.id) name db) (project_name_conflict name)
    ok (record p { name = name })

  -- `update_project`
  unfoldable pub update_project :
      ℕ → Updates → Directory → Result ProjectError (Directory × Project)
  update_project project_id updates db = do
    raise_if (not (is_given updates.name || is_given updates.description)) project_update_empty
    p ← get_project project_id db
    renamed ← rename updates.name p db
    ok (
      save_project (describe updates.description renamed) db,
      describe updates.description renamed,
    )

-- `disable_project` and `enable_project`
unfoldable pub disable_project : ℕ → Directory → Result ProjectError (Directory × Project)
disable_project project_id db = do
  p ← get_project project_id db
  ok (
      if p.is_active
      then (save_project (record p { is_active = false }) db, record p { is_active = false })
      else (db, p))

unfoldable pub enable_project : ℕ → Directory → Result ProjectError (Directory × Project)
enable_project project_id db = do
  p ← get_project project_id db
  ok (
      if not p.is_active
      then (save_project (record p { is_active = true }) db, record p { is_active = true })
      else (db, p))
