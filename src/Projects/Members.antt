-- ===== src/Projects/Members.antt =====
-- app/services/project_member_service.py, over app/repositories/project_member_repository.py.
use outbox_service.Prelude.{
  ℕ, suc, Bool, true, not, ◌&&◌, Option, none, some, List, [], ◌∷◌, ◌++◌, String, Result, ok, err,
  ◌>>=◌, ◌>>◌, raise_if, or_raise, ◌==◌, str_eq, leb, if◌then◌else◌, select, find_row, put_row,
  order_by,
}
use outbox_service.Projects.Model.{
  ProjectMemberRole, ProjectMember, UserAccount, Directory, MemberError, no_project, no_user,
  already_member, not_a_member, last_owner, is_owner, count_owners, find_by_project_and_user,
  delete_member, Project,
}

-- `_ensure_project_exists`
unfoldable pub ensure_project_exists : ℕ → Directory → Result MemberError Project
ensure_project_exists project_id db =
    or_raise (find_row (λ p. p.id) project_id db.projects) no_project

-- `_get_membership`
unfoldable pub get_membership : ℕ → ℕ → Directory → Result MemberError ProjectMember
get_membership project_id user_id db =
    or_raise (find_by_project_and_user project_id user_id db.members) not_a_member

-- `_ensure_not_last_owner`
unfoldable pub ensure_not_last_owner : ℕ → Directory → Result MemberError (Unit {0})
ensure_not_last_owner project_id db =
    raise_if (leb (count_owners project_id db.members) 1) last_owner

unfoldable pub find_by_email : String → List UserAccount → Option UserAccount
find_by_email email [] = none
find_by_email email (u ∷ us) = if str_eq u.email email then some u else find_by_email email us

-- the query of `list_by_project_id`; `earlier` is the database's order of texts
unfoldable pub list_members :
    (String → String → Bool) → ℕ → Directory → Result MemberError (List ProjectMember)
list_members earlier project_id db = do
  _ ← ensure_project_exists project_id db
  ok (
      order_by (λ m n. in_order (account m) (account n))
        (select (λ m. m.project_id == project_id) db.members))
  where
    account : ProjectMember → Option UserAccount
    account m = find_row (λ u. u.id) m.user_id db.users

    in_order : Option UserAccount → Option UserAccount → Bool
    in_order (some u) (some v) = earlier u.email v.email
    in_order _ _ = true

unfoldable pub with_member : ℕ → ℕ → ProjectMemberRole → Directory → Directory
with_member project_id user_id role db = record db {
  members =
      db.members
      ++ record { id = db.next_member_id; project_id = project_id; user_id = user_id; role = role }
        ∷ [];
  next_member_id = suc db.next_member_id;
}

unfoldable pub absent : Option ProjectMember → Result MemberError (Unit {0})
absent none = ok tt
absent (some _) = err already_member

-- `add_member`
unfoldable pub add_member :
    ℕ → String → ProjectMemberRole → Directory → Result MemberError Directory
add_member project_id email role db = do
  _ ← ensure_project_exists project_id db
  u ← or_raise (find_by_email email db.users) no_user
  absent (find_by_project_and_user project_id u.id db.members)
  ok (with_member project_id u.id role db)

unfoldable pub guard_last_owner : Bool → ℕ → Directory → Result MemberError (Unit {0})
guard_last_owner needed project_id db =
    if needed then ensure_not_last_owner project_id db else ok tt

abbrev pub save_member : ProjectMember → Directory → Directory
save_member m db = record db { members = put_row (λ x. x.id) m db.members }

-- `update_member_role`, when no other request runs between its checks and its commit
unfoldable pub update_member_role :
    ℕ → ℕ → ProjectMemberRole → Directory → Result MemberError (Directory × ProjectMember)
update_member_role project_id user_id role db = do
  _ ← ensure_project_exists project_id db
  m ← get_membership project_id user_id db
  guard_last_owner (is_owner m.role && not (is_owner role)) project_id db
  ok (save_member (record m { role = role }) db, record m { role = role })

-- `remove_member`, when no other request runs between its checks and its commit
unfoldable pub remove_member : ℕ → ℕ → Directory → Result MemberError Directory
remove_member project_id user_id db = do
  _ ← ensure_project_exists project_id db
  m ← get_membership project_id user_id db
  guard_last_owner (is_owner m.role) project_id db
  ok (record db { members = delete_member m db.members })
