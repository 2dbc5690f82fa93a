-- ===== src/Projects/Revocation.antt =====
-- What is left of a member's permissions after the removal.
use outbox_service.Prelude.{
  ℕ, ◌≡◌, refl, subst, Bool, true, false, ◌&&◌, none, some, List, [], ◌∷◌, ok, err, if◌then◌else◌,
  inl, inr, arith, ◌==◌, Bool-cases, All, All-map, OnOk, OnOk-bind, OnOk-eq,
}
use outbox_service.Projects.Model.{
  UserAccount, ProjectMember, Directory, is_owner, find_by_project_and_user, delete_member,
}
use outbox_service.Projects.Members.{
  ensure_project_exists, get_membership, guard_last_owner, remove_member,
}
use outbox_service.Projects.Changes.{found_member}
use outbox_service.Projects.Permissions.{
  ProjectPermission, is_admin, insufficient_permissions, has_project_permission,
  require_project_permission,
}

-- the unique key (project_id, user_id)
abbrev pub IsUnique : List ProjectMember → Type 0
IsUnique ms = All (λ x. find_by_project_and_user x.project_id x.user_id ms ≡ some x) ms

abbrev matches : ℕ → ℕ → ProjectMember → Bool
matches p u x = x.project_id == p && x.user_id == u

delete-absent :
    (p u : ℕ) (m : ProjectMember) (ms : List ProjectMember)
    → All (λ x. matches p u x ≡ true → (x.id == m.id) ≡ true) ms
    → find_by_project_and_user p u (delete_member m ms) ≡ none
unfolding find_by_project_and_user delete_member
delete-absent p u m [] h = refl
delete-absent p u m (x ∷ ms) h = elim (Bool-cases (x.id == m.id)) [
  | inl gone ↦ rw gone (delete-absent p u m ms h.1)
  | inr kept ↦ rw kept (elim (Bool-cases (matches p u x)) [
    | inl hit ↦ let bad = h.0 hit in cc
    | inr miss ↦ rw miss (delete-absent p u m ms h.1)
  ])
]

only_member :
    (p u : ℕ) (m : ProjectMember) (ms : List ProjectMember)
    → IsUnique ms
    → find_by_project_and_user p u ms ≡ some m
    → All (λ x. matches p u x ≡ true → (x.id == m.id) ≡ true) ms
only_member p u m ms unique e =
    All-map
      (λ x found hit.
        let of_project : x.project_id ≡ p = ground arith in
        let of_user : x.user_id ≡ u = ground arith in
        let again : find_by_project_and_user p u ms ≡ some x =
          subst (λ i. find_by_project_and_user i u ms ≡ some x) of_project
            (subst (λ j. find_by_project_and_user x.project_id j ms ≡ some x) of_user found) in
        let same : x ≡ m = cc in subst (λ y. (x.id == y.id) ≡ true) same (ground arith))
      ms unique

remove_member-absent :
    (p u : ℕ) (db : Directory)
    → IsUnique db.members
    → OnOk (λ db'. find_by_project_and_user p u db'.members ≡ none) (remove_member p u db)
unfolding remove_member
remove_member-absent p u db unique =
    let Gone : Directory → Type 0 = λ db'. find_by_project_and_user p u db'.members ≡ none in
    OnOk-bind Gone (ensure_project_exists p db) _ (λ _ _.
      OnOk-bind Gone (get_membership p u db) _ (λ m e.
        OnOk-bind Gone (guard_last_owner (is_owner m.role) p db) _ (λ _ _.
          delete-absent p u m db.members
            (only_member p u m db.members unique (found_member p u db e)))))

-- If memberships are unique by project and user, an account that was removed from a project has no
-- permission on it any more: whatever permission a request needs, it is refused, unless the account is
-- a global ADMIN, for whom the membership is not asked.
pub remove_member-revokes :
    (p : ℕ) (account : UserAccount) (permission : ProjectPermission) (db db' : Directory)
    → IsUnique db.members
    → remove_member p account.id db ≡ ok db'
    → (has_project_permission account.id p permission db' ≡ false)
      × (require_project_permission permission p account db'
          ≡ (if is_admin account.role then ok account else err insufficient_permissions))
unfolding has_project_permission require_project_permission
remove_member-revokes p account permission db db' unique e =
    let Gone : Directory → Type 0 = λ d. find_by_project_and_user p account.id d.members ≡ none in
    let gone : Gone db' =
      OnOk-eq Gone (remove_member p account.id db) (remove_member-absent p account.id db unique)
        e in
    let refused : has_project_permission account.id p permission db' ≡ false =
      rw (gone, has_project_permission) refl in
    (refused, rw refused refl)
