-- ===== src/Projects/Overlap.antt =====
-- Requests of app/services/project_member_service.py that run at the same time: the checks of each
-- read the members before the other commits, since no row is locked.
use outbox_service.Prelude.{
  ℕ, ◌≡◌, refl, false, some, List, [], ◌∷◌, ok, inl, inr, arith, ◌==◌, Bool-cases, IsKeyed,
  find_row, select-IsKeyed,
}
use outbox_service.Projects.Model.{
  Project, ProjectMember, Directory, owner, is_owner, owners_of, count_owners,
  find_by_project_and_user, delete_member,
}
use outbox_service.Projects.Members.{
  remove_member, ensure_project_exists, get_membership, guard_last_owner, ensure_not_last_owner,
}
use outbox_service.Projects.Rows.{count_owners-delete, find_member-ids, find_member-find_row}

-- another row is found as before
find_row-delete :
    (m n : ProjectMember) (ms : List ProjectMember)
    → (m.id == n.id) ≡ false
    → find_row (λ x. x.id) n.id ms ≡ some n
    → find_row (λ x. x.id) n.id (delete_member m ms) ≡ some n
unfolding delete_member
find_row-delete m n [] apart e = e
find_row-delete m n (x ∷ ms) apart e = elim (Bool-cases (x.id == m.id)) [
  | inl hit ↦
      let other : (x.id == n.id) ≡ false = ground (arith, hit, apart) in
      rw hit (find_row-delete m n ms apart (rw other at e))
  | inr miss ↦ elim (Bool-cases (x.id == n.id)) [
    | inl here ↦ rw miss (rw here (rw here at e))
    | inr away ↦ rw miss (rw away (find_row-delete m n ms apart (rw away at e)))
  ]
]

owner_counts :
    (p u : ℕ) (ms : List ProjectMember) (m : ProjectMember)
    → find_by_project_and_user p u ms ≡ some m
    → m.role ≡ owner
    → owners_of p m ≡ 1
owner_counts p u ms m e of_owner =
    let (here, _) = find_member-ids p u ms m e in rw (of_owner) (ground (arith, here))

-- an owner who is one of two is removed
remove_member-ok :
    (p u : ℕ) (db : Directory) (project : Project) (m : ProjectMember)
    → ensure_project_exists p db ≡ ok project
    → find_by_project_and_user p u db.members ≡ some m
    → count_owners p db.members ≡ 2
    → remove_member p u db ≡ ok (record db { members = delete_member m db.members })
unfolding remove_member get_membership guard_last_owner ensure_not_last_owner
remove_member-ok p u db project m known found two = elim (Bool-cases (is_owner m.role)) [
  | inl owns ↦ rw (known, found, owns, two) refl
  | inr not_owner ↦ rw (known, found, not_owner) refl
]

-- Where a project has exactly two owners, the removal of each succeeds on the same tables, and once
-- both deletions are committed, one after the other, the project has no owner.
pub remove_member_overlapping :
    (p u v : ℕ) (db : Directory) (project : Project) (m n : ProjectMember)
    → IsKeyed (λ x. x.id) db.members
    → ensure_project_exists p db ≡ ok project
    → find_by_project_and_user p u db.members ≡ some m
    → find_by_project_and_user p v db.members ≡ some n
    → m.role ≡ owner
    → n.role ≡ owner
    → (m.id == n.id) ≡ false
    → count_owners p db.members ≡ 2
    → (remove_member p u db ≡ ok (record db { members = delete_member m db.members }))
      × (remove_member p v db ≡ ok (record db { members = delete_member n db.members }))
      × (count_owners p (delete_member n (delete_member m db.members)) ≡ 0)
remove_member_overlapping p u v db project m n keyed known first second m_owns n_owns apart two = (
  remove_member-ok p u db project m known first two,
  remove_member-ok p v db project n known second two,
  let keyed' : IsKeyed (λ x. x.id) (delete_member m db.members) =
        unfold delete_member in select-IsKeyed (λ x. x.id) _ db.members keyed in
      let stored = find_member-find_row p v db.members n keyed second in
      let one =
        count_owners-delete p m db.members keyed
          (find_member-find_row p u db.members m keyed first) in
      let none_left =
        count_owners-delete p n (delete_member m db.members) keyed'
          (find_row-delete m n db.members apart stored) in
      omega (
        arith,
        one,
        none_left,
        two,
        owner_counts p u db.members m first m_owns,
        owner_counts p v db.members n second n_owns,
      ),
)
