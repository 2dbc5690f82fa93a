-- ===== src/Projects/Changes.antt =====
-- What the two services do to the tables, as steps.
use outbox_service.Prelude.{
  ℕ, ◌≤◌, ◌≡◌, refl, sym, subst, true, false, not, ◌&&◌, Option, none, some, ◌∙◌, ◌||◌, any_of,
  ◌==◌, String, ok, if_both, put_row-All, find_row-All, OnOk, OnOk-bind, OnOk-eq, raise_if,
  or_raise, or_raise-some,
}
use outbox_service.Projects.Model.{
  ProjectMemberRole, Project, ProjectMember, Directory, is_owner, count_owners,
  find_by_project_and_user, MemberError, ProjectError, project_name_conflict,
}
use outbox_service.Projects.Service.{
  save_project, create_project, update_project, disable_project, enable_project, Updates, is_taken,
  rename, get_project, describe, is_given,
}
use outbox_service.Projects.Members.{
  find_by_email, absent, ensure_project_exists, get_membership, guard_last_owner, add_member,
  update_member_role, remove_member,
}
use outbox_service.Projects.Ownership.{
  IsOwned, with_project-IsOwned, with_member-IsOwned, save_member-IsOwned, delete_member-IsOwned,
  guard_last_owner-ok,
}

abbrev IsSaved : {A : Type 0} → Directory × A → Type 0
IsSaved r = IsOwned r.0

save_project-IsOwned :
    (i : ℕ) (p q : Project) (db : Directory)
    → IsOwned db
    → get_project i db ≡ ok p
    → q.id ≡ p.id
    → IsOwned (save_project q db)
unfolding get_project
save_project-IsOwned i p q db h e same =
    let P : Project → Type 0 = λ x. 1 ≤ count_owners x.id db.members in
    let stored : P p = find_row-All (λ x. x.id) P i db.projects p h.owned (or_raise-some _ _ e) in
    record {
      keyed = h.keyed;
      fresh = h.fresh;
      owned =
          put_row-All (λ x. x.id) P q db.projects
            (subst (λ k. 1 ≤ count_owners k db.members) (sym same) stored) h.owned;
    }

module _ (lower : String → String) where
  create_project-IsOwned :
      (u : ℕ) (name : String) (description : Option String) (db : Directory)
      → IsOwned db
      → OnOk IsOwned (create_project lower u name description db)
  unfolding create_project
  create_project-IsOwned u name description db h =
      OnOk-bind IsOwned (raise_if (is_taken lower none name db) (project_name_conflict name)) _
        (λ _ _.
          OnOk-bind IsOwned
            (raise_if (not (any_of (λ a. a.id == u) db.users)) (project_name_conflict name)) _
            (λ _ _. with_project-IsOwned u name description db h))

  id-rename :
      (n : Option (Option String)) (p : Project) (db : Directory)
      → OnOk (λ r. r.id ≡ p.id) (rename lower n p db)
  unfolding rename
  id-rename none p db = refl
  id-rename (some none) p db = tt
  id-rename (some (some n)) p db =
      OnOk-bind {B = Project} (λ r. r.id ≡ p.id)
        (raise_if (is_taken lower (some p.id) n db) (project_name_conflict n)) _ (λ _ _. refl)

  id-describe : (d : Option (Option String)) (p : Project) → (describe d p).id ≡ p.id
  id-describe none p = refl
  id-describe (some d) p = refl

  update_project-IsOwned :
      (i : ℕ) (u : Updates) (db : Directory)
      → IsOwned db
      → OnOk (IsSaved {A = Project}) (update_project lower i u db)
  unfolding update_project
  update_project-IsOwned i u db h =
      OnOk-bind (IsSaved {A = Project})
        (raise_if (not (is_given u.name || is_given u.description))
          ProjectError.project_update_empty)
        _
        (λ _ _. OnOk-bind (IsSaved {A = Project}) (get_project i db) _ (λ p e.
          OnOk-bind (IsSaved {A = Project}) (rename lower u.name p db) _ (λ r e'.
            save_project-IsOwned i p (describe u.description r) db h e (
              id-describe u.description r
              ∙ OnOk-eq (λ q. q.id ≡ p.id) (rename lower u.name p db) (id-rename u.name p db) e'))))

disable_project-IsOwned :
    (i : ℕ) (db : Directory) → IsOwned db → OnOk (IsSaved {A = Project}) (disable_project i db)
unfolding disable_project
disable_project-IsOwned i db h = OnOk-bind (IsSaved {A = Project}) (get_project i db) _ (λ p e.
    if_both (IsSaved {A = Project}) p.is_active
      (save_project-IsOwned i p (record p { is_active = false }) db h e refl) h)

enable_project-IsOwned :
    (i : ℕ) (db : Directory) → IsOwned db → OnOk (IsSaved {A = Project}) (enable_project i db)
unfolding enable_project
enable_project-IsOwned i db h = OnOk-bind (IsSaved {A = Project}) (get_project i db) _ (λ p e.
    if_both (IsSaved {A = Project}) (not p.is_active)
      (save_project-IsOwned i p (record p { is_active = true }) db h e refl) h)

add_member-IsOwned :
    (i : ℕ) (email : String) (role : ProjectMemberRole) (db : Directory)
    → IsOwned db
    → OnOk IsOwned (add_member i email role db)
unfolding add_member
add_member-IsOwned i email role db h = OnOk-bind IsOwned (ensure_project_exists i db) _ (λ _ _.
    OnOk-bind IsOwned (or_raise (find_by_email email db.users) MemberError.no_user) _ (λ u _.
      OnOk-bind IsOwned (absent (find_by_project_and_user i u.id db.members)) _
        (λ _ _. with_member-IsOwned i u.id role db h)))

pub found_member :
    (i u : ℕ) (db : Directory) {m : ProjectMember}
    → get_membership i u db ≡ ok m
    → find_by_project_and_user i u db.members ≡ some m
unfolding get_membership
found_member i u db e = or_raise-some _ _ e

update_member_role-IsOwned :
    (i u : ℕ) (role : ProjectMemberRole) (db : Directory)
    → IsOwned db
    → OnOk (IsSaved {A = ProjectMember}) (update_member_role i u role db)
unfolding update_member_role
update_member_role-IsOwned i u role db h =
    OnOk-bind (IsSaved {A = ProjectMember}) (ensure_project_exists i db) _ (λ _ _.
      OnOk-bind (IsSaved {A = ProjectMember}) (get_membership i u db) _ (λ m e.
        OnOk-bind (IsSaved {A = ProjectMember})
          (guard_last_owner (is_owner m.role && not (is_owner role)) i db) _
          (λ _ g.
            save_member-IsOwned i u role m db h (found_member i u db e)
              (guard_last_owner-ok _ i db g))))

remove_member-IsOwned :
    (i u : ℕ) (db : Directory) → IsOwned db → OnOk IsOwned (remove_member i u db)
unfolding remove_member
remove_member-IsOwned i u db h = OnOk-bind IsOwned (ensure_project_exists i db) _ (λ _ _.
    OnOk-bind IsOwned (get_membership i u db) _ (λ m e.
      OnOk-bind IsOwned (guard_last_owner (is_owner m.role) i db) _ (λ _ g.
        delete_member-IsOwned i u m db h (found_member i u db e) (guard_last_owner-ok _ i db g))))

-- One request that the services answer without an error.
pub data Change (lower : String → String) : Directory → Directory → Type 0 where
  creates :
      {db db' : Directory} (u : ℕ) (name : String) (description : Option String)
      → create_project lower u name description db ≡ ok db'
      → Change lower db db'
  updates :
      {db db' : Directory} (i : ℕ) (u : Updates) (p : Project)
      → update_project lower i u db ≡ ok (db', p)
      → Change lower db db'
  disables :
      {db db' : Directory} (i : ℕ) (p : Project)
      → disable_project i db ≡ ok (db', p)
      → Change lower db db'
  enables :
      {db db' : Directory} (i : ℕ) (p : Project)
      → enable_project i db ≡ ok (db', p)
      → Change lower db db'
  adds :
      {db db' : Directory} (i : ℕ) (email : String) (role : ProjectMemberRole)
      → add_member i email role db ≡ ok db'
      → Change lower db db'
  changes_role :
      {db db' : Directory} (i u : ℕ) (role : ProjectMemberRole) (m : ProjectMember)
      → update_member_role i u role db ≡ ok (db', m)
      → Change lower db db'
  removes : {db db' : Directory} (i u : ℕ) → remove_member i u db ≡ ok db' → Change lower db db'

pub data Changes (lower : String → String) : Directory → Directory → Type 0 where
  unchanged : {db : Directory} → Changes lower db db
  then_change :
      {db db' db'' : Directory}
      → Changes lower db db'
      → Change lower db' db''
      → Changes lower db db''

Change-IsOwned :
    (lower : String → String) {db db' : Directory} → IsOwned db → Change lower db db' → IsOwned db'
Change-IsOwned lower {db} h (creates u n d e) =
    OnOk-eq IsOwned _ (create_project-IsOwned lower u n d db h) e
Change-IsOwned lower {db} h (updates i u p e) =
    OnOk-eq (IsSaved {A = Project}) _ (update_project-IsOwned lower i u db h) e
Change-IsOwned lower {db} h (disables i p e) =
    OnOk-eq (IsSaved {A = Project}) _ (disable_project-IsOwned i db h) e
Change-IsOwned lower {db} h (enables i p e) =
    OnOk-eq (IsSaved {A = Project}) _ (enable_project-IsOwned i db h) e
Change-IsOwned lower {db} h (adds i m r e) = OnOk-eq IsOwned _ (add_member-IsOwned i m r db h) e
Change-IsOwned lower {db} h (changes_role i u r m e) =
    OnOk-eq (IsSaved {A = ProjectMember}) _ (update_member_role-IsOwned i u r db h) e
Change-IsOwned lower {db} h (removes i u e) = OnOk-eq IsOwned _ (remove_member-IsOwned i u db h) e

-- Whatever sequence of requests on projects and members the services answer, one after the other, each
-- committed before the next reads, starting from tables in which every project has an OWNER and ids
-- are keys below the sequence, the same holds at its end.
pub Changes-IsOwned :
    (lower : String → String) (db db' : Directory) → IsOwned db → Changes lower db db' → IsOwned db'
Changes-IsOwned lower db db' h unchanged = h
Changes-IsOwned lower db db' h (then_change before last) =
    Change-IsOwned lower (Changes-IsOwned lower db _ h before) last
