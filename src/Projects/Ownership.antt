-- ===== src/Projects/Ownership.antt =====
-- Every project keeps an owner, whatever the services do.
use outbox_service.Prelude.{
  ℕ, suc, ◌+◌, ◌≤◌, ◌<◌, ◌≡◌, refl, sym, ◌∙◌, subst, Bool, true, false, not, ◌&&◌, Option, some,
  List, [], ◌∷◌, ◌++◌, String, ok, inl, inr, arith, ◌==◌, leb, Bool-cases, All, All-map, All-append,
  All-select, put_row-All, put_row-IsKeyed, select-IsKeyed, IsKeyed, sum_by-put_row, put_row,
  raise_if_ok,
}
use outbox_service.Projects.Model.{
  ProjectMemberRole, owner, Project, ProjectMember, Directory, is_owner, owners_of, count_owners,
  find_by_project_and_user, delete_member,
}
use outbox_service.Projects.Service.{with_project}
use outbox_service.Projects.Members.{
  ensure_not_last_owner, guard_last_owner, with_member, save_member,
}
use outbox_service.Projects.Rows.{
  count_owners-append, append-IsKeyed, find_member-All, find_member-ids, find_member-find_row,
  count_owners-delete,
}

-- ids are keys below the sequence, and every project has an owner
pub record IsOwned (db : Directory) : Type 0 where
  pub keyed : IsKeyed (λ m. m.id) db.members
  pub fresh : All (λ m. m.id < db.next_member_id) db.members
  pub owned : All (λ p. 1 ≤ count_owners p.id db.members) db.projects

more_owners :
    (ps : List Project) (ms : List ProjectMember) (m : ProjectMember)
    → All (λ p. 1 ≤ count_owners p.id ms) ps
    → All (λ p. 1 ≤ count_owners p.id (ms ++ m ∷ [])) ps
more_owners ps ms m h = All-map (λ p one. omega (arith, one, count_owners-append p.id ms m)) ps h

grown :
    (ms : List ProjectMember) (n : ℕ) (m : ProjectMember)
    → m.id ≡ n
    → All (λ x. x.id < n) ms
    → All (λ x. x.id < suc n) (ms ++ m ∷ [])
grown ms n m e h =
    All-append (λ x. x.id < suc n) ms (m ∷ []) (All-map (λ x below. omega (arith, below)) ms h)
      (omega (arith, e), tt)

pub with_project-IsOwned :
    (u : ℕ) (name : String) (description : Option String) (db : Directory)
    → IsOwned db
    → IsOwned (with_project u name description db)
unfolding with_project
with_project-IsOwned u name description db h =
    let m : ProjectMember = record {
      id = db.next_member_id;
      project_id = db.next_project_id;
      user_id = u;
      role = owner;
    } in
    let p : Project = record {
      id = db.next_project_id;
      name = name;
      description = description;
      is_active = true;
    } in
    record {
      keyed = append-IsKeyed db.members m h.keyed h.fresh;
      fresh = grown db.members db.next_member_id m refl h.fresh;
      owned =
          All-append (λ q. 1 ≤ count_owners q.id (db.members ++ m ∷ [])) db.projects (p ∷ [])
            (more_owners db.projects db.members m h.owned)
            (ground (arith, count_owners-append db.next_project_id db.members m), tt);
    }

pub with_member-IsOwned :
    (p u : ℕ) (role : ProjectMemberRole) (db : Directory)
    → IsOwned db
    → IsOwned (with_member p u role db)
unfolding with_member
with_member-IsOwned p u role db h =
    let m : ProjectMember = record {
      id = db.next_member_id;
      project_id = p;
      user_id = u;
      role = role;
    } in
    record {
      keyed = append-IsKeyed db.members m h.keyed h.fresh;
      fresh = grown db.members db.next_member_id m refl h.fresh;
      owned = more_owners db.projects db.members m h.owned;
    }

-- what the guard has seen where it was needed
pub guard_last_owner-ok :
    (needed : Bool) (p : ℕ) (db : Directory) {u : Unit {0}}
    → guard_last_owner needed p db ≡ ok u
    → needed ≡ true
    → 1 < count_owners p db.members
unfolding guard_last_owner ensure_not_last_owner
guard_last_owner-ok true p db h e =
    let several = raise_if_ok (leb (count_owners p db.members) 1) _ h in ground arith
guard_last_owner-ok false p db h e = cc

-- an update that may take an owner's role leaves an owner
still_owned :
    (q before after : ℕ) (m : ProjectMember) (role : ProjectMemberRole)
    → after + owners_of q m ≡ before + owners_of q (record m { role = role })
    → 1 ≤ before
    → ((m.project_id == q) ≡ true → (is_owner m.role && not (is_owner role)) ≡ true → 1 < before)
    → 1 ≤ after
still_owned q before after m role counted one several = elim (Bool-cases (m.project_id == q)) [
  | inl here ↦ elim (Bool-cases (is_owner m.role)) [
    | inl was ↦ elim (Bool-cases (is_owner role)) [
      | inl stays ↦ ground (arith, counted, one)
      | inr leaves ↦
          let two = several here (rw was (rw leaves refl)) in ground (arith, counted, two)
    ]
    | inr not_owner ↦ ground (arith, counted, one)
  ]
  | inr elsewhere ↦ ground (arith, counted, one)
]

pub save_member-IsOwned :
    (p u : ℕ) (role : ProjectMemberRole) (m : ProjectMember) (db : Directory)
    → IsOwned db
    → find_by_project_and_user p u db.members ≡ some m
    → ((is_owner m.role && not (is_owner role)) ≡ true → 1 < count_owners p db.members)
    → IsOwned (save_member (record m { role = role }) db)
save_member-IsOwned p u role m db h e several =
    let new : ProjectMember = record m { role = role } in
    let stored = find_member-find_row p u db.members m h.keyed e in
    let (of_project, _) = find_member-ids p u db.members m e in
    let counted : (q : ℕ)
        → count_owners q (put_row (λ x. x.id) new db.members) + owners_of q m
          ≡ count_owners q db.members + owners_of q new =
      λ q.
        unfold count_owners in sum_by-put_row (λ x. x.id) (owners_of q) new m db.members stored in
    record {
      keyed = put_row-IsKeyed (λ x. x.id) new db.members h.keyed;
      fresh =
          put_row-All (λ x. x.id) (λ x. x.id < db.next_member_id) new db.members
            (find_member-All (λ x. x.id < db.next_member_id) p u db.members m h.fresh e) h.fresh;
      owned =
          All-map
            (λ q one. still_owned q.id _ _ m role (counted q.id) one (λ here.
              subst
                (λ k.
                  (is_owner m.role && not (is_owner role)) ≡ true → 1 < count_owners k db.members)
                (sym of_project ∙ ground arith) several))
            db.projects h.owned;
    }

still_owned_without :
    (q before after : ℕ) (m : ProjectMember)
    → after + owners_of q m ≡ before
    → 1 ≤ before
    → ((m.project_id == q) ≡ true → is_owner m.role ≡ true → 1 < before)
    → 1 ≤ after
still_owned_without q before after m counted one several = elim (Bool-cases (m.project_id == q)) [
  | inl here ↦ elim (Bool-cases (is_owner m.role)) [
    | inl was ↦ let two = several here was in ground (arith, counted, two)
    | inr not_owner ↦ ground (arith, counted, one)
  ]
  | inr elsewhere ↦ ground (arith, counted, one)
]

pub delete_member-IsOwned :
    (p u : ℕ) (m : ProjectMember) (db : Directory)
    → IsOwned db
    → find_by_project_and_user p u db.members ≡ some m
    → (is_owner m.role ≡ true → 1 < count_owners p db.members)
    → IsOwned (record db { members = delete_member m db.members })
delete_member-IsOwned p u m db h e several =
    let stored = find_member-find_row p u db.members m h.keyed e in
    let (of_project, _) = find_member-ids p u db.members m e in
    record {
      keyed = unfold delete_member in select-IsKeyed (λ x. x.id) _ db.members h.keyed;
      fresh =
          unfold delete_member in All-select (λ x. x.id < db.next_member_id) _ db.members h.fresh;
      owned =
          All-map
            (λ q one.
              still_owned_without q.id _ _ m (count_owners-delete q.id m db.members h.keyed stored)
                one
                (λ here.
                  subst (λ k. is_owner m.role ≡ true → 1 < count_owners k db.members)
                    (sym of_project ∙ ground arith) several))
            db.projects h.owned;
    }
