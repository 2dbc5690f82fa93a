-- ===== src/Projects/Rows.antt =====
-- The rows of the members' table under inserts, updates and deletes.
use outbox_service.Prelude.{
  ℕ, ◌+◌, ◌<◌, ◌≡◌, refl, ap, subst, false, ◌&&◌, some, List, [], ◌∷◌, ◌++◌, inl, inr, arith, ◌==◌,
  Bool-cases, All, All-append, IsKeyed, find_row, find_row-IsKeyed,
}
use outbox_service.Projects.Model.{
  ProjectMember, owners_of, count_owners, find_by_project_and_user, delete_member,
}

pub count_owners-append :
    (p : ℕ) (ms : List ProjectMember) (m : ProjectMember)
    → count_owners p (ms ++ m ∷ []) ≡ count_owners p ms + owners_of p m
unfolding count_owners
count_owners-append p [] m = omega arith
count_owners-append p (x ∷ ms) m = omega (arith, count_owners-append p ms m)

keys-append :
    (k : ℕ) (ms : List ProjectMember) (m : ProjectMember)
    → All (λ x. (k == x.id) ≡ false) ms
    → (k == m.id) ≡ false
    → All (λ x. (k == x.id) ≡ false) (ms ++ m ∷ [])
keys-append k ms m h e = All-append (λ x. (k == x.id) ≡ false) ms (m ∷ []) h (e, tt)

pub append-IsKeyed :
    (ms : List ProjectMember) (m : ProjectMember)
    → IsKeyed (λ x. x.id) ms
    → All (λ x. x.id < m.id) ms
    → IsKeyed (λ x. x.id) (ms ++ m ∷ [])
append-IsKeyed [] m h below = (tt, tt)
append-IsKeyed (x ∷ ms) m h below =
    (keys-append x.id ms m h.0 (ground (arith, below.0)), append-IsKeyed ms m h.1 below.1)

pub find_member-All :
    (P : ProjectMember → Type 0) (p u : ℕ) (ms : List ProjectMember) (m : ProjectMember)
    → All P ms
    → find_by_project_and_user p u ms ≡ some m
    → P m
unfolding find_by_project_and_user
find_member-All P p u [] m h e = cc
find_member-All P p u (x ∷ ms) m h e = elim (Bool-cases (x.project_id == p && x.user_id == u)) [
  | inl hit ↦ let same : x ≡ m = ground arith in subst P same h.0
  | inr miss ↦ find_member-All P p u ms m h.1 (rw miss at e)
]

pub find_member-ids :
    (p u : ℕ) (ms : List ProjectMember) (m : ProjectMember)
    → find_by_project_and_user p u ms ≡ some m
    → (m.project_id ≡ p) × (m.user_id ≡ u)
unfolding find_by_project_and_user
find_member-ids p u [] m e = cc
find_member-ids p u (x ∷ ms) m e = elim (Bool-cases (x.project_id == p && x.user_id == u)) [
  | inl hit ↦
      let same : x ≡ m = ground arith in
      (
        subst (λ y. y.project_id ≡ p) same (ground arith),
        subst (λ y. y.user_id ≡ u) same (ground arith),
      )
  | inr miss ↦ find_member-ids p u ms m (rw miss at e)
]

pub find_member-find_row :
    (p u : ℕ) (ms : List ProjectMember) (m : ProjectMember)
    → IsKeyed (λ x. x.id) ms
    → find_by_project_and_user p u ms ≡ some m
    → find_row (λ x. x.id) m.id ms ≡ some m
find_member-find_row p u ms m keyed e =
    find_member-All (λ x. find_row (λ y. y.id) x.id ms ≡ some x) p u ms m
      (find_row-IsKeyed (λ x. x.id) ms keyed) e

-- a key that no row has is not deleted
delete-none :
    (m : ProjectMember) (ms : List ProjectMember)
    → All (λ x. (m.id == x.id) ≡ false) ms
    → delete_member m ms ≡ ms
unfolding delete_member
delete-none m [] h = refl
delete-none m (x ∷ ms) h = ground (arith, h.0, delete-none m ms h.1)

pub count_owners-delete :
    (p : ℕ) (m : ProjectMember) (ms : List ProjectMember)
    → IsKeyed (λ x. x.id) ms
    → find_row (λ x. x.id) m.id ms ≡ some m
    → count_owners p (delete_member m ms) + owners_of p m ≡ count_owners p ms
unfolding count_owners delete_member
count_owners-delete p m [] keyed e = cc
count_owners-delete p m (x ∷ ms) keyed e = elim (Bool-cases (x.id == m.id)) [
  | inl hit ↦
      let same : x ≡ m = ground arith in
      let gone =
        delete-none m ms (subst (λ y. All (λ z. (y.id == z.id) ≡ false) ms) same keyed.0) in
      rw hit (omega (arith, ap (count_owners p) gone, ap (owners_of p) same))
  | inr miss ↦ rw miss (omega (arith, count_owners-delete p m ms keyed.1 (rw miss at e)))
]
