-- ===== src/Prelude/Order.antt =====
-- `ORDER BY`: a stable insertion sort by a Boolean test, and its laws.
use Prim.Native.Nat.{ℕ, zero, suc}
use mathlib.Core.Path.{◌≡◌, refl, ap}
use mathlib.Core.Bool.{Bool, true, false}
use mathlib.Core.List.{List, [], ◌∷◌, ◌++◌, Perm}
use mathlib.Core.List.Perm
use mathlib.Core.Logic.{inl, inr}
use native.Mathlib.Omega.{arith}
use outbox_service.Prelude.Tests.{if◌then◌else◌, Bool-cases}
use outbox_service.Prelude.Lists.{length, All, All-map, All-take, All-append_right, take}

module _ {ℓ} {A : Type ℓ} (le : A → A → Bool) where
  abbrev pub insert_by : A → List A → List A
  insert_by x [] = x ∷ []
  insert_by x (y ∷ ys) = if le x y then x ∷ y ∷ ys else y ∷ insert_by x ys

  abbrev pub order_by : List A → List A
  order_by [] = []
  order_by (x ∷ xs) = insert_by x (order_by xs)

  -- every row comes before all later ones
  abbrev pub IsOrdered : List A → Type 0
  IsOrdered [] = Unit
  IsOrdered (x ∷ xs) = All (λ y. le x y ≡ true) xs × IsOrdered xs

  pub insert_by-All {κ} :
      (P : A → Type κ) (x : A) (xs : List A) → P x → All P xs → All P (insert_by x xs)
  insert_by-All P x [] p h = (p, tt)
  insert_by-All P x (y ∷ ys) p h = elim (Bool-cases (le x y)) [
    | inl before ↦ rw before (p, h)
    | inr after ↦ rw after (h.0, insert_by-All P x ys p h.1)
  ]

  pub order_by-All {κ} : (P : A → Type κ) (xs : List A) → All P xs → All P (order_by xs)
  order_by-All P [] h = tt
  order_by-All P (x ∷ xs) h = insert_by-All P x (order_by xs) h.0 (order_by-All P xs h.1)

  insert_first : (x : A) (xs : List A) → All (λ y. le x y ≡ true) xs → insert_by x xs ≡ x ∷ xs
  insert_first x [] h = refl
  insert_first x (y ∷ ys) h = rw h.0 refl

  -- rows in order stay as they are
  pub order_by_ordered : (xs : List A) → IsOrdered xs → order_by xs ≡ xs
  order_by_ordered [] h = refl
  order_by_ordered (x ∷ xs) h = rw (order_by_ordered xs h.1) (insert_first x xs h.0)

  insert_by-perm : (x : A) (xs : List A) → Perm (insert_by x xs) (x ∷ xs)
  insert_by-perm x [] = Perm.refl (x ∷ [])
  insert_by-perm x (y ∷ ys) = elim (Bool-cases (le x y)) [
    | inl before ↦ rw before (Perm.refl (x ∷ y ∷ ys))
    | inr after ↦ rw after (Perm.trans (Perm.cons y (insert_by-perm x ys)) (Perm.swap x y ys))
  ]

  pub order_by-perm : (xs : List A) → Perm (order_by xs) xs
  order_by-perm [] = Perm.refl []
  order_by-perm (x ∷ xs) =
      Perm.trans (insert_by-perm x (order_by xs)) (Perm.cons x (order_by-perm xs))

  length-insert_by : (x : A) (xs : List A) → length (insert_by x xs) ≡ suc (length xs)
  length-insert_by x [] = refl
  length-insert_by x (y ∷ ys) = ground (arith, length-insert_by x ys)

  pub length-order_by : (xs : List A) → length (order_by xs) ≡ length xs
  length-order_by [] = refl
  length-order_by (x ∷ xs) = ground (arith, length-insert_by x (order_by xs), length-order_by xs)

  module _ (le_trans : (a b c : A) → le a b ≡ true → le b c ≡ true → le a c ≡ true)
      (le_flip : (a b : A) → le a b ≡ false → le b a ≡ true) where
    insert_by-IsOrdered : (x : A) (xs : List A) → IsOrdered xs → IsOrdered (insert_by x xs)
    insert_by-IsOrdered x [] h = (tt, tt)
    insert_by-IsOrdered x (y ∷ ys) h = elim (Bool-cases (le x y)) [
      | inl before ↦ rw before ((before, All-map (λ z yz. le_trans x y z before yz) ys h.0), h)
      | inr after ↦ rw after (
        insert_by-All (λ z. le y z ≡ true) x ys (le_flip x y after) h.0,
        insert_by-IsOrdered x ys h.1,
      )
    ]

    pub order_by-IsOrdered : (xs : List A) → IsOrdered (order_by xs)
    order_by-IsOrdered [] = tt
    order_by-IsOrdered (x ∷ xs) = insert_by-IsOrdered x (order_by xs) (order_by-IsOrdered xs)

  -- A limit on ordered rows: what it leaves out comes after everything that it keeps.
  pub take-IsOrdered :
      (n : ℕ) (xs : List A)
      → IsOrdered xs
      → (rest : List A) × (take n xs ++ rest ≡ xs)
        × IsOrdered (take n xs)
        × All (λ x. All (λ y. le x y ≡ true) rest) (take n xs)
  take-IsOrdered zero xs h = (xs, refl, tt, tt)
  take-IsOrdered (suc n) [] h = ([], refl, tt, tt)
  take-IsOrdered (suc n) (x ∷ xs) h =
      let (rest, e, ordered, later) = take-IsOrdered n xs h.1 in
      let P : A → Type 0 = λ y. le x y ≡ true in
      (
        rest,
        ap (λ l. x ∷ l) e,
        (All-take P n xs h.0, ordered),
        (All-append_right P (take n xs) rest (rw e h.0), later),
      )
