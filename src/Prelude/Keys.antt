-- ===== src/Prelude/Keys.antt =====
-- Unique keys under selection, order and limit, and predicates on the rows of a changed table.
use Prim.Native.Nat.{ℕ, zero, suc}
use mathlib.Core.Path.{◌≡◌}
use mathlib.Core.Logic.{inl, inr}
use mathlib.Core.Bool.{Bool, false}
use mathlib.Core.List.{List, [], ◌∷◌}
use native.Mathlib.Omega.{arith}
use outbox_service.Prelude.Tests.{◌==◌, Bool-cases}
use outbox_service.Prelude.Lists.{All, All-both, All-take, All-select, select, take}
use outbox_service.Prelude.Tables.{IsKeyed, put_row}
use outbox_service.Prelude.Order.{insert_by, insert_by-All, order_by, order_by-All}

module _ {ℓ} {A : Type ℓ} (key : A → ℕ) where
  pub select-IsKeyed : (q : A → Bool) (xs : List A) → IsKeyed key xs → IsKeyed key (select q xs)
  select-IsKeyed q [] h = tt
  select-IsKeyed q (x ∷ xs) h = elim (Bool-cases (q x)) [
    | inl keep ↦
        rw keep (All-select (λ y. (key x == key y) ≡ false) q xs h.0, select-IsKeyed q xs h.1)
    | inr drop ↦ rw drop (select-IsKeyed q xs h.1)
  ]

  pub take-IsKeyed : (n : ℕ) (xs : List A) → IsKeyed key xs → IsKeyed key (take n xs)
  take-IsKeyed zero xs h = tt
  take-IsKeyed (suc n) [] h = tt
  take-IsKeyed (suc n) (x ∷ xs) h =
      (All-take (λ y. (key x == key y) ≡ false) n xs h.0, take-IsKeyed n xs h.1)

  insert_by-IsKeyed :
      (le : A → A → Bool) (x : A) (xs : List A)
      → All (λ y. (key x == key y) ≡ false) xs
      → IsKeyed key xs
      → IsKeyed key (insert_by le x xs)
  insert_by-IsKeyed le x [] other h = (tt, tt)
  insert_by-IsKeyed le x (y ∷ ys) other h = elim (Bool-cases (le x y)) [
    | inl before ↦ rw before (other, h)
    | inr after ↦ rw after (
      insert_by-All le (λ z. (key y == key z) ≡ false) x ys (ground (arith, other.0)) h.0,
      insert_by-IsKeyed le x ys other.1 h.1,
    )
  ]

  pub order_by-IsKeyed :
      (le : A → A → Bool) (xs : List A) → IsKeyed key xs → IsKeyed key (order_by le xs)
  order_by-IsKeyed le [] h = tt
  order_by-IsKeyed le (x ∷ xs) h =
      insert_by-IsKeyed le x (order_by le xs)
        (order_by-All le (λ y. (key x == key y) ≡ false) xs h.0) (order_by-IsKeyed le xs h.1)

  -- the changed row, and the others as they were
  pub put_row-All_other {κ} :
      (P : A → Type κ) (r : A) (xs : List A)
      → IsKeyed key xs
      → P r
      → All (λ x. (key x == key r) ≡ false → P x) xs
      → All P (put_row key r xs)
  put_row-All_other P r [] keyed p h = tt
  put_row-All_other P r (x ∷ xs) keyed p h = elim (Bool-cases (key x == key r)) [
    | inl hit ↦
        rw hit (p, All-both (λ y away keep. keep (ground (arith, away, hit))) xs keyed.0 h.1)
    | inr miss ↦ rw miss (h.0 miss, put_row-All_other P r xs keyed.1 p h.1)
  ]
