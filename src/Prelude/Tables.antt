-- ===== src/Prelude/Tables.antt =====
-- Database tables as lists of rows: a row by its key, the update of a row, and `ORDER BY`.
use outbox_service.Prelude.Tests.{◌==◌, if◌then◌else◌, Bool-cases}
use outbox_service.Prelude.Lists.{length, All, All-map, All-both}
use Prim.Native.Nat.{ℕ, ◌+◌}
use mathlib.Core.Path.{◌≡◌, refl, subst}
use mathlib.Core.Logic.{◌≢◌, inl, inr}
use mathlib.Core.Bool.{false}
use mathlib.Core.Option.{Option, none, some}
use mathlib.Core.List.{List, [], ◌∷◌}
use native.Mathlib.Omega.{arith}

module _ {ℓ} {A : Type ℓ} (key : A → ℕ) where
  -- `SELECT ... WHERE key = k`, by a unique key
  abbrev pub find_row : ℕ → List A → Option A
  find_row k [] = none
  find_row k (x ∷ xs) = if key x == k then some x else find_row k xs

  -- the flush of a changed row; no row is added
  abbrev pub put_row : A → List A → List A
  put_row r [] = []
  put_row r (x ∷ xs) = if key x == key r then r ∷ xs else x ∷ put_row r xs

  pub find_row-key : (k : ℕ) (xs : List A) (r : A) → find_row k xs ≡ some r → key r ≡ k
  find_row-key k [] r h = ground arith
  find_row-key k (x ∷ xs) r h = ground (arith, find_row-key k xs r)

  pub find_row-put_row_self :
      (r s : A) (xs : List A)
      → find_row (key r) xs ≡ some s
      → find_row (key r) (put_row r xs) ≡ some r
  find_row-put_row_self r s [] h = ground arith
  find_row-put_row_self r s (x ∷ xs) h = ground (arith, find_row-put_row_self r s xs)

  pub find_row-put_row_ne :
      (k : ℕ) (r : A) (xs : List A) → k ≢ key r → find_row k (put_row r xs) ≡ find_row k xs
  find_row-put_row_ne k r [] h = refl
  find_row-put_row_ne k r (x ∷ xs) h = ground (arith, find_row-put_row_ne k r xs h)

  pub find_row-All {κ} :
      (P : A → Type κ) (k : ℕ) (xs : List A) (r : A) → All P xs → find_row k xs ≡ some r → P r
  find_row-All P k [] r h e = cc
  find_row-All P k (x ∷ xs) r h e = elim (Bool-cases (key x == k)) [
    | inl hit ↦ let same : x ≡ r = ground arith in subst P same h.0
    | inr miss ↦ find_row-All P k xs r h.1 (rw miss at e)
  ]

  pub put_row-All {κ} :
      (P : A → Type κ) (r : A) (xs : List A) → P r → All P xs → All P (put_row r xs)
  put_row-All P r [] p h = tt
  put_row-All P r (x ∷ xs) p h = ground (arith, put_row-All P r xs p h.1)

  pub length-put_row : (r : A) (xs : List A) → length (put_row r xs) ≡ length xs
  length-put_row r [] = refl
  length-put_row r (x ∷ xs) = ground (arith, length-put_row r xs)

module _ {ℓ} {A : Type ℓ} (key : A → ℕ) where
  -- a row of the table can be found by its key
  pub All-find_row : (xs : List A) → All (λ x. (r : A) × (find_row key (key x) xs ≡ some r)) xs
  All-find_row xs = among xs
    where
      found : (x : A) (ys : List A) → (r : A) × (find_row key (key x) (x ∷ ys) ≡ some r)
      found x ys = (x, ground arith)

      among : (ys : List A) → All (λ x. (r : A) × (find_row key (key x) ys ≡ some r)) ys
      among [] = tt
      among (y ∷ ys) = (
        found y ys,
        All-map
            (λ x h. elim (Bool-cases (key y == key x)) [
              | inl hit ↦ (y, ground arith)
              | inr miss ↦ (h.0, ground (arith, h.1))
            ])
            ys (among ys),
      )

  pub find_row-put_row :
      (k : ℕ) (r s : A) (xs : List A)
      → find_row key k xs ≡ some s
      → find_row key k (put_row key r xs) ≡ some (if key r == k then r else s)
  find_row-put_row k r s [] h = ground arith
  find_row-put_row k r s (x ∷ xs) h = ground (arith, find_row-put_row k r s xs)

  pub put_row-put_row :
      (r s : A) (xs : List A) → key r ≡ key s → put_row key r (put_row key s xs) ≡ put_row key r xs
  put_row-put_row r s [] h = refl
  put_row-put_row r s (x ∷ xs) h = ground (arith, put_row-put_row r s xs h)

  -- no key stands twice: the primary key
  abbrev pub IsKeyed : List A → Type 0
  IsKeyed [] = Unit
  IsKeyed (x ∷ xs) = All (λ y. (key x == key y) ≡ false) xs × IsKeyed xs

  put_row-keys :
      (k : ℕ) (r : A) (xs : List A)
      → All (λ y. (k == key y) ≡ false) xs
      → All (λ y. (k == key y) ≡ false) (put_row key r xs)
  put_row-keys k r [] h = tt
  put_row-keys k r (x ∷ xs) h = ground (arith, put_row-keys k r xs h.1)

  pub put_row-IsKeyed : (r : A) (xs : List A) → IsKeyed xs → IsKeyed (put_row key r xs)
  put_row-IsKeyed r [] h = tt
  put_row-IsKeyed r (x ∷ xs) h = elim (Bool-cases (key x == key r)) [
    | inl hit ↦
        let same : key x ≡ key r = ground arith in
        rw hit (subst (λ k. All (λ y. (k == key y) ≡ false) xs) same h.0, h.1)
    | inr miss ↦ rw miss (put_row-keys (key x) r xs h.0, put_row-IsKeyed r xs h.1)
  ]

  pub find_row-IsKeyed : (xs : List A) → IsKeyed xs → All (λ x. find_row key (key x) xs ≡ some x) xs
  find_row-IsKeyed [] h = tt
  find_row-IsKeyed (x ∷ xs) h =
      (ground arith, All-both (λ y other found. ground arith) xs h.0 (find_row-IsKeyed xs h.1))

  -- A sum over the rows under an update.
  abbrev pub sum_by : (A → ℕ) → List A → ℕ
  sum_by f [] = 0
  sum_by f (x ∷ xs) = f x + sum_by f xs

  pub sum_by-put_row :
      (f : A → ℕ) (r s : A) (xs : List A)
      → find_row key (key r) xs ≡ some s
      → sum_by f (put_row key r xs) + f s ≡ sum_by f xs + f r
  sum_by-put_row f r s [] h = ground arith
  sum_by-put_row f r s (x ∷ xs) h = ground (arith, sum_by-put_row f r s xs)
