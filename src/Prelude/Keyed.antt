-- ===== src/Prelude/Keyed.antt =====
-- Tables with a unique key of several columns: a row by its key, and the flush of a changed row.
use mathlib.Core.Path.{◌≡◌, refl}
use mathlib.Core.Bool.{Bool, true}
use mathlib.Core.Option.{Option, none, some}
use mathlib.Core.List.{List, [], ◌∷◌, ◌++◌}
use native.Mathlib.Omega.{arith}
use outbox_service.Prelude.Tests.{if◌then◌else◌}

module _ {ℓ} {K : Type 0} {A : Type ℓ} (same : K → K → Bool) (key_of : A → K) where
  abbrev pub find_by : K → List A → Option A
  find_by k [] = none
  find_by k (x ∷ xs) = if same k (key_of x) then some x else find_by k xs

  abbrev pub put_by : A → List A → List A
  put_by r [] = []
  put_by r (x ∷ xs) = if same (key_of r) (key_of x) then r ∷ xs else x ∷ put_by r xs

  module _ (same-eq : (a b : K) → same a b ≡ true → a ≡ b)
      (same_refl : (a : K) → same a a ≡ true) where
    pub find_by-append :
        (k : K) (r : A) (xs : List A)
        → find_by (key_of r) xs ≡ none
        → find_by k (xs ++ r ∷ []) ≡ (if same k (key_of r) then some r else find_by k xs)
    find_by-append k r [] absent = refl
    find_by-append k r (x ∷ xs) absent =
        ground (arith, find_by-append k r xs, same-eq k (key_of r), same-eq k (key_of x))

    pub find_by-put_by :
        (k : K) (r s : A) (xs : List A)
        → find_by (key_of r) xs ≡ some s
        → find_by k (put_by r xs) ≡ (if same k (key_of r) then some r else find_by k xs)
    find_by-put_by k r s [] found = cc
    find_by-put_by k r s (x ∷ xs) found = ground (
      arith,
      find_by-put_by k r s xs,
      same-eq k (key_of r),
      same-eq k (key_of x),
      same-eq (key_of r) (key_of x),
      same_refl (key_of x),
    )

  pub find_by-key :
      (same-eq : (a b : K) → same a b ≡ true → a ≡ b) (k : K) (r : A) (xs : List A)
      → find_by k xs ≡ some r
      → k ≡ key_of r
  find_by-key same-eq k r [] found = cc
  find_by-key same-eq k r (x ∷ xs) found =
      ground (arith, find_by-key same-eq k r xs, same-eq k (key_of x))
