-- ===== src/Chains/Selections.antt =====
-- Which rows a query finds after a row was changed or added.
use outbox_service.Prelude.{
  ℕ, suc, ◌+◌, ◌≤◌, ◌<◌, ◌≡◌, refl, ap, Bool, true, false, some, List, [], ◌∷◌, ◌++◌, if◌then◌else◌,
  ◌==◌, arith, inl, inr, Bool-cases, All, All-append, length, select, find_row, put_row, sum_by,
  sum_by-put_row, IsKeyed,
}

module _ {ℓ} {A : Type ℓ} (key : A → ℕ) (q : A → Bool) where
  abbrev pub one_if : A → ℕ
  one_if x = if q x then 1 else 0

  length-select : (xs : List A) → length (select q xs) ≡ sum_by key one_if xs
  length-select [] = refl
  length-select (x ∷ xs) = ground (arith, length-select xs)

  -- the number of rows that are found, after a row was changed from `s` to `r`
  pub length-select-put_row :
      (r s : A) (xs : List A)
      → find_row key (key r) xs ≡ some s
      → length (select q (put_row key r xs)) + one_if s ≡ length (select q xs) + one_if r
  length-select-put_row r s xs found = omega (
    arith,
    length-select xs,
    length-select (put_row key r xs),
    sum_by-put_row key one_if r s xs found,
  )

  -- a row that is not found before and after its change
  pub select-put_row_out :
      (r s : A) (xs : List A)
      → find_row key (key r) xs ≡ some s
      → q s ≡ false
      → q r ≡ false
      → select q (put_row key r xs) ≡ select q xs
  select-put_row_out r s [] found before after = refl
  select-put_row_out r s (x ∷ xs) found before after = elim (Bool-cases (key x == key r)) [
    | inl hit ↦ let same : x ≡ s = ground (arith, found, hit) in rw (hit, same, before, after) refl
    | inr miss ↦
        let rest = select-put_row_out r s xs (ground (arith, found, miss)) before after in
        rw (miss, rest) refl
  ]

  -- no row before the only one
  select_finds :
      (k : ℕ) (x : A) (xs : List A)
      → find_row key k xs ≡ some x
      → q x ≡ true
      → 1 ≤ length (select q xs)
  select_finds k x [] found h = cc
  select_finds k x (y ∷ xs) found h = ground (arith, select_finds k x xs)

  -- the only row that is found
  pub select_only :
      (k : ℕ) (x : A) (xs : List A)
      → find_row key k xs ≡ some x
      → q x ≡ true
      → length (select q xs) ≤ 1
      → select q xs ≡ x ∷ []
  select_only k x [] found h small = cc
  select_only k x (y ∷ xs) found h small = elim (Bool-cases (key y == k)) [
    | inl hit ↦
        let same : y ≡ x = ground (arith, found, hit) in
        rw (same, h) (ap (λ l. x ∷ l) (none_left (select q xs) (rw (same, h) at small)))
    | inr miss ↦
        let there : find_row key k xs ≡ some x = ground (arith, found, miss) in
        let some_left = select_finds k x xs there h in
        elim (Bool-cases (q y)) [
          | inl keep ↦ absurd (omega (arith, rw keep at small, some_left))
          | inr drop ↦ rw drop (select_only k x xs there h (rw drop at small))
        ]
  ]
    where
      none_left : (l : List A) → suc (length l) ≤ 1 → l ≡ []
      none_left [] h = refl
      none_left (z ∷ l) h = absurd (omega arith)

  -- a row that is not found
  pub select-append_out :
      (xs : List A) (y : A) → q y ≡ false → select q (xs ++ y ∷ []) ≡ select q xs
  select-append_out [] y out = rw out refl
  select-append_out (x ∷ xs) y out = ground (arith, select-append_out xs y out)

module _ {ℓ} {A : Type ℓ} where
  -- tests that agree on the rows
  pub select_same :
      (p q : A → Bool) (xs : List A) → All (λ x. p x ≡ q x) xs → select p xs ≡ select q xs
  select_same p q [] h = refl
  select_same p q (x ∷ xs) h = rw (h.0, select_same p q xs h.1) refl

  pub append-IsKeyed :
      (key : A → ℕ) (xs : List A) (y : A) (n : ℕ)
      → All (λ x. key x < n) xs
      → key y ≡ n
      → IsKeyed key xs
      → IsKeyed key (xs ++ y ∷ [])
  append-IsKeyed key [] y n below new h = (tt, tt)
  append-IsKeyed key (x ∷ xs) y n below new h = (
    All-append (λ z. (key x == key z) ≡ false) xs (y ∷ []) h.0 (ground (arith, below.0), tt),
    append-IsKeyed key xs y n below.1 new h.1,
  )
