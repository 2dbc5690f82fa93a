-- ===== src/Aggregation/Values.antt =====
-- app/metrics_engine/counter_value.py. Values come from a column of floats, so that the test for a
-- number is left out. Floats are a record of operations.
use outbox_service.Prelude.{
  ℕ, ◌+◌, ◌≤◌, ◌≡◌, refl, subst, Bool, true, false, not, Option, none, some, List, [], ◌∷◌, Result,
  ok, err, ◌>>=◌, if◌then◌else◌, ◌==◌, arith, inl, inr, Bool-cases, All, order_by, order_by-All,
  insert_by,
}

-- What the code uses of floats: `math.isfinite`, `v < 0`, `v == 0`, `sorted`, `math.fsum` with
-- nothing on `OverflowError`, and the sum that the database makes, with nothing where it is out of
-- range.
pub record Floats (V : Type 0) : Type 0 where
  pub zero_value : V
  pub is_finite : V → Bool
  pub is_negative : V → Bool
  pub is_zero : V → Bool
  pub le : V → V → Bool
  pub fsum : List V → Option V
  pub db_plus : V → V → Option V

pub data CounterValueError : Type 0 where
  not_numeric not_finite negative : CounterValueError

module _ {V : Type 0} (fl : Floats V) where
  unfoldable pub normalize_counter_increment : V → Result CounterValueError V
  normalize_counter_increment v =
      if not (fl.is_finite v)
      then err not_finite
      else if fl.is_negative v
      then err negative
      else if fl.is_zero v
      then ok fl.zero_value
      else ok v

  unfoldable pub normalize_all : List V → Result CounterValueError (List V)
  normalize_all [] = ok []
  normalize_all (v ∷ vs) =
      normalize_counter_increment v >>= λ n. normalize_all vs >>= λ ns. ok (n ∷ ns)

  unfoldable pub total_of : Option V → Result CounterValueError V
  unfolding normalize_counter_increment
  total_of none = err not_finite
  total_of (some total) = normalize_counter_increment total

  unfoldable pub coalesce_counter_increments : List V → Result CounterValueError V
  unfolding normalize_all total_of
  coalesce_counter_increments vs =
      normalize_all vs >>= λ normalized. total_of (fl.fsum (order_by fl.le normalized))

-- The floats that are whole multiples of a unit, up to a bound within which sums of them are exact:
-- for binary64 and the unit 1, the whole numbers up to 2 ^ 53.
pub record Counts {V : Type 0} (fl : Floats V) : Type 0 where
  pub bound : ℕ
  pub of_count : ℕ → V
  pub count_of : V → ℕ

module _ {V : Type 0} {fl : Floats V} (c : Counts fl) where
  abbrev pub IsCount : V → Type 0
  IsCount v = (c.count_of v ≤ c.bound) × (c.of_count (c.count_of v) ≡ v)

  abbrev pub count_sum : List V → ℕ
  count_sum [] = 0
  count_sum (v ∷ vs) = c.count_of v + count_sum vs

  -- exact arithmetic on these values
  pub record IsExact : Type 0 where
    pub count_of-of_count : (n : ℕ) → n ≤ c.bound → c.count_of (c.of_count n) ≡ n
    pub of_count_zero : c.of_count 0 ≡ fl.zero_value
    pub is_finite-of_count : (n : ℕ) → n ≤ c.bound → fl.is_finite (c.of_count n) ≡ true
    pub is_negative-of_count : (n : ℕ) → n ≤ c.bound → fl.is_negative (c.of_count n) ≡ false
    pub is_zero-of_count : (n : ℕ) → n ≤ c.bound → fl.is_zero (c.of_count n) ≡ (n == 0)
    pub fsum-counts :
        (vs : List V)
        → All IsCount vs
        → count_sum vs ≤ c.bound
        → fl.fsum vs ≡ some (c.of_count (count_sum vs))
    pub db_plus-counts :
        (n m : ℕ)
        → n + m ≤ c.bound
        → fl.db_plus (c.of_count n) (c.of_count m) ≡ some (c.of_count (n + m))

  count_sum-insert : (v : V) (vs : List V) → count_sum (insert_by fl.le v vs) ≡ count_sum (v ∷ vs)
  count_sum-insert v [] = refl
  count_sum-insert v (w ∷ vs) = ground (arith, count_sum-insert v vs)

  count_sum-order_by : (vs : List V) → count_sum (order_by fl.le vs) ≡ count_sum vs
  count_sum-order_by [] = refl
  count_sum-order_by (v ∷ vs) =
      omega (arith, count_sum-insert v (order_by fl.le vs), count_sum-order_by vs)

  module _ (exact : IsExact) where
    pub of_count-IsCount : (n : ℕ) → n ≤ c.bound → IsCount (c.of_count n)
    of_count-IsCount n h = rw (exact.count_of-of_count n h) (h, refl)

    normalize-of_count :
        (n : ℕ) → n ≤ c.bound → normalize_counter_increment fl (c.of_count n) ≡ ok (c.of_count n)
    unfolding normalize_counter_increment
    normalize-of_count n h =
        simp
          (exact.is_finite-of_count n h, exact.is_negative-of_count n h, exact.is_zero-of_count n h)
          (elim (Bool-cases (n == 0)) [
            | inl z ↦ let nought : n ≡ 0 = ground arith in simp (nought, exact.of_count_zero) refl
            | inr pos ↦ rw pos refl
          ])

    pub normalize-IsCount : (v : V) → IsCount v → normalize_counter_increment fl v ≡ ok v
    normalize-IsCount v (small, same) =
        subst (λ w. normalize_counter_increment fl w ≡ ok w) same
          (normalize-of_count (c.count_of v) small)

    normalize_all-counts : (vs : List V) → All IsCount vs → normalize_all fl vs ≡ ok vs
    unfolding normalize_all
    normalize_all-counts [] h = refl
    normalize_all-counts (v ∷ vs) h =
        simp (normalize-IsCount v h.0, normalize_all-counts vs h.1) refl

    -- values that are counts have their sum as their total
    pub coalesce-counts :
        (vs : List V)
        → All IsCount vs
        → count_sum vs ≤ c.bound
        → coalesce_counter_increments fl vs ≡ ok (c.of_count (count_sum vs))
    unfolding coalesce_counter_increments total_of
    coalesce-counts vs h small =
        let sorted_sum : fl.fsum (order_by fl.le vs)
            ≡ some (c.of_count (count_sum (order_by fl.le vs))) =
          exact.fsum-counts (order_by fl.le vs) (order_by-All fl.le IsCount vs h)
            (omega (arith, count_sum-order_by vs)) in
        simp (normalize_all-counts vs h, sorted_sum, count_sum-order_by vs)
          (normalize-of_count (count_sum vs) small)
