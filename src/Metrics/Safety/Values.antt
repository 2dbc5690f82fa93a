-- ===== src/Metrics/Safety/Values.antt =====
-- A transform of a value of an allowed type makes a number.
use outbox_service.Prelude.{
  ◌≡◌, refl, sym, Bool, true, false, String, Result, str_eq, eq_iff, OnErr, arith, inl, inr,
  Bool-cases, Yields, subst, Option-cases,
}
use outbox_service.Json.{Json, true_value, false_value, number, text, array}
use outbox_service.Aggregation.Values.{Floats, not_finite, negative, normalize_counter_increment}
use outbox_service.Metrics.Schema.{
  JsonType, array_type, string_type, number_type, integer_type, boolean_type,
}
use outbox_service.Metrics.Yaml.{allows, is_number, is_array, is_string, is_boolean}
use outbox_service.Metrics.Extractor.{
  ExtractionFailure, extraction, counter_value, path_raised, overflow, no_value, too_many_matches,
  too_many_observations, no_label_value, no_value_at_index, not_a_scalar, Numbers, Transformed,
  as_it_is, as_float, is_text, apply_transform, count_of, length_of, number_of, normalize_object,
  counter_raised,
}
use outbox_service.Metrics.Conforms.{has_type}

-- The failures that the data of an event may cause: a path that JSONPath refuses, a missing value or
-- label, a label that is no scalar, a number that is no increment, or one of the limits.
abbrev pub is_of_data : ExtractionFailure → Bool
is_of_data path_raised = true
is_of_data overflow = true
is_of_data (counter_value not_finite) = true
is_of_data (counter_value negative) = true
is_of_data (extraction no_value) = true
is_of_data (extraction too_many_matches) = true
is_of_data (extraction too_many_observations) = true
is_of_data (extraction no_label_value) = true
is_of_data (extraction no_value_at_index) = true
is_of_data (extraction not_a_scalar) = true
is_of_data _ = false

abbrev pub IsOfData : ExtractionFailure → Type 0
IsOfData e = is_of_data e ≡ true

number_lem :
    (t : JsonType) (v : Json)
    → is_number t ≡ true
    → has_type t v ≡ true
    → (n : String) × (v ≡ number n)
unfolding is_number
number_lem number_type (number n) a h = (n, refl)
number_lem integer_type (number n) a h = (n, refl)
number_lem _ _ a h = cc

module _ {V : Type 0} (fl : Floats V) (numbers : Numbers V) where
  abbrev pub is_numeric : Transformed V → Bool
  is_numeric (as_float _) = true
  is_numeric (as_it_is (number _)) = true
  is_numeric _ = false

  -- the transform makes a number of the value
  abbrev pub Suits : Json → Json → Type 0
  Suits transform v = Yields (λ x. is_numeric x ≡ true) (apply_transform fl numbers transform v)

  Yielded : Result ExtractionFailure (Transformed V) → Type 0
  Yielded r = Yields (λ x. is_numeric x ≡ true) r

  count_lem :
      (t : JsonType) (v : Json)
      → is_array t ≡ true
      → has_type t v ≡ true
      → Yielded (count_of fl numbers v)
  unfolding is_array count_of Yielded
  count_lem array_type (array js) a h = (_, refl, refl)
  count_lem _ _ a h = cc

  length_lem :
      (t : JsonType) (v : Json)
      → is_string t ≡ true
      → has_type t v ≡ true
      → Yielded (length_of fl numbers v)
  unfolding is_string length_of Yielded
  length_lem string_type (text s) a h = (_, refl, refl)
  length_lem _ _ a h = cc

  boolean_lem :
      (t : JsonType) (v : Json)
      → is_boolean t ≡ true
      → has_type t v ≡ true
      → Yielded (number_of fl numbers v)
  unfolding is_boolean number_of Yielded
  boolean_lem boolean_type true_value a h = (_, refl, refl)
  boolean_lem boolean_type false_value a h = (_, refl, refl)
  boolean_lem _ _ a h = cc

  pub apply_transform-Suits :
      (transform : String) (t : JsonType) (v : Json)
      → allows transform t ≡ true
      → has_type t v ≡ true
      → Suits (text transform) v
  unfolding apply_transform allows is_text Yielded
  apply_transform-Suits transform t v a h = elim (Bool-cases (str_eq transform "identity")) [
    | inl identity ↦
        let (n, e) = number_lem t v (rw identity at a) h in
        rw (identity, e) (as_it_is (number n), refl, refl)
    | inr no_identity ↦ elim (Bool-cases (str_eq transform "count")) [
      | inl count ↦ rw (no_identity, count) (count_lem t v (rw (no_identity, count) at a) h)
      | inr no_count ↦ elim (Bool-cases (str_eq transform "length")) [
        | inl length ↦
            rw (no_identity, no_count, length)
              (length_lem t v (rw (no_identity, no_count, length) at a) h)
        | inr no_length ↦ elim (Bool-cases (str_eq transform "to_number")) [
          | inl to_number ↦
              rw (no_identity, no_count, no_length, to_number)
                (boolean_lem t v (rw (no_identity, no_count, no_length, to_number) at a) h)
          | inr other ↦ absurd (ground (arith, no_identity, no_count, no_length, other))
        ]
      ]
    ]
  ]

  pub constant-Suits :
      (transform : String) (v : Json)
      → str_eq transform "constant" ≡ true
      → Suits (text transform) v
  unfolding apply_transform is_text
  constant-Suits transform v h =
      subst (λ t. Suits (text t) v) (sym ((eq_iff transform "constant").0 h))
        (as_float (numbers.float_of_count 1), refl, refl)

  increment-IsOfData :
      (v : V) → OnErr IsOfData (counter_raised fl numbers (normalize_counter_increment fl v))
  unfolding counter_raised normalize_counter_increment
  increment-IsOfData v = elim (Bool-cases (fl.is_finite v)) [
    | inr infinite ↦ rw infinite refl
    | inl finite ↦ elim (Bool-cases (fl.is_negative v)) [
      | inl below ↦ rw (finite, below) refl
      | inr positive ↦ elim (Bool-cases (fl.is_zero v)) [
        | inl nothing ↦ rw (finite, positive, nothing) tt
        | inr something ↦ rw (finite, positive, something) tt
      ]
    ]
  ]

  pub normalize_object-IsOfData :
      (x : Transformed V) → is_numeric x ≡ true → OnErr IsOfData (normalize_object fl numbers x)
  unfolding normalize_object
  normalize_object-IsOfData (as_float v) h = increment-IsOfData v
  normalize_object-IsOfData (as_it_is (number n)) h = elim (Option-cases (numbers.float_of n)) [
    | inl over ↦ simp (over, normalize_object) refl
    | inr (v, there) ↦ simp (there, normalize_object) (increment-IsOfData v)
  ]
  normalize_object-IsOfData (as_it_is _) h = cc
