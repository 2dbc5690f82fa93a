-- ===== src/Metrics/Safety/Matches.antt =====
-- The matches of a typed value suit the transform, once nulls are left out.
use outbox_service.Prelude.{
  ℕ, ◌≡◌, refl, Bool, true, false, not, ◌||◌, Option, none, some, List, [], ◌∷◌, String, Result, ok,
  str_eq, ltb, length, any_of, select, All, OnOk, OnErr, arith, inl, inr, ◌⊎◌, Bool-cases,
}
use outbox_service.Json.{Json, true_value, false_value, number, text, array}
use outbox_service.Aggregation.Values.{Floats}
use outbox_service.Metrics.Schema.{
  JsonType, string_type, number_type, integer_type, boolean_type, array_type, SchemaNode,
  resolve_path,
}
use outbox_service.Metrics.Yaml.{
  ValidatedObservation, allows, is_number, is_array, is_string, is_boolean,
}
use outbox_service.Metrics.Compiler.{bool_json}
use outbox_service.Metrics.Extractor.{
  ExtractionFailure, Numbers, Definition, is_null, is_true, limited, present_values,
}
use outbox_service.Metrics.Conforms.{has_type}
use outbox_service.Metrics.Safety.Values.{IsOfData, Suits}
use outbox_service.Metrics.Safety.Labels.{IsLabelPath}

-- the value path is that of a constant, or it is resolved and its type is allowed
abbrev pub IsTypedObservation : SchemaNode → ValidatedObservation → Type 0
IsTypedObservation node o =
    (str_eq o.transform "constant" ≡ true)
    ⊎ ((resolve_path node o.value_path.path ≡ ok o.value_path)
        × (allows o.transform o.value_path.json_type ≡ true))

abbrev pub IsValid : SchemaNode → ValidatedObservation → Type 0
IsValid node o = IsTypedObservation node o × All (IsLabelPath node) o.labels

number_not_null :
    (t : JsonType) (v : Json) → is_number t ≡ true → has_type t v ≡ true → is_null v ≡ false
unfolding is_number is_null
number_not_null number_type (number _) a h = refl
number_not_null integer_type (number _) a h = refl
number_not_null _ _ a h = cc

other_not_null :
    (t : JsonType) (v : Json)
    → (is_array t || is_string t || is_boolean t) ≡ true
    → has_type t v ≡ true
    → is_null v ≡ false
unfolding is_array is_string is_boolean is_null
other_not_null array_type (array _) a h = refl
other_not_null string_type (text _) a h = refl
other_not_null boolean_type true_value a h = refl
other_not_null boolean_type false_value a h = refl
other_not_null _ _ a h = cc

-- a value of an allowed type is not null
pub allowed_not_null :
    (transform : String) (t : JsonType) (v : Json)
    → allows transform t ≡ true
    → has_type t v ≡ true
    → is_null v ≡ false
unfolding allows
allowed_not_null transform t v a h = elim (Bool-cases (is_number t)) [
  | inl numeric ↦ number_not_null t v numeric h
  | inr other ↦ other_not_null t v (ground (arith, a)) h
]

pub is_true-bool_json : (b : Bool) → is_true (bool_json b) ≡ b
unfolding is_true bool_json
is_true-bool_json true = refl
is_true-bool_json false = refl

module _ {V : Type 0} (fl : Floats V) (numbers : Numbers V) where
  abbrev pub AllSuit : Json → Option (List Json) → Type 0
  AllSuit transform none = Unit
  AllSuit transform (some ms) = All (Suits fl numbers transform) ms

  -- it fails only by the data of the event, and what it finds suits the transform
  abbrev pub Behaves : Json → Result ExtractionFailure (Option (List Json)) → Type 0
  Behaves transform r = OnErr IsOfData r × OnOk (AllSuit transform) r

  limited-Behaves :
      (transform : Json) (limit : ℕ) (ms : List Json)
      → All (Suits fl numbers transform) ms
      → Behaves transform (limited limit ms)
  unfolding limited
  limited-Behaves transform limit [] h = (tt, tt)
  limited-Behaves transform limit (m ∷ ms) h = elim (Bool-cases (ltb limit (length (m ∷ ms)))) [
    | inl over ↦ rw over (refl, tt)
    | inr within ↦ rw within (tt, h)
  ]

  -- null where that is allowed, or a value that suits
  abbrev pub IsGood : Bool → Json → Json → Type 0
  IsGood nullable transform v =
      ((is_null v ≡ true) × (nullable ≡ true))
      ⊎ ((is_null v ≡ false) × Suits fl numbers transform v)

  good-select :
      (nullable : Bool) (transform : Json) (ms : List Json)
      → All (IsGood nullable transform) ms
      → All (Suits fl numbers transform) (select (λ m. not (is_null m)) ms)
  good-select nullable transform [] h = tt
  good-select nullable transform (m ∷ ms) (inl (absent, _), h) =
      rw absent (good-select nullable transform ms h)
  good-select nullable transform (m ∷ ms) (inr (present, suits), h) =
      rw present (suits, good-select nullable transform ms h)

  good-Suits :
      (nullable : Bool) (transform : Json) (ms : List Json)
      → All (IsGood nullable transform) ms
      → any_of is_null ms ≡ false
      → All (Suits fl numbers transform) ms
  good-Suits nullable transform [] h no_null = tt
  good-Suits nullable transform (m ∷ ms) (inl (absent, _), h) no_null =
      absurd (ground (arith, absent, no_null))
  good-Suits nullable transform (m ∷ ms) (inr (present, suits), h) no_null =
      (suits, good-Suits nullable transform ms h (ground (arith, present, no_null)))

  good_strict :
      (nullable : Bool) (transform : Json) (ms : List Json)
      → nullable ≡ false
      → All (IsGood nullable transform) ms
      → any_of is_null ms ≡ false
  good_strict nullable transform [] strict h = refl
  good_strict nullable transform (m ∷ ms) strict (inl (_, allowed), h) = cc
  good_strict nullable transform (m ∷ ms) strict (inr (present, _), h) =
      rw present (good_strict nullable transform ms strict h)

  pub present_values-Behaves :
      (limit : ℕ) (d : Definition) (ms : List Json)
      → All (IsGood d.allows_null d.transform) ms
      → Behaves d.transform (present_values limit d ms)
  unfolding present_values
  present_values-Behaves limit d [] h = elim (Bool-cases d.is_optional) [
    | inl optional ↦ rw optional (tt, tt)
    | inr required ↦ rw required (refl, tt)
  ]
  present_values-Behaves limit d (v ∷ vs) h = elim (Bool-cases (any_of is_null (v ∷ vs))) [
    | inr no_null ↦ rw no_null (
        limited-Behaves d.transform limit (v ∷ vs)
          (good-Suits d.allows_null d.transform (v ∷ vs) h no_null))
    | inl a_null ↦ elim (Bool-cases d.allows_null) [
      | inl allowed ↦
          rw (a_null, allowed)
            (limited-Behaves d.transform limit (select (λ m. not (is_null m)) (v ∷ vs))
              (good-select d.allows_null d.transform (v ∷ vs) h))
      | inr strict ↦
          absurd (ground (arith, a_null, good_strict d.allows_null d.transform (v ∷ vs) strict h))
    ]
  ]
