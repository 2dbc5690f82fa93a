-- ===== src/Metrics/Agreement/Values.antt =====
-- The values that are found for a document are found for its compiled plan.
use outbox_service.Prelude.{
  ℕ, ◌≡◌, refl, false, Option, some, List, [], ◌∷◌, String, ok, str_eq, ltb, length, any_of, OnOk,
  OnOk-eq, OnOk-mono, inl, inr, Bool-cases, Option-cases, length,
}
use outbox_service.Json.{Json}
use outbox_service.Aggregation.Values.{Floats}
use outbox_service.Metrics.Yaml.{ValidatedObservation}
use outbox_service.Metrics.Extractor.{
  ExtractionLimits, Numbers, Observation, LabelValues, is_null, constant_match, limited,
  present_values, found, is_text, value_matches, Definition, required_matches, validated_matches,
  observe_matches,
}
use outbox_service.Metrics.Safety.Plans.{compiled_definition}
use outbox_service.Metrics.Agreement.Matches.{observed_not_null}

module _ (find : String → Json → Option (List Json)) (payload : Json) where
  abbrev pub FoundValues : ℕ → ValidatedObservation → List Json → Type 0
  FoundValues limit o ms =
      any_of is_null ms ≡ false
      → value_matches find payload limit (compiled_definition o) ≡ ok (some ms)

  required_lem :
      (limit : ℕ) (d : Definition) (ms : List Json)
      → OnOk
          (λ found. any_of is_null found ≡ false → present_values limit d ms ≡ ok (some found))
          (required_matches limit ms)
  unfolding required_matches present_values limited
  required_lem limit d [] = tt
  required_lem limit d (m ∷ ms) = elim (Bool-cases (ltb limit (length (m ∷ ms)))) [
    | inl over ↦ rw over tt
    | inr within ↦ rw within (λ no_null. rw no_null refl)
  ]

  pub validated_matches-FoundValues :
      (limit : ℕ) (o : ValidatedObservation)
      → OnOk (FoundValues limit o) (validated_matches find payload limit o)
  unfolding validated_matches value_matches is_text found
  validated_matches-FoundValues limit o = elim (Bool-cases (str_eq o.transform "constant")) [
    | inl constant ↦ rw constant (λ no_null. rw constant refl)
    | inr other ↦ elim (Option-cases (find o.value_path.path payload)) [
      | inl refused ↦ rw (other, refused) tt
      | inr (ms, finds) ↦
          rw (other, finds)
            (OnOk-mono
              (λ found.
                any_of is_null found ≡ false
                → present_values limit (compiled_definition o) ms ≡ ok (some found))
              (FoundValues limit o) (required_matches limit ms)
              (λ found h no_null. rw (other, finds) (h no_null))
              (required_lem limit (compiled_definition o) ms))
    ]
  ]

  pub constant_or_not_null :
      {V : Type 0} (fl : Floats V) (numbers : Numbers V) (limits : ExtractionLimits)
      (o : ValidatedObservation) (labels : List (String × LabelValues)) (count : ℕ) (ms : List Json)
      {xs : List (Observation V)}
      → validated_matches find payload limits.max_matches_per_observation o ≡ ok ms
      → observe_matches fl numbers limits o.code o.transform labels count 0 ms ≡ ok xs
      → any_of is_null ms ≡ false
  unfolding validated_matches constant_match is_null
  constant_or_not_null fl numbers limits o labels count ms found observed =
      elim (Bool-cases (str_eq o.transform "constant")) [
        | inl constant ↦
            OnOk-eq (λ ms. any_of is_null ms ≡ false)
              (validated_matches find payload limits.max_matches_per_observation o)
              (rw constant refl) found
        | inr other ↦
            OnOk-eq (λ _. any_of is_null ms ≡ false)
              (observe_matches fl numbers limits o.code o.transform labels count 0 ms)
              (observed_not_null fl numbers limits o.code o.transform labels count 0 ms other)
              observed
      ]
