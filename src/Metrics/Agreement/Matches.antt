-- ===== src/Metrics/Agreement/Matches.antt =====
-- The loops over the matches make the same observations, none of them of a null.
use outbox_service.Prelude.{
  ℕ, suc, ◌≡◌, refl, true, false, List, [], ◌∷◌, map, String, ok, ◌>>=◌, raise_if, str_eq, leb,
  length, any_of, OnOk, OnOk-bind, OnOk-eq, OnOk-mono, OnOk-intro, arith, inl, inr, Bool-cases,
  length,
}
use outbox_service.Json.{Json, null, text}
use outbox_service.Aggregation.Values.{Floats}
use outbox_service.Metrics.Extractor.{
  ExtractionLimits, Numbers, Observation, KeyedObservation, LabelValues, is_null, is_text,
  Definition, build_dimensions, apply_transform, count_of, length_of, number_of, normalize_object,
  extract_matches, observe_matches, extraction, too_many_observations,
}

module _ {V : Type 0} (fl : Floats V) (numbers : Numbers V) where
  -- a transform of null makes no number
  null_fails :
      (transform : String)
      → str_eq transform "constant" ≡ false
      → OnOk
          (λ _. ⊥)
          (apply_transform fl numbers (text transform) null >>= normalize_object fl numbers)
  unfolding apply_transform is_text normalize_object count_of length_of number_of
  null_fails transform other = elim (Bool-cases (str_eq transform "identity")) [
    | inl identity ↦ rw identity tt
    | inr no_identity ↦ elim (Bool-cases (str_eq transform "count")) [
      | inl count ↦ rw (no_identity, count) tt
      | inr no_count ↦ elim (Bool-cases (str_eq transform "length")) [
        | inl length ↦ rw (no_identity, no_count, length) tt
        | inr no_length ↦ elim (Bool-cases (str_eq transform "to_number")) [
          | inl to_number ↦ rw (no_identity, no_count, no_length, to_number) tt
          | inr no_number ↦ rw (no_identity, no_count, no_length, no_number, other) tt
        ]
      ]
    ]
  ]

  module _ (limits : ExtractionLimits) (code transform : String)
      (labels : List (String × LabelValues)) where
    value_not_null :
        (m : Json)
        → str_eq transform "constant" ≡ false
        → OnOk
            (λ _. is_null m ≡ false)
            (apply_transform fl numbers (text transform) m >>= normalize_object fl numbers)
    unfolding is_null
    value_not_null null other =
        OnOk-mono (λ _. ⊥) (λ _. true ≡ false)
          (apply_transform fl numbers (text transform) null >>= normalize_object fl numbers)
          (λ _ h. absurd h) (null_fails transform other)
    value_not_null _ other = OnOk-intro (λ _. false ≡ false) _ (λ _ _. refl)

    pub observed_not_null :
        (count i : ℕ) (ms : List Json)
        → str_eq transform "constant" ≡ false
        → OnOk
            (λ _. any_of is_null ms ≡ false)
            (observe_matches fl numbers limits code transform labels count i ms)
    unfolding observe_matches
    observed_not_null count i [] other = refl
    observed_not_null count i (m ∷ ms) other =
        let R : List (Observation V) → Type 0 = λ _. any_of is_null (m ∷ ms) ≡ false in
        let value = apply_transform fl numbers (text transform) m >>= normalize_object fl numbers in
        let rest = observe_matches fl numbers limits code transform labels (suc count) (suc i) ms in
        OnOk-bind R (build_dimensions i labels) _ (λ _ _.
          OnOk-bind R
            (raise_if (leb limits.max_observations_per_event count)
              (extraction too_many_observations))
            _
            (λ _ _. OnOk-bind R value _ (λ v made. OnOk-bind R rest _ (λ xs others.
              let here = OnOk-eq (λ _. is_null m ≡ false) value (value_not_null m other) made in
              let there =
                OnOk-eq (λ _. any_of is_null ms ≡ false) rest
                  (observed_not_null (suc count) (suc i) ms other) others in
              ground (arith, here, there)))))

    -- the same observations, with keys
    module _ (d : Definition) (n : ℕ) where
      abbrev pub Keys : ℕ → ℕ → List Json → List (Observation V) → Type 0
      Keys count i ms os =
          (ks : List (KeyedObservation V)) × (extract_matches fl numbers limits n d labels count i
              ms
            ≡ ok ks)
          × (map (λ k. k.observation) ks ≡ os)

      pub observe_matches-Keys :
          (count i : ℕ) (ms : List Json)
          → d.metric_code ≡ text code
          → d.transform ≡ text transform
          → OnOk
              (Keys count i ms)
              (observe_matches fl numbers limits code transform labels count i ms)
      unfolding observe_matches extract_matches
      observe_matches-Keys count i [] coded transforms = ([], refl, refl)
      observe_matches-Keys count i (m ∷ ms) coded transforms =
          let R = Keys count i (m ∷ ms) in
          let full =
            raise_if (leb limits.max_observations_per_event count)
              (extraction too_many_observations) in
          let value =
            apply_transform fl numbers (text transform) m >>= normalize_object fl numbers in
          let rest =
            observe_matches fl numbers limits code transform labels (suc count) (suc i) ms in
          OnOk-bind R (build_dimensions i labels) _ (λ dimensions built.
            OnOk-bind R full _ (λ _ passed. OnOk-bind R value _ (λ v made.
              OnOk-bind R rest _ (λ xs others.
                let (ks, keyed, same) =
                  OnOk-eq (Keys (suc count) (suc i) ms) rest
                    (observe_matches-Keys (suc count) (suc i) ms coded transforms) others in
                rw (built, passed, transforms, made, keyed) (_, refl, rw (coded, same) refl)))))
