-- ===== src/Metrics/Keys.antt =====
-- The keys and the number of the observations that one plan makes of an event.
use outbox_service.Prelude.{
  ℕ, suc, ◌+◌, ◌≤◌, ◌≡◌, refl, Bool, true, ◌&&◌, ◌||◌, Option, none, some, List, [], ◌∷◌, ◌++◌,
  String, ok, ◌>>=◌, raise_if, raise_if_ok, ◌==◌, ltb, leb, length, length-append, All, All-map,
  All-append, OnOk, OnOk-bind, OnOk-eq, arith,
}
use outbox_service.Json.{Json, object, get}
use outbox_service.Aggregation.Values.{Floats}
use outbox_service.Metrics.Extractor.{
  extraction, too_many_observations, ExtractionLimits, Numbers, ObservationKey, occurrence,
  KeyedObservation, Definition, LabelValues, definition_of, value_matches, build_dimensions,
  apply_transform, normalize_object, extract_matches, label_definitions, extract_labels,
  extract_present, extract_definition, extract_definitions, check_version, compiled_observations,
  extract_keyed_observations_from_compiled_plan,
}

-- by the definition, then by the match
abbrev pub before : ObservationKey → ObservationKey → Bool
before (occurrence n i) (occurrence m j) = ltb n m || n == m && ltb i j

module _ {V : Type 0} where
  -- each key is before all later ones
  abbrev pub Ascends : List (KeyedObservation V) → Type 0
  Ascends [] = Unit
  Ascends (x ∷ xs) = All (λ y. before x.observation_key y.observation_key ≡ true) xs × Ascends xs

  -- of the definition `n`, from the match `i`
  abbrev IsFrom : ℕ → ℕ → KeyedObservation V → Type 0
  IsFrom n i x = (j : ℕ) × (x.observation_key ≡ occurrence n j) × (i ≤ j)

  -- of the definition `n` or a later one
  abbrev IsSince : ℕ → KeyedObservation V → Type 0
  IsSince n x = (m : ℕ) × (j : ℕ) × (x.observation_key ≡ occurrence m j) × (n ≤ m)

  Ascends-append :
      (n : ℕ) (xs ys : List (KeyedObservation V))
      → Ascends xs
      → Ascends ys
      → All (IsFrom n 0) xs
      → All (IsSince (suc n)) ys
      → Ascends (xs ++ ys)
  Ascends-append n [] ys ax ay fx fy = ay
  Ascends-append n (x ∷ xs) ys (later, ax) ay ((i, e, _), fx) fy = (
    All-append (λ y. before x.observation_key y.observation_key ≡ true) xs ys later
        (All-map (λ y (m, j, k, lt). rw (e, k) (ground arith)) ys fy),
    Ascends-append n xs ys ax ay fx fy,
  )

  module _ (fl : Floats V) (numbers : Numbers V) (limits : ExtractionLimits) where
    -- what the matches from `i` make, after `count` observations
    abbrev IsRun : ℕ → ℕ → ℕ → List (KeyedObservation V) → Type 0
    IsRun n i count xs =
        (count + length xs ≤ limits.max_observations_per_event) × All (IsFrom n i) xs × Ascends xs

    extract_matches-IsRun :
        (n : ℕ) (d : Definition) (labels : List (String × LabelValues)) (count i : ℕ)
        (ms : List Json)
        → count ≤ limits.max_observations_per_event
        → OnOk (IsRun n i count) (extract_matches fl numbers limits n d labels count i ms)
    unfolding extract_matches
    extract_matches-IsRun n d labels count i [] fits = (omega arith, tt, tt)
    extract_matches-IsRun n d labels count i (m ∷ ms) fits =
        let R = IsRun n i count in
        let full = leb limits.max_observations_per_event count in
        OnOk-bind R (build_dimensions i labels) _ (λ dimensions _.
          OnOk-bind R (raise_if full (extraction too_many_observations)) _ (λ _ passed.
            OnOk-bind R (apply_transform fl numbers d.transform m >>= normalize_object fl numbers) _
              (λ value _.
                let rest = extract_matches fl numbers limits n d labels (suc count) (suc i) ms in
                OnOk-bind R rest _ (λ xs made.
                  let (within, from, ascends) =
                    OnOk-eq (IsRun n (suc i) (suc count)) rest
                      (extract_matches-IsRun n d labels (suc count) (suc i) ms (
                        ground (arith, raise_if_ok full (extraction too_many_observations) passed)))
                      made in
                  (
                    omega arith,
                    ((i, refl, omega arith), All-map (λ y (j, e, le). (j, e, omega arith)) xs from),
                    (All-map (λ y (j, e, le). rw e (ground arith)) xs from, ascends),
                  )))))

    module _ (find : String → Json → Option (List Json)) (payload : Json) where
      extract_definition-IsRun :
          (n count : ℕ) (j : Json)
          → count ≤ limits.max_observations_per_event
          → OnOk (IsRun n 0 count) (extract_definition fl numbers find limits payload n count j)
      unfolding extract_definition extract_present
      extract_definition-IsRun n count j fits =
          let R = IsRun n 0 count in
          OnOk-bind R (definition_of j) _ (λ d _.
            OnOk-bind R (value_matches find payload limits.max_matches_per_observation d) _
              (λ ms _. present d ms))
        where
          present :
              (d : Definition) (ms : Option (List Json))
              → OnOk (IsRun n 0 count) (extract_present fl numbers find limits payload n count d ms)
          present d none = (omega arith, tt, tt)
          present d (some ms) =
              OnOk-bind (IsRun n 0 count) (label_definitions d.labels) _ (λ definitions _.
                OnOk-bind (IsRun n 0 count) (extract_labels find payload definitions []) _
                  (λ labels _. extract_matches-IsRun n d labels count 0 ms fits))

      -- what the definitions from `n` make, after `count` observations
      abbrev IsWhole : ℕ → ℕ → List (KeyedObservation V) → Type 0
      IsWhole n count xs =
          (count + length xs ≤ limits.max_observations_per_event) × All (IsSince n) xs × Ascends xs

      extract_definitions-IsWhole :
          (n count : ℕ) (js : List Json)
          → count ≤ limits.max_observations_per_event
          → OnOk (IsWhole n count) (extract_definitions fl numbers find limits payload n count js)
      unfolding extract_definitions
      extract_definitions-IsWhole n count [] fits = (omega arith, tt, tt)
      extract_definitions-IsWhole n count (j ∷ js) fits =
          let R = IsWhole n count in
          let first = extract_definition fl numbers find limits payload n count j in
          OnOk-bind R first _ (λ xs made.
            let (within, from, ascends) =
              OnOk-eq (IsRun n 0 count) first (extract_definition-IsRun n count j fits) made in
            let rest =
              extract_definitions fl numbers find limits payload (suc n) (count + length xs) js in
            OnOk-bind R rest _ (λ ys others.
              let (within', since, ascends') =
                OnOk-eq (IsWhole (suc n) (count + length xs)) rest
                  (extract_definitions-IsWhole (suc n) (count + length xs) js within) others in
              (
                omega (arith, length-append xs ys),
                All-append (IsSince n) xs ys
                    (All-map (λ y (i, e, _). (n, i, e, omega arith)) xs from)
                    (All-map (λ y (m, i, e, le). (m, i, e, omega arith)) ys since),
                Ascends-append n xs ys ascends ascends' from since,
              )))

      -- An extraction returns at most the observations that the limit allows, each with a key of its
      -- own: the keys ascend by the definition and the match.
      pub extract_keyed_observations_ascend :
          (plan : Json) (xs : List (KeyedObservation V))
          → extract_keyed_observations_from_compiled_plan fl numbers find limits payload plan
            ≡ ok xs
          → (length xs ≤ limits.max_observations_per_event) × Ascends xs
      unfolding extract_keyed_observations_from_compiled_plan
      extract_keyed_observations_ascend (object fs) xs returned =
          let R = IsWhole 0 0 in
          let (within, _, ascends) =
            OnOk-eq R
              (extract_keyed_observations_from_compiled_plan fl numbers find limits payload
                (object fs))
              (OnOk-bind R (check_version (get "compiler_version" fs)) _ (λ _ _.
                OnOk-bind R (compiled_observations (get "observations" fs)) _
                  (λ js _. extract_definitions-IsWhole 0 0 js (omega arith))))
              returned in
          (omega arith, ascends)
      extract_keyed_observations_ascend _ xs returned = cc
