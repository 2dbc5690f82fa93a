-- ===== src/Metrics/Safety/Validated.antt =====
-- What the validation of a document guarantees.
use outbox_service.Prelude.{
  ◌≡◌, refl, sym, subst, true, false, not, Option, some, List, [], ◌∷◌, String, ok, raise_if,
  raise_if_ok, or_raise, str_eq, is_empty, All, OnOk, OnOk-eq, OnOk-bind, OnOk-intro, arith, inl,
  inr, ◌⊎◌, Bool-cases, Result-cases, or_raise-some,
}
use outbox_service.Json.{Json, array, object, Fields, end_fields, field, get, items_of, item}
use outbox_service.Cardinality.Names.{is_business_label_name}
use outbox_service.Metrics.Paths.{JsonPathToken, parse_json_path}
use outbox_service.Metrics.Schema.{SchemaNode, ResolvedPath, resolve_path, build_schema_graph}
use outbox_service.Metrics.Yaml.{
  no_value_path, unsupported_type, bad_label_name, index_without_iteration, bad_label_path, no_code,
  bad_transform, unsupported_transform, LabelPath, ValidatedObservation, ValidatedMetricYaml,
  is_transform, allows, filled, transform_of, labels_given, resolve_existing_path,
  validate_iterator_alignment, iterates, is_index, validate_label, validate_labels,
  validate_value_path, validate_observation, validate_observations, is_version, observations_given,
  built, validate_metric_yaml, bad_version, no_observations,
}
use outbox_service.Metrics.Typed.{IsResolved, resolve_path-IsResolved}
use outbox_service.Metrics.Safety.Labels.{IsLabelPath}
use outbox_service.Metrics.Safety.Matches.{IsValid}

no_empty_path :
    (path : String) {ts : List JsonPathToken} → parse_json_path path ≡ ok ts → is_empty path ≡ false
unfolding parse_json_path is_empty
no_empty_path String.[] h = cc
no_empty_path (String.◌∷◌ c s) h = refl

module _ (node : SchemaNode) where
  -- the path stands for itself
  resolved_again :
      (path : String) (r : ResolvedPath)
      → resolve_path node path ≡ ok r
      → (resolve_path node r.path ≡ ok r) × (is_empty r.path ≡ false)
  resolved_again path r resolves =
      let ((tokens, p, parses, _, _), same) : IsResolved node r × (r.path ≡ path) =
        OnOk-eq (λ r. IsResolved node r × (r.path ≡ path)) (resolve_path node path)
          (resolve_path-IsResolved node path) resolves in
      (subst (λ q. resolve_path node q ≡ ok r) (sym same) resolves, no_empty_path r.path parses)

  resolve_existing_path-ok :
      (path : String) → OnOk (λ r. resolve_path node path ≡ ok r) (resolve_existing_path node path)
  unfolding resolve_existing_path
  resolve_existing_path-ok path = elim (Result-cases (resolve_path node path)) [
    | inl (r, e) ↦ simp (e, resolve_existing_path) refl
    | inr (x, e) ↦ simp (e, resolve_existing_path) tt
  ]

  validate_label-IsLabelPath :
      (value_path : ResolvedPath) (name : String) (path : Json)
      → OnOk (λ l. IsLabelPath node (name, l)) (validate_label node value_path name path)
  unfolding validate_label
  validate_label-IsLabelPath value_path name path =
      let R : LabelPath → Type 0 = λ l. IsLabelPath node (name, l) in
      OnOk-bind R (raise_if (not (is_business_label_name name)) bad_label_name) _ (λ _ _.
        elim (Bool-cases (is_index path)) [
          | inl indexed ↦ rw indexed (
              OnOk-bind R
                (raise_if (not (iterates value_path.iterator_path)) index_without_iteration) _
                (λ _ _. tt))
          | inr other ↦ rw other (
              OnOk-bind R (or_raise (filled (some path)) bad_label_path) _ (λ q _.
                OnOk-bind R (resolve_existing_path node q) _ (λ r made.
                  let resolves =
                    OnOk-eq (λ r. resolve_path node q ≡ ok r) (resolve_existing_path node q)
                      (resolve_existing_path-ok q) made in
                  OnOk-bind R (validate_iterator_alignment value_path.iterator_path r.iterator_path)
                    _ (λ _ _. resolved_again q r resolves))))
        ])

  validate_labels-AreLabelPaths :
      (value_path : ResolvedPath) (fs : Fields)
      → OnOk (All (IsLabelPath node)) (validate_labels node value_path fs)
  unfolding validate_labels
  validate_labels-AreLabelPaths value_path end_fields = tt
  validate_labels-AreLabelPaths value_path (field name path fs) =
      let R : List (String × LabelPath) → Type 0 = All (IsLabelPath node) in
      OnOk-bind R (validate_label node value_path name path) _ (λ l made.
        OnOk-bind R (validate_labels node value_path fs) _ (λ rest others. (
          OnOk-eq (λ l. IsLabelPath node (name, l)) (validate_label node value_path name path)
              (validate_label-IsLabelPath value_path name path) made,
          OnOk-eq R (validate_labels node value_path fs)
              (validate_labels-AreLabelPaths value_path fs) others,
        )))

  abbrev IsTypedValue : String → ResolvedPath → Type 0
  IsTypedValue transform r =
      (str_eq transform "constant" ≡ true)
      ⊎ ((resolve_path node r.path ≡ ok r) × (allows transform r.json_type ≡ true))

  validate_value_path-IsTyped :
      (transform : String) (given : Option Json)
      → OnOk (IsTypedValue transform) (validate_value_path node transform given)
  unfolding validate_value_path
  validate_value_path-IsTyped transform given =
      let R = IsTypedValue transform in
      elim (Bool-cases (str_eq transform "constant")) [
        | inl constant ↦ OnOk-intro R _ (λ r _. inl constant)
        | inr other ↦ rw other (
            OnOk-bind R (or_raise (filled given) no_value_path) _ (λ q _.
              OnOk-bind R (resolve_existing_path node q) _ (λ r made.
                let resolves =
                  OnOk-eq (λ r. resolve_path node q ≡ ok r) (resolve_existing_path node q)
                    (resolve_existing_path-ok q) made in
                let refused = not (allows transform r.json_type) in
                OnOk-bind R (raise_if refused unsupported_type) _ (λ _ passed. inr (
                  (resolved_again q r resolves).0,
                  ground (arith, raise_if_ok refused unsupported_type passed),
                )))))
      ]

  pub validate_observation-IsValid : (j : Json) → OnOk (IsValid node) (validate_observation node j)
  unfolding validate_observation
  validate_observation-IsValid (object fs) =
      let R = IsValid node in
      OnOk-bind R (or_raise (filled (get "code" fs)) no_code) _ (λ code _.
        OnOk-bind R (or_raise (transform_of (get "transform" fs)) bad_transform) _ (λ transform _.
          OnOk-bind R (raise_if (not (is_transform transform)) unsupported_transform) _ (λ _ _.
            OnOk-bind R (labels_given (get "labels" fs)) _ (λ labels _.
              let value = validate_value_path node transform (get "value_path" fs) in
              OnOk-bind R value _ (λ r made.
                OnOk-bind R (validate_labels node r labels) _ (λ validated others. (
                  OnOk-eq (IsTypedValue transform) value
                      (validate_value_path-IsTyped transform (get "value_path" fs)) made,
                  OnOk-eq (All (IsLabelPath node)) (validate_labels node r labels)
                      (validate_labels-AreLabelPaths r labels) others,
                )))))))
  validate_observation-IsValid _ = tt

  validate_observations-AreValid :
      (js : List Json) → OnOk (All (IsValid node)) (validate_observations node js)
  unfolding validate_observations
  validate_observations-AreValid [] = tt
  validate_observations-AreValid (j ∷ js) =
      let R = All (IsValid node) in
      OnOk-bind R (validate_observation node j) _ (λ o made.
        OnOk-bind R (validate_observations node js) _ (λ os others. (
          OnOk-eq (IsValid node) (validate_observation node j) (validate_observation-IsValid j)
              made,
          OnOk-eq R (validate_observations node js) (validate_observations-AreValid js) others,
        )))

-- at least one observation, and each is valid
abbrev pub AreValid : SchemaNode → List ValidatedObservation → Type 0
AreValid node [] = ⊥
AreValid node (o ∷ os) = All (IsValid node) (o ∷ os)

validate_observations-some :
    (node : SchemaNode) (j : Json) (js : List Json)
    → OnOk (AreValid node) (validate_observations node (j ∷ js))
unfolding validate_observations
validate_observations-some node j js =
    OnOk-bind (AreValid node) (validate_observation node j) _ (λ o made.
      OnOk-bind (AreValid node) (validate_observations node js) _ (λ os others. (
        OnOk-eq (IsValid node) (validate_observation node j) (validate_observation-IsValid node j)
            made,
        OnOk-eq (All (IsValid node)) (validate_observations node js)
            (validate_observations-AreValid node js) others,
      )))

given_lem :
    (node : SchemaNode) (o : Option Json) (js : List Json)
    → observations_given o ≡ some js
    → OnOk (AreValid node) (validate_observations node js)
unfolding observations_given items_of
given_lem node (some (array (item j js))) (k ∷ ks) h = validate_observations-some node k ks
given_lem node (some (array (item j js))) [] h = cc
given_lem node _ ks h = cc

-- The observations of a document that is valid, at the nodes of its schema.
pub validate_metric_yaml-AreValid :
    (metric_yaml json_schema : Json) (node : SchemaNode)
    → build_schema_graph json_schema ≡ ok node
    → OnOk (λ y. AreValid node y.observations) (validate_metric_yaml metric_yaml json_schema)
unfolding validate_metric_yaml built
validate_metric_yaml-AreValid (object fs) json_schema node builds =
    let R : ValidatedMetricYaml → Type 0 = λ y. AreValid node y.observations in
    OnOk-bind R (raise_if (not (is_version (get "version" fs))) bad_version) _ (λ _ _.
      OnOk-bind R (or_raise (observations_given (get "observations" fs)) no_observations) _
        (λ js given. rw builds (
          OnOk-bind R (validate_observations node js) _ (λ os made.
            OnOk-eq (AreValid node) (validate_observations node js)
              (given_lem node (get "observations" fs) js
                (or_raise-some (observations_given (get "observations" fs)) no_observations given))
              made))))
validate_metric_yaml-AreValid _ json_schema node builds = tt
