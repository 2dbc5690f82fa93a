-- ===== src/Cardinality/Estimate.antt =====
-- `MetricCardinalityService` of app/services/metric_cardinality_service.py: the lists that Python
-- extends in place are part of a state that each step passes on.
use outbox_service.Prelude.{
  ℕ, ◌+◌, ◌*◌, ◌/◌, Bool, true, false, ◌||◌, not, Option, none, some, List, [], ◌∷◌, ◌++◌, String,
  Result, ok, err, if◌then◌else◌, ltb, leb, str_eq, any_of,
}
use outbox_service.Json.{Json, array, object, get, text_of, items_of}
use outbox_service.Cardinality.Model.{
  prometheus_name_collision, prometheus_label_collision, cardinality_unbounded, collision,
  CardinalityDiagnostic, LabelBreakdown, MetricCardinalityBreakdown, AnalyzedBuilderField,
  diagnostic,
}
use outbox_service.Cardinality.Names.{normalize_prometheus_metric_name, is_business_label_name}

-- `fields.get(path)` on the dict by path: of two fields with one path the later one stays
unfoldable pub field_at : String → List AnalyzedBuilderField → Option AnalyzedBuilderField
field_at path [] = none
field_at path (f ∷ fs) = elim (field_at path fs) [
  | some later ↦ some later
  | none ↦ if str_eq f.path path then some f else none
]

-- the field, if its cardinality is known
unfoldable pub bounded_field :
    String → List AnalyzedBuilderField → Option (AnalyzedBuilderField × ℕ)
bounded_field path fs = known (field_at path fs)
  where
    counted : AnalyzedBuilderField → Option ℕ → Option (AnalyzedBuilderField × ℕ)
    counted f none = none
    counted f (some n) = if f.label_allowed then some (f, n) else none

    known : Option AnalyzedBuilderField → Option (AnalyzedBuilderField × ℕ)
    known none = none
    known (some f) = counted f f.label_cardinality

-- the name of a metric code by its Prometheus name; the last entry of a name stays
unfoldable pub code_of : String → List (String × String) → Option String
code_of name [] = none
code_of name ((n, c) ∷ rest) = if str_eq n name then some c else code_of name rest

abbrev pub name_collision : String → MetricCardinalityBreakdown → CardinalityDiagnostic
name_collision first b = record {
  code = prometheus_name_collision;
  message = "Metric codes collide after Prometheus normalization";
  location = none;
  details = some (collision first b.metric_code b.prometheus_metric_name);
}

-- whether another metric code has the same Prometheus name
unfoldable pub check_name :
    List (String × String) → MetricCardinalityBreakdown → List CardinalityDiagnostic
check_name names b = collides (code_of b.prometheus_metric_name names)
  where
    collides : Option String → List CardinalityDiagnostic
    collides none = []
    collides (some first) = if str_eq first b.metric_code then [] else name_collision first b ∷ []

abbrev pub note_name : MetricCardinalityBreakdown → List (String × String) → List (String × String)
note_name b names = (b.prometheus_metric_name, b.metric_code) ∷ names

-- the loop over the breakdown in `assess`: what it adds to the errors
unfoldable pub check_names :
    List (String × String) → List MetricCardinalityBreakdown → List CardinalityDiagnostic
check_names names [] = []
check_names names (b ∷ bs) = check_name names b ++ check_names (note_name b names) bs

-- `_safe_multiply` and `_safe_add`: the result, and what they add to the errors. On integers
-- `left > limit - right` says that the sum passes the limit.
unfoldable pub safe_multiply : ℕ → ℕ → ℕ → ℕ × List CardinalityDiagnostic
safe_multiply limit left right =
    if leb right 0 || ltb (limit / right) left
    then (
      limit,
      diagnostic cardinality_unbounded
            "Metric label cardinality exceeds the configured safety bound" none
          ∷ [],
    )
    else (left * right, [])

unfoldable pub safe_add : ℕ → ℕ → ℕ → ℕ × List CardinalityDiagnostic
safe_add limit left right =
    if ltb limit (left + right)
    then (
      limit,
      diagnostic cardinality_unbounded
            "Metric snapshot cardinality exceeds the configured safety bound" none
          ∷ [],
    )
    else (left + right, [])

-- the loop variables of `_analyze_observation`
pub record LabelState : Type 0 where
  pub contribution : ℕ
  pub label_breakdown : List LabelBreakdown
  pub seen_labels : List String
  pub errors : List CardinalityDiagnostic

abbrev pub fail : CardinalityDiagnostic → LabelState → LabelState
fail d st = record st { errors = st.errors ++ d ∷ [] }

unfoldable pub label_identity : String → Json → Result CardinalityDiagnostic (String × String)
label_identity code (object fs) = both (text_of (get "name" fs)) (text_of (get "path" fs))
  where
    both : Option String → Option String → Result CardinalityDiagnostic (String × String)
    both (some name) (some path) = ok (name, path)
    both _ _ = err (diagnostic cardinality_unbounded "Compiled label lacks an identity" (some code))
label_identity code _ =
    err (diagnostic cardinality_unbounded "Compiled label is invalid" (some code))

-- a label with a name of its own
unfoldable pub count_label :
    ℕ → String → String → Option (AnalyzedBuilderField × ℕ) → LabelState → LabelState
count_label limit name path none st = record st {
  seen_labels = name ∷ st.seen_labels;
  label_breakdown =
      st.label_breakdown
      ++ record { name = name; path = path; cardinality = none; source = none } ∷ [];
  errors =
      st.errors
      ++ diagnostic cardinality_unbounded "Label cardinality cannot be demonstrated statically"
          (some path)
        ∷ [];
}
count_label limit name path (some (f, n)) st =
    let (product, raised) = safe_multiply limit st.contribution n in
    record {
      contribution = product;
      seen_labels = name ∷ st.seen_labels;
      label_breakdown =
          st.label_breakdown
          ++ record {
            name = name;
            path = path;
            cardinality = some n;
            source = f.label_cardinality_source;
          }
            ∷ [];
      errors = st.errors ++ raised;
    }

unfoldable pub analyze_named :
    ℕ → List AnalyzedBuilderField → String → String → LabelState → LabelState
analyze_named limit fields name path st =
    if not (is_business_label_name name)
    then fail
        (diagnostic prometheus_label_collision
          "Label name is invalid or collides with an OB1 technical label" (some name))
        st
    else if any_of (str_eq name) st.seen_labels
    then fail
        (diagnostic prometheus_label_collision "Multiple labels have the same Prometheus name"
          (some name))
        st
    else count_label limit name path (bounded_field path fields) st

-- one round of the loop over the labels
unfoldable pub analyze_label :
    ℕ → List AnalyzedBuilderField → String → Json → LabelState → LabelState
analyze_label limit fields code label st = elim (label_identity code label) [
  | err d ↦ fail d st
  | ok (name, path) ↦ analyze_named limit fields name path st
]

unfoldable pub analyze_labels :
    ℕ → List AnalyzedBuilderField → String → List Json → LabelState → LabelState
analyze_labels limit fields code [] st = st
analyze_labels limit fields code (label ∷ labels) st =
    analyze_labels limit fields code labels (analyze_label limit fields code label st)

-- `observation.get("labels", [])`, where anything but a list is an error
unfoldable pub labels_of : String → Option Json → List Json × List CardinalityDiagnostic
labels_of code none = ([], [])
labels_of code (some (array js)) = (items_of js, [])
labels_of code (some _) =
    ([], diagnostic cardinality_unbounded "Compiled labels are invalid" (some code) ∷ [])

abbrev pub unknown_metric : Option ℕ → MetricCardinalityBreakdown
unknown_metric schema_id = record {
  metric_code = "unknown";
  prometheus_metric_name = "unknown";
  intent = "unknown";
  labels = [];
  contribution = none;
  accepted = false;
  source_schema_definition_id = schema_id;
}

-- the estimate of an observation with a code and a transform
unfoldable pub analyze_identified :
    ℕ
    → List AnalyzedBuilderField
    → Option ℕ
    → Option Json
    → String
    → String
    → MetricCardinalityBreakdown × List CardinalityDiagnostic
analyze_identified limit fields schema_id labels code transform =
    let (given, raised) = labels_of code labels in
    let st =
      analyze_labels limit fields code given
        (record { contribution = 1; label_breakdown = []; seen_labels = []; errors = raised }) in
    (
      record {
        metric_code = code;
        prometheus_metric_name = normalize_prometheus_metric_name code;
        intent = transform;
        labels = st.label_breakdown;
        contribution = if no_errors st.errors then some st.contribution else none;
        accepted = no_errors st.errors;
        source_schema_definition_id = schema_id;
      },
      st.errors,
    )
  where
    no_errors : List CardinalityDiagnostic → Bool
    no_errors [] = true
    no_errors (_ ∷ _) = false
