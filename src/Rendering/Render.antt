-- ===== src/Rendering/Render.antt =====
-- `render_prometheus_metric_states` of app/metrics_engine/prometheus_renderer.py. The formats of floats
-- are parameters.
use outbox_service.Prelude.{
  Bool, true, false, not, ◌&&◌, List, [], ◌∷◌, ◌++◌, String, Result, ok, err, ◌>>=◌, ◌>>◌, raise_if,
  if◌then◌else◌, str_eq, ltb, length, any_of, order_by,
}
use Prim.Native.String.{◌++◌ as concat}
use outbox_service.Json.{Json}
use outbox_service.Cardinality.Names.{normalize_prometheus_metric_name}
use outbox_service.Chains.Builder.{add_code}
use outbox_service.Aggregation.Values.{
  Floats, CounterValueError, normalize_counter_increment, coalesce_counter_increments,
}
use outbox_service.Aggregation.Labels.{RenderingError, text_leb}
use outbox_service.Rendering.Escape.{escape_prometheus_label_value}
use outbox_service.Rendering.Labels.{LabelItem, merge_prometheus_labels}

pub record PrometheusMetricStateSample (V : Type 0) : Type 0 where
  pub metric_code : String
  pub value : V
  pub business_labels : Json
  pub project_name : String
  pub event_type_code : String

pub data RenderError : Type 0 where
  invalid_labels : RenderingError → RenderError
  invalid_value : CounterValueError → RenderError
  family_collision duplicate_series : RenderError

-- what a number's text is in a label, and `format(value, ".15g")`
pub record Formats (V : Type 0) : Type 0 where
  pub number_text : String → String
  pub format_value : V → String

-- an entry of `families`, and of `source_codes` under the same name
pub record Family (V : Type 0) : Type 0 where
  pub metric_name : String
  pub metric_codes : List String
  pub series : List (List LabelItem × List V)

unfoldable pub same_items : List LabelItem → List LabelItem → Bool
same_items [] [] = true
same_items (x ∷ xs) (y ∷ ys) = (str_eq x.name y.name && str_eq x.value y.value) && same_items xs ys
same_items _ _ = false

-- the order of tuples of pairs
unfoldable pub items_leb : List LabelItem → List LabelItem → Bool
items_leb [] ys = true
items_leb (x ∷ xs) [] = false
items_leb (x ∷ xs) (y ∷ ys) =
    let rest = items_leb xs ys in
    if not (str_eq x.name y.name)
    then text_leb x.name y.name
    else if not (str_eq x.value y.value)
    then text_leb x.value y.value
    else rest

unfoldable pub labels_raised : {A : Type 0} → Result RenderingError A → Result RenderError A
labels_raised (ok a) = ok a
labels_raised (err e) = err (invalid_labels e)

unfoldable pub value_raised : {A : Type 0} → Result CounterValueError A → Result RenderError A
value_raised (ok a) = ok a
value_raised (err e) = err (invalid_value e)

-- `name="value"`
unfoldable pub render_label : LabelItem → String
render_label x = concat x.name (concat "=\"" (concat (escape_prometheus_label_value x.value) "\""))

-- `",".join(...)`
unfoldable pub render_labels : List LabelItem → String
unfolding render_label
render_labels [] = ""
render_labels (x ∷ []) = render_label x
render_labels (x ∷ y ∷ xs) = concat (render_label x) (concat "," (render_labels (y ∷ xs)))

-- `"\n".join(lines) + "\n"`
unfoldable pub join_lines : List String → String
join_lines [] = "\n"
join_lines (l ∷ []) = concat l "\n"
join_lines (l ∷ m ∷ ls) = concat l (concat "\n" (join_lines (m ∷ ls)))

module _ {V : Type 0} where
  -- `families[metric_name].setdefault(label_items, []).append(value)`
  unfoldable pub add_series :
      List LabelItem → V → List (List LabelItem × List V) → List (List LabelItem × List V)
  unfolding same_items
  add_series items v [] = (items, v ∷ []) ∷ []
  add_series items v ((key, values) ∷ rest) =
      if same_items items key
      then (key, values ++ v ∷ []) ∷ rest
      else (key, values) ∷ add_series items v rest

  unfoldable pub add_sample :
      String → String → List LabelItem → V → List (Family V) → List (Family V)
  unfolding add_series
  add_sample name metric_code items v [] =
      record { metric_name = name; metric_codes = metric_code ∷ []; series = (items, v ∷ []) ∷ [] }
      ∷ []
  add_sample name metric_code items v (f ∷ fs) =
      if str_eq name f.metric_name
      then record f {
        metric_codes = add_code metric_code f.metric_codes;
        series = add_series items v f.series;
      }
        ∷ fs
      else f ∷ add_sample name metric_code items v fs

  module _ (fl : Floats V) (formats : Formats V) where
    -- the loop over the samples
    unfoldable pub collect :
        List (PrometheusMetricStateSample V)
        → List (Family V)
        → Result RenderError (List (Family V))
    collect [] families = ok families
    collect (x ∷ xs) families = value_raised (normalize_counter_increment fl x.value) >>= λ value.
        labels_raised (
          merge_prometheus_labels formats.number_text x.business_labels x.project_name
            x.event_type_code)
        >>= λ items. collect xs (
            add_sample (normalize_prometheus_metric_name x.metric_code) x.metric_code items value
              families)

    unfoldable pub render_line : String → List LabelItem → V → String
    render_line name items value = concat name (
        concat "{" (
          concat (render_labels items)
            (concat "} " (if fl.is_zero value then "0" else formats.format_value value))))

    -- the loop over the series of a family, with `rendered_identities`
    unfoldable pub render_series :
        String
        → List (List LabelItem)
        → List (List LabelItem × List V)
        → Result RenderError (List String)
    render_series name seen [] = ok []
    render_series name seen ((items, values) ∷ rest) =
        raise_if (any_of (same_items items) seen) duplicate_series
        >> (value_raised (coalesce_counter_increments fl values) >>= λ value.
            render_series name (items ∷ seen) rest >>= λ lines.
            ok (render_line name items value ∷ lines))

    -- the loop over the families
    unfoldable pub render_families : List (Family V) → Result RenderError (List String)
    render_families [] = ok []
    render_families (f ∷ fs) =
        render_series f.metric_name [] (order_by (λ x y. items_leb x.0 y.0) f.series) >>= λ lines.
        render_families fs >>= λ rest.
        ok (concat "# TYPE " (concat f.metric_name " counter") ∷ (lines ++ rest))

    unfoldable pub render_prometheus_metric_states :
        List (PrometheusMetricStateSample V) → Result RenderError String
    render_prometheus_metric_states [] = ok ""
    render_prometheus_metric_states (x ∷ xs) = collect (x ∷ xs) [] >>= λ families.
        raise_if (any_of (λ f. ltb 1 (length f.metric_codes)) families) family_collision
        >> (render_families (order_by (λ f g. text_leb f.metric_name g.metric_name) families)
            >>= λ lines. ok (join_lines lines))
