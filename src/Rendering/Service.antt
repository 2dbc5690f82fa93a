-- ===== src/Rendering/Service.antt =====
-- app/services/prometheus_metric_state_service.py, with its query of
-- app/repositories/metric_state_repository.py.
use outbox_service.Prelude.{
  ℕ, Bool, not, none, some, List, [], ◌∷◌, String, Result, ok, err, ◌>>=◌, ◌>>◌, raise_if, or_raise,
  if◌then◌else◌, ◌==◌, str_eq, leb, find_row, select, order_by,
}
use outbox_service.Json.{Json, object, Fields, end_fields, field}
use outbox_service.Projects.Model.{Project}
use outbox_service.Aggregation.Values.{Floats}
use outbox_service.Aggregation.Labels.{Label, text_leb}
use outbox_service.Aggregation.Model.{MetricState}
use outbox_service.Rendering.Render.{
  PrometheusMetricStateSample, RenderError, Formats, render_prometheus_metric_states,
}

-- the columns of app/models/event_type.py that the query joins
pub record EventType : Type 0 where
  pub id : ℕ
  pub project_id : ℕ
  pub code : String

-- the row, with the hash by which the query sorts
pub record PrometheusMetricStateRow (V : Type 0) : Type 0 where
  pub state_id : ℕ
  pub project_id : ℕ
  pub event_type_id : ℕ
  pub event_type_project_id : ℕ
  pub event_type_code : String
  pub metric_code : String
  pub labels_hash : String
  pub labels_json : Json
  pub value : V

pub data RenderProjectError : Type 0 where
  project_not_found unexpected_project foreign_event_type : RenderProjectError
  rendering : RenderError → RenderProjectError

-- the labels of a state as their document
unfoldable pub document_of : List Label → Fields
document_of [] = end_fields
document_of (x ∷ xs) = field x.name x.value (document_of xs)

-- then by the next column
unfoldable pub text_then : String → String → Bool → Bool
text_then x y rest = if str_eq x y then rest else text_leb x y

unfoldable pub rendered : Result RenderError String → Result RenderProjectError String
rendered (ok d) = ok d
rendered (err e) = err (rendering e)

module _ {V : Type 0} where
  abbrev row_of : MetricState V → EventType → PrometheusMetricStateRow V
  row_of s t = record {
    state_id = s.id;
    project_id = s.project_id;
    event_type_id = s.event_type_id;
    event_type_project_id = t.project_id;
    event_type_code = t.code;
    metric_code = s.metric_code;
    labels_hash = s.labels_hash;
    labels_json = object (document_of s.labels_json);
    value = s.value;
  }

  -- the inner join by the id of the event type
  unfoldable pub join_event_types :
      List (MetricState V) → List EventType → List (PrometheusMetricStateRow V)
  unfolding document_of
  join_event_types [] types = []
  join_event_types (s ∷ ss) types =
      elim (find_row (λ (t : EventType). t.id) s.event_type_id types) [
        | none ↦ join_event_types ss types
        | some t ↦ row_of s t ∷ join_event_types ss types
      ]

  -- `ORDER BY metric_code, event type's code, labels_hash, id`
  unfoldable pub row_before : PrometheusMetricStateRow V → PrometheusMetricStateRow V → Bool
  unfolding text_then
  row_before x y = text_then x.metric_code y.metric_code (
      text_then x.event_type_code y.event_type_code
        (text_then x.labels_hash y.labels_hash (leb x.state_id y.state_id)))

  unfoldable pub find_prometheus_rows_by_project :
      ℕ → List (MetricState V) → List EventType → List (PrometheusMetricStateRow V)
  unfolding join_event_types row_before
  find_prometheus_rows_by_project project_id states types =
      order_by row_before (join_event_types (select (λ s. s.project_id == project_id) states) types)

  -- the loop over the rows
  unfoldable pub samples_of :
      ℕ
      → Project
      → List (PrometheusMetricStateRow V)
      → Result RenderProjectError (List (PrometheusMetricStateSample V))
  samples_of project_id project [] = ok []
  samples_of project_id project (r ∷ rs) =
      raise_if (not (r.project_id == project_id)) unexpected_project
      >> raise_if (not (r.event_type_project_id == project_id)) foreign_event_type
      >> (samples_of project_id project rs >>= λ samples. ok (
          record {
            metric_code = r.metric_code;
            value = r.value;
            business_labels = r.labels_json;
            project_name = project.name;
            event_type_code = r.event_type_code;
          }
          ∷ samples))

  unfoldable pub render_project :
      Floats V
      → Formats V
      → ℕ
      → List Project
      → List (MetricState V)
      → List EventType
      → Result RenderProjectError String
  unfolding samples_of rendered
  render_project fl formats project_id projects states types = do
    project ← or_raise (find_row (λ (p : Project). p.id) project_id projects) project_not_found
    samples ←
        samples_of project_id project (find_prometheus_rows_by_project project_id states types)
    rendered (render_prometheus_metric_states fl formats samples)
