-- ===== src/Rendering/Isolation.antt =====
-- What the aggregation of other projects means for a project's document.
use outbox_service.Prelude.{ℕ, ◌≡◌, refl, false, List, String, ok, OnOk-eq, ◌==◌}
use outbox_service.Projects.Model.{Project}
use outbox_service.Aggregation.Values.{Floats}
use outbox_service.Aggregation.Labels.{Label}
use outbox_service.Aggregation.Model.{MetricState, Tables}
use outbox_service.Aggregation.Service.{aggregate_stream}
use outbox_service.Aggregation.Tenants.{own, aggregate_stream_keeps}
use outbox_service.Rendering.Render.{Formats}
use outbox_service.Rendering.Service.{EventType, find_prometheus_rows_by_project, render_project}

module _ {V : Type 0} (fl : Floats V) (formats : Formats V) where
  -- the document is made of the project's own states
  render_project_same :
      (p : ℕ) (projects : List Project) (types : List EventType) (ss ss' : List (MetricState V))
      → own p ss' ≡ own p ss
      → render_project fl formats p projects ss' types
        ≡ render_project fl formats p projects ss types
  unfolding render_project find_prometheus_rows_by_project
  render_project_same p projects types ss ss' same = rw same refl

  -- The aggregation of a stream of another project leaves a project's document as it was, also if
  -- that document is an error.
  pub render_project_isolated :
      (hash : List Label → String) (p q e now limit count : ℕ) (projects : List Project)
      (types : List EventType) (db db' : Tables V)
      → (q == p) ≡ false
      → aggregate_stream fl hash now q e limit db ≡ ok (db', count)
      → render_project fl formats p projects db'.states types
        ≡ render_project fl formats p projects db.states types
  render_project_isolated hash p q e now limit count projects types db db' other returned =
      render_project_same p projects types db.states db'.states (
        OnOk-eq (λ r. own p r.0.states ≡ own p db.states)
          (aggregate_stream fl hash now q e limit db)
          (aggregate_stream_keeps p fl hash now q e limit db other) returned)
