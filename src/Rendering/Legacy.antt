-- ===== src/Rendering/Legacy.antt =====
-- `render_prometheus` of app/metrics_engine/prometheus_renderer.py, for the `MetricSample` of
-- app/metrics_engine/extractor.py. The text of a value is a parameter.
use outbox_service.Prelude.{List, [], ◌∷◌, ◌++◌, String, if◌then◌else◌, str_eq, any_of, order_by}
use Prim.Native.String.{◌++◌ as concat}
use outbox_service.Rendering.Labels.{LabelItem, by_name}
use outbox_service.Rendering.Render.{render_labels, join_lines}

-- the labels are the items of a dictionary
pub record MetricSample (V : Type 0) : Type 0 where
  pub name : String
  pub type : String
  pub help : String
  pub value : V
  pub labels : List LabelItem

module _ {V : Type 0} (value_text : V → String) where
  unfoldable pub sample_line : MetricSample V → List LabelItem → String
  sample_line x [] = concat x.name (concat " " (value_text x.value))
  sample_line x (l ∷ ls) =
      concat x.name
        (concat "{" (concat (render_labels (l ∷ ls)) (concat "} " (value_text x.value))))

  unfoldable pub header_lines : MetricSample V → List String
  header_lines x =
      concat "# HELP " (concat x.name (concat " " x.help))
      ∷ concat "# TYPE " (concat x.name (concat " " x.type))
      ∷ []

  -- the loop, with `emitted_headers`
  unfoldable pub sample_lines : List String → List (MetricSample V) → List String
  unfolding sample_line header_lines
  sample_lines emitted [] = []
  sample_lines emitted (x ∷ xs) =
      let line = sample_line x (order_by by_name x.labels) in
      let known = any_of (str_eq x.name) emitted in
      let rest = sample_lines (if known then emitted else x.name ∷ emitted) xs in
      if known then line ∷ rest else header_lines x ++ line ∷ rest

  unfoldable pub render_prometheus : List (MetricSample V) → String
  unfolding sample_lines
  render_prometheus samples = join_lines (sample_lines [] samples)
