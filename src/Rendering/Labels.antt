-- ===== src/Rendering/Labels.antt =====
-- `normalize_business_labels` and `merge_prometheus_labels` of app/metrics_engine/prometheus_renderer.py.
-- The text of a number is Python's, a parameter.
use outbox_service.Prelude.{
  Bool, true, false, not, List, [], ◌∷◌, String, Result, ok, err, ◌>>=◌, ◌>>◌, raise_if,
  if◌then◌else◌, str_eq, is_empty, order_by,
}
use outbox_service.Json.{
  Json, null, true_value, false_value, number, text, object, Fields, end_fields, field,
}
use outbox_service.Cardinality.Names.{is_business_label_name}
use outbox_service.Aggregation.Labels.{
  RenderingError, not_an_object, bad_label_name, not_a_scalar, is_container, text_leb,
}

-- a label of the document
pub record LabelItem : Type 0 where
  pub name : String
  pub value : String

-- `raw_value is None or raw_value == ""`
unfoldable pub is_omitted : Json → Bool
is_omitted null = true
is_omitted (text s) = is_empty s
is_omitted _ = false

-- `labels[name] = value`
unfoldable pub set_label : String → String → List LabelItem → List LabelItem
set_label name value [] = record { name = name; value = value } ∷ []
set_label name value (x ∷ xs) =
    if str_eq name x.name then record x { value = value } ∷ xs else x ∷ set_label name value xs

abbrev pub by_name : LabelItem → LabelItem → Bool
by_name x y = text_leb x.name y.name

module _ (number_text : String → String) where
  -- `str(raw_value)` of a scalar
  unfoldable pub str_of : Json → String
  str_of true_value = "True"
  str_of false_value = "False"
  str_of (number n) = number_text n
  str_of (text s) = s
  str_of _ = ""

  -- the loop over the items
  unfoldable pub business_items : Fields → Result RenderingError (List LabelItem)
  unfolding str_of is_omitted
  business_items end_fields = ok []
  business_items (field name value fs) =
      let rest = business_items fs in
      raise_if (not (is_business_label_name name)) (bad_label_name name)
      >> (if is_omitted value
          then rest
          else raise_if (is_container value) (not_a_scalar name)
            >> (rest >>= λ items. ok (record { name = name; value = str_of value } ∷ items)))

  unfoldable pub normalize_business_labels : Json → Result RenderingError (List LabelItem)
  unfolding business_items
  normalize_business_labels null = ok []
  normalize_business_labels (object fs) = business_items fs >>= λ items. ok (order_by by_name items)
  normalize_business_labels _ = err not_an_object

  unfoldable pub merge_prometheus_labels :
      Json → String → String → Result RenderingError (List LabelItem)
  unfolding normalize_business_labels set_label
  merge_prometheus_labels business_labels project_name event_type_code =
      normalize_business_labels business_labels >>= λ labels. ok (
        order_by by_name (
          set_label "ob1_event_type" event_type_code (set_label "ob1_project" project_name labels)))
