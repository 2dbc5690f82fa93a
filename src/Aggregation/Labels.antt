-- ===== src/Aggregation/Labels.antt =====
-- `normalize_observation_business_labels` of app/metrics_engine/prometheus_renderer.py: a document of
-- dimensions becomes labels in the order of their names. A JSON null is Python's `None`.
use outbox_service.Prelude.{
  Bool, true, false, List, [], ◌∷◌, String, Result, ok, err, ◌>>=◌, ◌>>◌, raise_if, not, order_by,
}
use Prim.Native.Nat.{Ordering}
use Prim.Native.String.{compare}
use outbox_service.Json.{Json, null, array, object, Fields, end_fields, field}
use outbox_service.Cardinality.Names.{is_business_label_name}

-- a label with its JSON value
pub record Label : Type 0 where
  pub name : String
  pub value : Json

pub data RenderingError : Type 0 where
  not_an_object : RenderingError
  bad_label_name not_a_scalar : String → RenderingError

-- the order of texts by code points
unfoldable pub text_leb : String → String → Bool
text_leb s t = elim (compare s t) [ Ordering.gt ↦ false | _ ↦ true ]

-- `isinstance(value, (dict, list))`
unfoldable pub is_container : Json → Bool
is_container (array js) = true
is_container (object fs) = true
is_container _ = false

-- the items of the document, each one tested
unfoldable pub checked_labels : Fields → Result RenderingError (List Label)
checked_labels end_fields = ok []
checked_labels (field name value fs) =
    raise_if (not (is_business_label_name name)) (bad_label_name name)
    >> raise_if (is_container value) (not_a_scalar name)
    >> (checked_labels fs >>= λ labels. ok (record { name = name; value = value } ∷ labels))

unfoldable pub normalize_observation_business_labels : Json → Result RenderingError (List Label)
unfolding checked_labels text_leb
normalize_observation_business_labels null = ok []
normalize_observation_business_labels (object fs) =
    checked_labels fs >>= λ labels. ok (order_by (λ x y. text_leb x.name y.name) labels)
normalize_observation_business_labels _ = err not_an_object
