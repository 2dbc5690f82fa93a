-- ===== src/Metrics/Extractor/Matches.antt =====
-- What the paths of a definition find in an event.
use outbox_service.Prelude.{
  ℕ, Option, some, List, [], ◌∷◌, String, Result, ok, err, ◌>>=◌, or_raise, if◌then◌else◌,
}
use outbox_service.Json.{Json, text, Fields, get}
use outbox_service.Metrics.Extractor.Definitions.{
  ExtractionFailure, is_text, is_nullable, Definition, fields_of, LabelValues, put_label,
  label_name_of, label_path_of, is_optional_label, label_matches, constant_match, present_values,
  incomplete_label, extraction, path_raised, at_index,
}

module _ (find : String → Json → Option (List Json)) (payload : Json) where
  -- `parse(path).find(payload)`
  unfoldable pub found : Json → Result ExtractionFailure (List Json)
  found (text path) = or_raise (find path payload) path_raised
  found _ = err path_raised

  unfoldable pub value_matches : ℕ → Definition → Result ExtractionFailure (Option (List Json))
  unfolding is_text constant_match found present_values
  value_matches limit d =
      if is_text "constant" d.transform
      then ok (some constant_match)
      else found d.path >>= present_values limit d

  unfoldable pub label_values : Json → Fields → Result ExtractionFailure LabelValues
  unfolding is_text label_path_of is_optional_label is_nullable label_matches
  label_values kind fs =
      if is_text "index" kind
      then ok at_index
      else label_path_of (get "path" fs) >>= λ path.
          or_raise (find path payload) path_raised
          >>= label_matches (is_optional_label (get "required" fs))
              (is_nullable (get "nullable" fs))

  -- `_extract_compiled_label_matches_by_name`
  unfoldable pub extract_labels :
      List Json
      → List (String × LabelValues)
      → Result ExtractionFailure (List (String × LabelValues))
  unfolding fields_of get label_name_of label_values put_label
  extract_labels [] labels = ok labels
  extract_labels (j ∷ js) labels = fields_of j (extraction incomplete_label) >>= λ fs.
      or_raise (get "name" fs) (extraction incomplete_label) >>= λ name.
      or_raise (get "kind" fs) (extraction incomplete_label) >>= λ kind.
      label_name_of name >>= λ key.
      label_values kind fs >>= λ values. extract_labels js (put_label key values labels)
