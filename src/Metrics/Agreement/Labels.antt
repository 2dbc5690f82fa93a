-- ===== src/Metrics/Agreement/Labels.antt =====
-- The labels that are read for a document are read for its compiled plan.
use outbox_service.Prelude.{
  ◌≡◌, refl, ap, ◌∙◌, true, false, not, ◌&&◌, Option, some, List, [], ◌∷◌, String, ok, any_of,
  is_empty, All, OnOk, OnOk-mono, arith, inl, inr, Option-cases,
}
use outbox_service.Json.{Json, items_of}
use outbox_service.Metrics.Schema.{ResolvedPath}
use outbox_service.Metrics.Yaml.{LabelPath, index, along}
use outbox_service.Metrics.Compiler.{bool_json, compile_label, label_items}
use outbox_service.Metrics.Extractor.{
  LabelValues, is_null, is_true, at_index, matches, put_label, label_matches, label_path_of,
  label_values, extract_labels, required_label, validated_label, validated_labels,
}
use outbox_service.Metrics.Safety.Labels.{HasPath, finds_allowed}
use outbox_service.Metrics.Safety.Matches.{is_true-bool_json}

module _ (find : String → Json → Option (List Json)) (payload : Json) where
  abbrev pub Reads :
      List (String × LabelPath) → List (String × LabelValues) → List (String × LabelValues) → Type 0
  Reads ls labels done = extract_labels find payload (items_of (label_items ls)) labels ≡ ok done

  extract_labels-along :
      (name : String) (r : ResolvedPath) (ls : List (String × LabelPath))
      (labels : List (String × LabelValues)) (m : Json) (ms : List Json)
      → is_empty r.path ≡ false
      → find r.path payload ≡ some (m ∷ ms)
      → not (any_of is_null (m ∷ ms) && not r.nullable) ≡ true
      → extract_labels find payload (items_of (label_items ((name, along r) ∷ ls))) labels
        ≡ extract_labels find payload
            (items_of (label_items ls))
            (put_label name (matches (m ∷ ms)) labels)
  unfolding extract_labels label_items compile_label label_values items_of label_matches
      label_path_of
  extract_labels-along name r ls labels m ms path finds allowed =
      let checked : (any_of is_null (m ∷ ms) && not (is_true (bool_json r.nullable))) ≡ false =
        ap (λ b. any_of is_null (m ∷ ms) && not b) (is_true-bool_json r.nullable)
        ∙ ground (arith, allowed) in
      rw (path, finds, checked) refl

  label_lem :
      (name : String) (r : ResolvedPath) (ls : List (String × LabelPath))
      (labels : List (String × LabelValues)) (ms : List Json)
      → is_empty r.path ≡ false
      → find r.path payload ≡ some ms
      → not (any_of is_null ms && not r.nullable) ≡ true
      → ((values : LabelValues)
          → OnOk
              (Reads ls (put_label name values labels))
              (validated_labels find payload ls (put_label name values labels)))
      → OnOk
          (Reads ((name, along r) ∷ ls) labels)
          (validated_labels find payload ((name, along r) ∷ ls) labels)
  unfolding validated_labels validated_label required_label
  label_lem name r ls labels [] path finds allowed rest = rw finds tt
  label_lem name r ls labels (m ∷ ms) path finds allowed rest =
      let values = matches (m ∷ ms) in
      rw finds (
        OnOk-mono (Reads ls (put_label name values labels)) (Reads ((name, along r) ∷ ls) labels)
          (validated_labels find payload ls (put_label name values labels))
          (λ done reads. extract_labels-along name r ls labels m ms path finds allowed ∙ reads)
          (rest values))

  pub validated_labels-Reads :
      (ls : List (String × LabelPath)) (labels : List (String × LabelValues))
      → All HasPath ls
      → All (λ l. finds_allowed find payload l ≡ true) ls
      → OnOk (Reads ls labels) (validated_labels find payload ls labels)
  unfolding validated_labels validated_label extract_labels label_items compile_label label_values
      items_of
  validated_labels-Reads [] labels paths allowed = refl
  validated_labels-Reads ((name, index) ∷ ls) labels paths allowed =
      validated_labels-Reads ls (put_label name at_index labels) paths.1 allowed.1
  validated_labels-Reads ((name, along r) ∷ ls) labels (path, paths) (here, allowed) =
      elim (Option-cases (find r.path payload)) [
        | inl refused ↦ rw refused tt
        | inr (ms, finds) ↦
            label_lem name r ls labels ms path finds (rw finds at here)
              (λ values. validated_labels-Reads ls (put_label name values labels) paths allowed)
      ]
