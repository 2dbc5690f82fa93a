-- ===== src/Metrics/Safety/Labels.antt =====
-- The labels of a compiled plan fail only by the data of the event.
use outbox_service.Prelude.{
  ℕ, ◌≡◌, refl, Bool, true, false, not, ◌&&◌, Option, none, some, List, [], ◌∷◌, String, ok, ◌>>=◌,
  or_raise, any_of, get_elem?, is_empty, All, arith, inl, inr, Bool-cases, OnErr, OnErr-bind,
}
use outbox_service.Json.{Json, array, object, items_of}
use outbox_service.Metrics.Schema.{SchemaNode, ResolvedPath, resolve_path}
use outbox_service.Metrics.Yaml.{LabelPath, index, along}
use outbox_service.Metrics.Compiler.{bool_json, compile_label, label_items}
use outbox_service.Metrics.Extractor.{
  ExtractionFailure, extraction, path_raised, no_value_at_index, LabelValues, missing, at_index,
  matches, is_null, is_true, is_false, label_matches, label_values, put_label, extract_labels,
  to_dimension_value, dimension_at, build_dimensions,
}
use outbox_service.Metrics.Safety.Values.{IsOfData}

pub or_raise-IsOfData :
    {A : Type 0} (o : Option A) (e : ExtractionFailure) → IsOfData e → OnErr IsOfData (or_raise o e)
or_raise-IsOfData none e h = h
or_raise-IsOfData (some a) e h = tt

-- the path is a text that is not empty
abbrev pub HasPath : String × LabelPath → Type 0
HasPath (name, index) = Unit
HasPath (name, along r) = is_empty r.path ≡ false

-- the path is resolved, and stands for itself
abbrev pub IsLabelPath : SchemaNode → String × LabelPath → Type 0
IsLabelPath node (name, index) = Unit
IsLabelPath node (name, along r) = (resolve_path node r.path ≡ ok r) × (is_empty r.path ≡ false)

pub label_path-HasPath :
    (node : SchemaNode) (l : String × LabelPath) → IsLabelPath node l → HasPath l
label_path-HasPath node (name, index) h = tt
label_path-HasPath node (name, along r) h = h.1

-- no null is found, unless the path allows it
abbrev pub is_allowed : Bool → Option (List Json) → Bool
is_allowed nullable none = true
is_allowed nullable (some ms) = not (any_of is_null ms && not nullable)

abbrev pub finds_allowed : (String → Json → Option (List Json)) → Json → String × LabelPath → Bool
finds_allowed find payload (name, index) = true
finds_allowed find payload (name, along r) = is_allowed r.nullable (find r.path payload)

label_matches-IsOfData :
    (optional allows_null : Bool) (vs : List Json)
    → not (any_of is_null vs && not allows_null) ≡ true
    → OnErr IsOfData (label_matches optional allows_null vs)
unfolding label_matches
label_matches-IsOfData true allows_null [] h = tt
label_matches-IsOfData false allows_null [] h = refl
label_matches-IsOfData optional allows_null (v ∷ vs) h =
    let passed : (any_of is_null (v ∷ vs) && not allows_null) ≡ false = ground (arith, h) in
    rw passed tt

allowed_found :
    (r : ResolvedPath) (o : Option (List Json)) (vs : List Json)
    → is_allowed r.nullable o ≡ true
    → or_raise o path_raised ≡ ok vs
    → not (any_of is_null vs && not (is_true (bool_json r.nullable))) ≡ true
unfolding is_true bool_json
allowed_found r none vs h e = cc
allowed_found r (some ms) vs h e = elim (Bool-cases r.nullable) [
  | inl nullable ↦ rw nullable (ground arith)
  | inr strict ↦ let same : ms ≡ vs = cc in rw (strict, ← same) (rw strict at h)
]

module _ (find : String → Json → Option (List Json)) (payload : Json) where
  pub extract_labels-IsOfData :
      (ls : List (String × LabelPath)) (labels : List (String × LabelValues))
      → All HasPath ls
      → All (λ l. finds_allowed find payload l ≡ true) ls
      → OnErr IsOfData (extract_labels find payload (items_of (label_items ls)) labels)
  unfolding extract_labels label_items compile_label label_values items_of
  extract_labels-IsOfData [] labels h k = tt
  extract_labels-IsOfData ((name, index) ∷ ls) labels h k =
      extract_labels-IsOfData ls (put_label name at_index labels) h.1 k.1
  extract_labels-IsOfData ((name, along r) ∷ ls) labels h k =
      let optional = is_false (bool_json r.required) in
      let allows_null = is_true (bool_json r.nullable) in
      rw h.0 (
        OnErr-bind IsOfData
          (or_raise (find r.path payload) path_raised >>= label_matches optional allows_null) _
          (OnErr-bind IsOfData (or_raise (find r.path payload) path_raised)
            (label_matches optional allows_null)
            (or_raise-IsOfData (find r.path payload) path_raised refl)
            (λ vs found.
              label_matches-IsOfData optional allows_null vs
                (allowed_found r (find r.path payload) vs k.0 found)))
          (λ values _. extract_labels-IsOfData ls (put_label name values labels) h.1 k.1))

to_dimension_value-IsOfData : (j : Json) → OnErr IsOfData (to_dimension_value j)
unfolding to_dimension_value
to_dimension_value-IsOfData (array _) = refl
to_dimension_value-IsOfData (object _) = refl
to_dimension_value-IsOfData _ = tt

dimension_at-IsOfData : (i : ℕ) (values : LabelValues) → OnErr IsOfData (dimension_at i values)
unfolding dimension_at
dimension_at-IsOfData i missing = tt
dimension_at-IsOfData i at_index = tt
dimension_at-IsOfData i (matches values) =
    OnErr-bind IsOfData (or_raise (get_elem? values i) (extraction no_value_at_index))
      to_dimension_value
      (or_raise-IsOfData (get_elem? values i) (extraction no_value_at_index) refl)
      (λ j _. to_dimension_value-IsOfData j)

pub build_dimensions-IsOfData :
    (i : ℕ) (labels : List (String × LabelValues)) → OnErr IsOfData (build_dimensions i labels)
unfolding build_dimensions
build_dimensions-IsOfData i [] = tt
build_dimensions-IsOfData i ((name, values) ∷ labels) =
    OnErr-bind IsOfData (dimension_at i values) _ (dimension_at-IsOfData i values) (λ d _.
      OnErr-bind IsOfData (build_dimensions i labels) _ (build_dimensions-IsOfData i labels)
        (λ rest _. tt))
