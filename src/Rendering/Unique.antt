-- ===== src/Rendering/Unique.antt =====
-- The check for duplicate series in `render_prometheus_metric_states`.
use outbox_service.Prelude.{
  ◌≡◌, refl, Bool, true, false, List, [], ◌∷◌, String, ok, err, Result, raise_if, str_eq, eq_iff,
  ltb, length, arith, inl, inr, Bool-cases, All, All-both, any_of, OnOk, OnOk-bind, OnOk-eq, OnErr,
  OnErr-bind, OnErr-raise_if, OnErr-eq, order_by, order_by-All, insert_by, insert_by-All,
}
use outbox_service.Cardinality.Names.{normalize_prometheus_metric_name}
use outbox_service.Aggregation.Values.{
  Floats, CounterValueError, normalize_counter_increment, coalesce_counter_increments,
}
use outbox_service.Aggregation.Labels.{RenderingError, text_leb}
use outbox_service.Rendering.Labels.{LabelItem, merge_prometheus_labels}
use outbox_service.Rendering.Render.{
  PrometheusMetricStateSample, RenderError, family_collision, duplicate_series, Formats, Family,
  same_items, items_leb, labels_raised, value_raised, add_series, add_sample, collect,
  render_series, render_families, render_prometheus_metric_states,
}

abbrev pub is_duplicate : RenderError → Bool
is_duplicate duplicate_series = true
is_duplicate _ = false

abbrev IsOther : RenderError → Type 0
IsOther e = is_duplicate e ≡ false

labels_raised-IsOther : {A : Type 0} (r : Result RenderingError A) → OnErr IsOther (labels_raised r)
unfolding labels_raised
labels_raised-IsOther (ok a) = tt
labels_raised-IsOther (err e) = refl

value_raised-IsOther :
    {A : Type 0} (r : Result CounterValueError A) → OnErr IsOther (value_raised r)
unfolding value_raised
value_raised-IsOther (ok a) = tt
value_raised-IsOther (err e) = refl

same_items-flip : (a b : List LabelItem) → same_items a b ≡ false → same_items b a ≡ false
unfolding same_items
same_items-flip [] [] h = h
same_items-flip [] (y ∷ b) h = refl
same_items-flip (x ∷ a) [] h = refl
same_items-flip (x ∷ a) (y ∷ b) h = ground (
  arith,
  same_items-flip a b,
  eq_iff x.name y.name,
  eq_iff y.name x.name,
  eq_iff x.value y.value,
  eq_iff y.value x.value,
)

unseen_by :
    (a b : List LabelItem) (seen : List (List LabelItem))
    → same_items a b ≡ false
    → any_of (same_items b) seen ≡ false
    → any_of (same_items b) (a ∷ seen) ≡ false
unseen_by a b seen apart before = rw (same_items-flip a b apart) before

module _ {V : Type 0} where
  -- the series of a family have labels of their own
  abbrev AreDistinct : List (List LabelItem × List V) → Type 0
  AreDistinct [] = Unit
  AreDistinct (x ∷ xs) = All (λ y. same_items x.0 y.0 ≡ false) xs × AreDistinct xs

  add_series-All :
      (k items : List LabelItem) (v : V) (l : List (List LabelItem × List V))
      → same_items k items ≡ false
      → All (λ y. same_items k y.0 ≡ false) l
      → All (λ y. same_items k y.0 ≡ false) (add_series items v l)
  unfolding add_series
  add_series-All k items v [] new h = (new, tt)
  add_series-All k items v ((key, values) ∷ rest) new h = elim (Bool-cases (same_items items key)) [
    | inl hit ↦ simp hit h
    | inr miss ↦ simp miss (h.0, add_series-All k items v rest new h.1)
  ]

  add_series-AreDistinct :
      (items : List LabelItem) (v : V) (l : List (List LabelItem × List V))
      → AreDistinct l
      → AreDistinct (add_series items v l)
  unfolding add_series
  add_series-AreDistinct items v [] h = (tt, tt)
  add_series-AreDistinct items v ((key, values) ∷ rest) h =
      elim (Bool-cases (same_items items key)) [
        | inl hit ↦ simp hit h
        | inr miss ↦ simp miss (
          add_series-All key items v rest (same_items-flip items key miss) h.0,
          add_series-AreDistinct items v rest h.1,
        )
      ]

  abbrev HaveDistinct : List (Family V) → Type 0
  HaveDistinct fs = All (λ f. AreDistinct f.series) fs

  add_sample-HaveDistinct :
      (name code : String) (items : List LabelItem) (v : V) (fs : List (Family V))
      → HaveDistinct fs
      → HaveDistinct (add_sample name code items v fs)
  unfolding add_sample
  add_sample-HaveDistinct name code items v [] h = ((tt, tt), tt)
  add_sample-HaveDistinct name code items v (f ∷ fs) h =
      elim (Bool-cases (str_eq name f.metric_name)) [
        | inl hit ↦ simp hit (add_series-AreDistinct items v f.series h.0, h.1)
        | inr miss ↦ simp miss (h.0, add_sample-HaveDistinct name code items v fs h.1)
      ]

  module _ (le : List LabelItem × List V → List LabelItem × List V → Bool) where
    insert_by-AreDistinct :
        (x : List LabelItem × List V) (xs : List (List LabelItem × List V))
        → All (λ y. same_items x.0 y.0 ≡ false) xs
        → AreDistinct xs
        → AreDistinct (insert_by le x xs)
    insert_by-AreDistinct x [] new h = (tt, tt)
    insert_by-AreDistinct x (y ∷ ys) new h = elim (Bool-cases (le x y)) [
      | inl before ↦ rw before (new, h)
      | inr after ↦ rw after (
        insert_by-All le (λ z. same_items y.0 z.0 ≡ false) x ys (same_items-flip x.0 y.0 new.0) h.0,
        insert_by-AreDistinct x ys new.1 h.1,
      )
    ]

    order_by-AreDistinct :
        (xs : List (List LabelItem × List V)) → AreDistinct xs → AreDistinct (order_by le xs)
    order_by-AreDistinct [] h = tt
    order_by-AreDistinct (x ∷ xs) h =
        insert_by-AreDistinct x (order_by le xs)
          (order_by-All le (λ y. same_items x.0 y.0 ≡ false) xs h.0) (order_by-AreDistinct xs h.1)

  module _ (fl : Floats V) (formats : Formats V) where
    collect-HaveDistinct :
        (xs : List (PrometheusMetricStateSample V)) (fs : List (Family V))
        → HaveDistinct fs
        → OnOk HaveDistinct (collect fl formats xs fs)
    unfolding collect
    collect-HaveDistinct [] fs h = h
    collect-HaveDistinct (x ∷ xs) fs h =
        let name = normalize_prometheus_metric_name x.metric_code in
        OnOk-bind HaveDistinct (value_raised (normalize_counter_increment fl x.value)) _ (λ value _.
          OnOk-bind HaveDistinct
            (labels_raised (
              merge_prometheus_labels formats.number_text x.business_labels x.project_name
                x.event_type_code))
            _
            (λ items _.
              collect-HaveDistinct xs (add_sample name x.metric_code items value fs)
                (add_sample-HaveDistinct name x.metric_code items value fs h)))

    collect-IsOther :
        (xs : List (PrometheusMetricStateSample V)) (fs : List (Family V))
        → OnErr IsOther (collect fl formats xs fs)
    unfolding collect
    collect-IsOther [] fs = tt
    collect-IsOther (x ∷ xs) fs =
        let value = normalize_counter_increment fl x.value in
        let labels =
          merge_prometheus_labels formats.number_text x.business_labels x.project_name
            x.event_type_code in
        OnErr-bind IsOther (value_raised value) _ (value_raised-IsOther value) (λ v _.
          OnErr-bind IsOther (labels_raised labels) _ (labels_raised-IsOther labels)
            (λ items _. collect-IsOther xs _))

    render_series-IsOther :
        (name : String) (seen : List (List LabelItem)) (l : List (List LabelItem × List V))
        → All (λ y. any_of (same_items y.0) seen ≡ false) l
        → AreDistinct l
        → OnErr IsOther (render_series fl formats name seen l)
    unfolding render_series
    render_series-IsOther name seen [] new h = tt
    render_series-IsOther name seen ((items, values) ∷ rest) new h =
        let sum = coalesce_counter_increments fl values in
        let unseen =
          All-both {R = λ y. any_of (same_items y.0) (items ∷ seen) ≡ false}
            (λ y apart before. unseen_by items y.0 seen apart before) rest h.0 new.1 in
        rw new.0 (
          OnErr-bind IsOther (value_raised sum) _ (value_raised-IsOther sum) (λ value _.
            OnErr-bind IsOther (render_series fl formats name (items ∷ seen) rest) _
              (render_series-IsOther name (items ∷ seen) rest unseen h.1) (λ lines _. tt)))

    none_seen :
        (l : List (List LabelItem × List V)) → All (λ y. any_of (same_items y.0) [] ≡ false) l
    none_seen [] = tt
    none_seen (x ∷ l) = (refl, none_seen l)

    render_families-IsOther :
        (fs : List (Family V)) → HaveDistinct fs → OnErr IsOther (render_families fl formats fs)
    unfolding render_families
    render_families-IsOther [] h = tt
    render_families-IsOther (f ∷ fs) h =
        let le = λ (x y : List LabelItem × List V). items_leb x.0 y.0 in
        let series = order_by le f.series in
        OnErr-bind IsOther (render_series fl formats f.metric_name [] series) _
          (render_series-IsOther f.metric_name [] series (none_seen series)
            (order_by-AreDistinct le f.series h.0))
          (λ lines _.
            OnErr-bind IsOther (render_families fl formats fs) _ (render_families-IsOther fs h.1)
              (λ rest _. tt))

    -- The check for duplicate series never fires: whatever error the rendering raises, it is
    -- another one.
    pub render_prometheus_metric_states_coalesced :
        (xs : List (PrometheusMetricStateSample V)) (e : RenderError)
        → render_prometheus_metric_states fl formats xs ≡ err e
        → is_duplicate e ≡ false
    unfolding render_prometheus_metric_states
    render_prometheus_metric_states_coalesced [] e raised = cc
    render_prometheus_metric_states_coalesced (x ∷ xs) e raised =
        let families = collect fl formats (x ∷ xs) [] in
        let by_name = λ (f g : Family V). text_leb f.metric_name g.metric_name in
        OnErr-eq IsOther (render_prometheus_metric_states fl formats (x ∷ xs))
          (OnErr-bind IsOther families _ (collect-IsOther (x ∷ xs) []) (λ fs collected.
            let distinct =
              OnOk-eq HaveDistinct families (collect-HaveDistinct (x ∷ xs) [] tt) collected in
            let collides = any_of (λ (f : Family V). ltb 1 (length f.metric_codes)) fs in
            OnErr-bind IsOther (raise_if collides family_collision) _
              (OnErr-raise_if IsOther collides family_collision refl)
              (λ _ _.
                OnErr-bind IsOther (render_families fl formats (order_by by_name fs)) _
                  (render_families-IsOther (order_by by_name fs)
                    (order_by-All by_name (λ f. AreDistinct f.series) fs distinct))
                  (λ lines _. tt))))
          raised
