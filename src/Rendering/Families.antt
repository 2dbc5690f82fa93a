-- ===== src/Rendering/Families.antt =====
-- The families of a document that is rendered.
use outbox_service.Prelude.{
  ◌≡◌, sym, subst, true, false, List, [], ◌∷◌, ◌++◌, String, ok, raise_if, raise_if_ok,
  if◌then◌else◌, str_eq, eq_iff, ltb, arith, inl, inr, Bool-cases, All, All-map, length, any_of,
  OnOk, OnOk-bind, OnOk-eq, OnOk-intro, OnOk-mono,
}
use outbox_service.Cardinality.Names.{normalize_prometheus_metric_name}
use outbox_service.Chains.Builder.{add_code}
use outbox_service.Aggregation.Values.{Floats, normalize_counter_increment}
use outbox_service.Rendering.Labels.{LabelItem, merge_prometheus_labels}
use outbox_service.Rendering.Render.{
  PrometheusMetricStateSample, family_collision, Formats, Family, labels_raised, value_raised,
  add_sample, collect, render_prometheus_metric_states,
}

added_code :
    (code : String) (codes : List String) → any_of (str_eq code) (add_code code codes) ≡ true
unfolding add_code
added_code code codes = elim (Bool-cases (any_of (str_eq code) codes)) [
  | inl there ↦ rw there there
  | inr new ↦ rw new (at_end codes)
]
  where
    at_end : (l : List String) → any_of (str_eq code) (l ++ code ∷ []) ≡ true
    at_end [] = ground (arith, eq_iff code code)
    at_end (c ∷ l) = ground (arith, at_end l)

kept_code :
    (c code : String) (codes : List String)
    → any_of (str_eq c) codes ≡ true
    → any_of (str_eq c) (add_code code codes) ≡ true
unfolding add_code
kept_code c code codes h = elim (Bool-cases (any_of (str_eq code) codes)) [
  | inl there ↦ rw there h
  | inr new ↦ rw new (before codes h)
]
  where
    before :
        (l : List String) → any_of (str_eq c) l ≡ true → any_of (str_eq c) (l ++ code ∷ []) ≡ true
    before [] h = cc
    before (d ∷ l) h = ground (arith, before l)

-- two codes of a list with one code
same_code :
    (c d : String) (codes : List String)
    → ltb 1 (length codes) ≡ false
    → any_of (str_eq c) codes ≡ true
    → any_of (str_eq d) codes ≡ true
    → c ≡ d
same_code c d [] small hc hd = cc
same_code c d (x ∷ []) small hc hd = ground (arith, eq_iff c x, eq_iff d x)
same_code c d (x ∷ y ∷ l) small hc hd = absurd (ground (arith, small))

module _ {V : Type 0} where
  -- the codes under a name
  abbrev codes_at : String → List (Family V) → List String
  codes_at name [] = []
  codes_at name (f ∷ fs) = if str_eq name f.metric_name then f.metric_codes else codes_at name fs

  -- the code of the sample is under its name
  abbrev IsCovered : List (Family V) → PrometheusMetricStateSample V → Type 0
  IsCovered fs x =
      any_of (str_eq x.metric_code) (codes_at (normalize_prometheus_metric_name x.metric_code) fs)
      ≡ true

  -- codes with the same Prometheus name are the same
  abbrev pub AreUnambiguous : List (PrometheusMetricStateSample V) → Type 0
  AreUnambiguous xs =
      All
        (λ x.
          All
            (λ y.
              normalize_prometheus_metric_name x.metric_code
                ≡ normalize_prometheus_metric_name y.metric_code
              → x.metric_code ≡ y.metric_code)
            xs)
        xs

  add_sample-covers :
      (name code : String) (items : List LabelItem) (v : V) (fs : List (Family V))
      → any_of (str_eq code) (codes_at name (add_sample name code items v fs)) ≡ true
  unfolding add_sample
  add_sample-covers name code items v [] = ground (arith, eq_iff name name, eq_iff code code)
  add_sample-covers name code items v (f ∷ fs) = elim (Bool-cases (str_eq name f.metric_name)) [
    | inl hit ↦ simp hit (added_code code f.metric_codes)
    | inr miss ↦ simp miss (add_sample-covers name code items v fs)
  ]

  add_sample-keeps :
      (name code n c : String) (items : List LabelItem) (v : V) (fs : List (Family V))
      → any_of (str_eq c) (codes_at n fs) ≡ true
      → any_of (str_eq c) (codes_at n (add_sample name code items v fs)) ≡ true
  unfolding add_sample
  add_sample-keeps name code n c items v [] h = cc
  add_sample-keeps name code n c items v (f ∷ fs) h =
      elim (Bool-cases (str_eq name f.metric_name)) [
        | inl hit ↦ elim (Bool-cases (str_eq n f.metric_name)) [
          | inl here ↦ simp (hit, here) (kept_code c code f.metric_codes (rw here at h))
          | inr away ↦ simp (hit, away) (rw away at h)
        ]
        | inr miss ↦ elim (Bool-cases (str_eq n f.metric_name)) [
          | inl here ↦ simp (miss, here) (rw here at h)
          | inr away ↦ simp (miss, away) (add_sample-keeps name code n c items v fs (rw away at h))
        ]
      ]

  module _ (fl : Floats V) (formats : Formats V) where
    collect-covers :
        (xs done : List (PrometheusMetricStateSample V)) (fs : List (Family V))
        → All (IsCovered fs) done
        → OnOk (λ fs'. All (IsCovered fs') xs × All (IsCovered fs') done) (collect fl formats xs fs)
    unfolding collect
    collect-covers [] done fs h = (tt, h)
    collect-covers (x ∷ xs) done fs h =
        let name = normalize_prometheus_metric_name x.metric_code in
        let Q : List (Family V) → Type 0 =
          λ fs'. All (IsCovered fs') (x ∷ xs) × All (IsCovered fs') done in
        OnOk-bind Q (value_raised (normalize_counter_increment fl x.value)) _ (λ value _.
          OnOk-bind Q
            (labels_raised (
              merge_prometheus_labels formats.number_text x.business_labels x.project_name
                x.event_type_code))
            _
            (λ items _.
              let fs1 = add_sample name x.metric_code items value fs in
              let kept =
                All-map
                  (λ y h.
                    add_sample-keeps name x.metric_code
                      (normalize_prometheus_metric_name y.metric_code) y.metric_code items value fs
                      h)
                  done h in
              OnOk-mono
                (λ fs'. All (IsCovered fs') xs × (IsCovered fs' x × All (IsCovered fs') done)) Q
                (collect fl formats xs fs1) (λ fs' (rest, (this, before)). ((this, rest), before))
                (collect-covers xs (x ∷ done) fs1
                  (add_sample-covers name x.metric_code items value fs, kept))))

    small_at :
        (name : String) (fs : List (Family V))
        → any_of (λ f. ltb 1 (length f.metric_codes)) fs ≡ false
        → ltb 1 (length (codes_at name fs)) ≡ false
    small_at name [] h = ground arith
    small_at name (f ∷ fs) h = ground (arith, small_at name fs)

    unambiguous_of :
        (fs : List (Family V)) (xs : List (PrometheusMetricStateSample V))
        → any_of (λ f. ltb 1 (length f.metric_codes)) fs ≡ false
        → All (IsCovered fs) xs
        → AreUnambiguous xs
    unambiguous_of fs xs small covered =
        All-map
          (λ x hx.
            All-map
              (λ y hy e.
                let name = normalize_prometheus_metric_name x.metric_code in
                same_code x.metric_code y.metric_code (codes_at name fs) (small_at name fs small) hx
                  (subst (λ n. any_of (str_eq y.metric_code) (codes_at n fs) ≡ true) (sym e) hy))
              xs covered)
          xs covered

    -- In a document that is rendered no family has two sources: samples whose codes have the same
    -- Prometheus name have the same code.
    pub render_prometheus_metric_states_unambiguous :
        (xs : List (PrometheusMetricStateSample V)) (document : String)
        → render_prometheus_metric_states fl formats xs ≡ ok document
        → AreUnambiguous xs
    unfolding render_prometheus_metric_states
    render_prometheus_metric_states_unambiguous [] document returned = tt
    render_prometheus_metric_states_unambiguous (x ∷ xs) document returned =
        let P : String → Type 0 = λ d. AreUnambiguous (x ∷ xs) in
        let C : List (Family V) → Type 0 = λ fs. All (IsCovered fs) (x ∷ xs) × Unit {0} in
        OnOk-eq P (render_prometheus_metric_states fl formats (x ∷ xs))
          (OnOk-bind P (collect fl formats (x ∷ xs) []) _ (λ fs collected.
            let covered =
              OnOk-eq C (collect fl formats (x ∷ xs) []) (collect-covers (x ∷ xs) [] [] tt)
                collected in
            let collides = any_of (λ (f : Family V). ltb 1 (length f.metric_codes)) fs in
            OnOk-bind P (raise_if collides family_collision) _ (λ _ passed. OnOk-intro P _ (λ _ _.
              unambiguous_of fs (x ∷ xs) (raise_if_ok collides family_collision passed)
                covered.0))))
          returned
