-- ===== src/Cardinality/Bounds.antt =====
-- What an estimate without errors is: the product of the labels' cardinalities, within the limit.
use outbox_service.Prelude.{
  ℕ, ◌+◌, ◌*◌, ◌/◌, ◌≤◌, ◌≡◌, refl, sym, ◌∙◌, ap, subst, true, ◌||◌, Option, none, some, List, [],
  ◌∷◌, ◌++◌, String, inl, inr, arith, All, All-append, Bool-cases, Result-cases, leb, ltb, if_both,
  not, any_of, str_eq,
}
use native.Mathlib.Nat.{mul_assoc, le-div_iff_mul-le}
use outbox_service.Json.{Json}
use outbox_service.Cardinality.Model.{
  CardinalityDiagnostic, LabelBreakdown, MetricCardinalityBreakdown, AnalyzedBuilderField,
}
use outbox_service.Cardinality.Names.{is_business_label_name}
use outbox_service.Cardinality.Estimate.{
  LabelState, fail, safe_multiply, safe_add, label_identity, bounded_field, count_label,
  analyze_named, analyze_label, analyze_labels, labels_of, analyze_identified,
}

pub append-nil {ℓ} : {A : Type ℓ} (xs ys : List A) → xs ++ ys ≡ [] → (xs ≡ []) × (ys ≡ [])
append-nil [] ys h = (refl, h)
append-nil (x ∷ xs) ys h = cc

pub snoc-ne {ℓ} : {A : Type ℓ} (xs : List A) (x : A) → xs ++ x ∷ [] ≡ [] → ⊥
snoc-ne xs x h = let bad = (append-nil xs (x ∷ []) h).1 in cc

abbrev weight : Option ℕ → ℕ
weight none = 0
weight (some n) = n

-- the number of the combinations of the labels' values
unfoldable pub combinations : List LabelBreakdown → ℕ
combinations [] = 1
combinations (b ∷ bs) = weight b.cardinality * combinations bs

abbrev pub IsKnown : LabelBreakdown → Type 0
IsKnown b = (n : ℕ) × (b.cardinality ≡ some n)

combinations-snoc :
    (bs : List LabelBreakdown) (b : LabelBreakdown)
    → combinations (bs ++ b ∷ []) ≡ combinations bs * weight b.cardinality
unfolding combinations
combinations-snoc [] b = omega arith
combinations-snoc (x ∷ bs) b =
    ap (λ n. weight x.cardinality * n) (combinations-snoc bs b)
    ∙ sym (mul_assoc (weight x.cardinality) (combinations bs) (weight b.cardinality))

safe_multiply-exact :
    (limit l r : ℕ)
    → (safe_multiply limit l r).1 ≡ []
    → ((safe_multiply limit l r).0 ≡ l * r) × (l * r ≤ limit)
unfolding safe_multiply
safe_multiply-exact limit l r h = elim (Bool-cases (leb r 0 || ltb (limit / r) l)) [
  | inl over ↦ absurd (refused over)
  | inr fits ↦ simp (fits) (refl, (le-div_iff_mul-le (ground arith)).0 (ground arith))
]
  where
    refused : (leb r 0 || ltb (limit / r) l) ≡ true → ⊥
    refused over = let none_left = rw over at h in cc

pub safe_add-exact :
    (limit l r : ℕ)
    → (safe_add limit l r).1 ≡ []
    → ((safe_add limit l r).0 ≡ l + r) × (l + r ≤ limit)
unfolding safe_add
safe_add-exact limit l r h = ground arith

-- without errors: the contribution so far
abbrev IsCounted : ℕ → LabelState → Type 0
IsCounted limit st =
    st.errors ≡ []
    → (st.contribution ≡ combinations st.label_breakdown)
      × (st.contribution ≤ limit)
      × All IsKnown st.label_breakdown

fail-IsCounted :
    (limit : ℕ) (d : CardinalityDiagnostic) (st : LabelState) → IsCounted limit (fail d st)
fail-IsCounted limit d st h = absurd (snoc-ne st.errors d h)

count_label-IsCounted :
    (limit : ℕ) (name path : String) (f : Option (AnalyzedBuilderField × ℕ)) (st : LabelState)
    → IsCounted limit st
    → IsCounted limit (count_label limit name path f st)
unfolding count_label
count_label-IsCounted limit name path none st before h = absurd (snoc-ne st.errors _ h)
count_label-IsCounted limit name path (some (f, n)) st before h =
    let (clean, fits) = append-nil st.errors (safe_multiply limit st.contribution n).1 h in
    let (so_far, below, known) = before clean in
    let (product, bounded) = safe_multiply-exact limit st.contribution n fits in
    (
      product ∙ ap (λ k. k * n) so_far ∙ sym (combinations-snoc st.label_breakdown _),
      subst (λ k. k ≤ limit) (sym product) bounded,
      All-append IsKnown st.label_breakdown _ known ((n, refl), tt),
    )

analyze_label-IsCounted :
    (limit : ℕ) (fields : List AnalyzedBuilderField) (code : String) (label : Json)
    (st : LabelState)
    → IsCounted limit st
    → IsCounted limit (analyze_label limit fields code label st)
unfolding analyze_label analyze_named
analyze_label-IsCounted limit fields code label st before =
    elim (Result-cases (label_identity code label)) [
      | inl ((name, path), e) ↦
          rw (e, analyze_label)
            (if_both (IsCounted limit) (not (is_business_label_name name))
              (fail-IsCounted limit _ st)
              (if_both (IsCounted limit) (any_of (str_eq name) st.seen_labels)
                (fail-IsCounted limit _ st)
                (count_label-IsCounted limit name path (bounded_field path fields) st before)))
      | inr (d, e) ↦ rw (e, analyze_label) (fail-IsCounted limit d st)
    ]

analyze_labels-IsCounted :
    (limit : ℕ) (fields : List AnalyzedBuilderField) (code : String) (labels : List Json)
    (st : LabelState)
    → IsCounted limit st
    → IsCounted limit (analyze_labels limit fields code labels st)
unfolding analyze_labels
analyze_labels-IsCounted limit fields code [] st before = before
analyze_labels-IsCounted limit fields code (l ∷ ls) st before =
    analyze_labels-IsCounted limit fields code ls _
      (analyze_label-IsCounted limit fields code l st before)

-- an accepted metric: its contribution is the number of combinations, within the limit
abbrev pub IsBounded : ℕ → MetricCardinalityBreakdown → Type 0
IsBounded limit b =
    (b.accepted ≡ true)
    × (b.contribution ≡ some (combinations b.labels))
    × (combinations b.labels ≤ limit)
    × All IsKnown b.labels

pub analyze_identified-IsBounded :
    (limit : ℕ) (fields : List AnalyzedBuilderField) (schema_id : Option ℕ) (labels : Option Json)
    (code transform : String)
    → 1 ≤ limit
    → let (item, errors) = analyze_identified limit fields schema_id labels code transform in
      errors ≡ [] → IsBounded limit item
unfolding analyze_identified
analyze_identified-IsBounded limit fields schema_id labels code transform positive h =
    let (given, raised) = labels_of code labels in
    let no_labels : 1 ≡ combinations [] = unfold combinations in refl in
    let (exact, below, known) =
      analyze_labels-IsCounted limit fields code given _ (λ _. (no_labels, positive, tt)) h in
    rw h (refl, ap (λ n. some n) exact, subst (λ k. k ≤ limit) exact below, known)
