-- ===== src/Cardinality/Unambiguous.antt =====
-- No two metric codes share a Prometheus name where the check of the names finds no collision.
use outbox_service.Prelude.{
  ◌≡◌, refl, sym, ap, subst, true, some, List, [], ◌∷◌, String, inl, inr, All, Bool-cases, str_eq,
  eq_iff,
}
use outbox_service.Cardinality.Model.{MetricCardinalityBreakdown}
use outbox_service.Cardinality.Estimate.{code_of, check_name, note_name, check_names}
use outbox_service.Cardinality.Bounds.{append-nil}

-- Metrics with one Prometheus name have one code.
abbrev pub IsUnambiguous : List MetricCardinalityBreakdown → Type 0
IsUnambiguous [] = Unit
IsUnambiguous (b ∷ bs) =
    All (λ c. c.prometheus_metric_name ≡ b.prometheus_metric_name → c.metric_code ≡ b.metric_code)
      bs
    × IsUnambiguous bs

check_name-agrees :
    (names : List (String × String)) (b : MetricCardinalityBreakdown) (code : String)
    → check_name names b ≡ []
    → code_of b.prometheus_metric_name names ≡ some code
    → b.metric_code ≡ code
unfolding check_name
check_name-agrees names b code h e = elim (Bool-cases (str_eq code b.metric_code)) [
  | inl same ↦ sym ((eq_iff code b.metric_code).0 same)
  | inr other ↦ let clash = rw (e, other) at h in cc
]

code_of-note :
    (names : List (String × String)) (b : MetricCardinalityBreakdown) (name code : String)
    → check_name names b ≡ []
    → code_of name names ≡ some code
    → code_of name (note_name b names) ≡ some code
unfolding code_of
code_of-note names b name code clean e = elim (Bool-cases (str_eq b.prometheus_metric_name name)) [
  | inl hit ↦
      let same = (eq_iff b.prometheus_metric_name name).0 hit in
      rw hit (
        ap (λ c. some c)
          (check_name-agrees names b code clean
            (subst (λ n. code_of n names ≡ some code) (sym same) e)))
  | inr miss ↦ rw miss e
]

known_code :
    (names : List (String × String)) (bs : List MetricCardinalityBreakdown) (name code : String)
    → check_names names bs ≡ []
    → code_of name names ≡ some code
    → All (λ c. c.prometheus_metric_name ≡ name → c.metric_code ≡ code) bs
unfolding check_names
known_code names [] name code h e = tt
known_code names (b ∷ bs) name code h e =
    let (clean, rest) = append-nil (check_name names b) (check_names (note_name b names) bs) h in
    (
      (λ same.
          check_name-agrees names b code clean
            (subst (λ n. code_of n names ≡ some code) (sym same) e)),
      known_code (note_name b names) bs name code rest (code_of-note names b name code clean e),
    )

pub check_names-IsUnambiguous :
    (names : List (String × String)) (bs : List MetricCardinalityBreakdown)
    → check_names names bs ≡ []
    → IsUnambiguous bs
unfolding check_names code_of
check_names-IsUnambiguous names [] h = tt
check_names-IsUnambiguous names (b ∷ bs) h =
    let (clean, rest) = append-nil (check_name names b) (check_names (note_name b names) bs) h in
    let name = b.prometheus_metric_name in
    let itself : str_eq name name ≡ true = (eq_iff name name).1 refl in
    (
      known_code (note_name b names) bs name b.metric_code rest (rw itself refl),
      check_names-IsUnambiguous (note_name b names) bs rest,
    )
