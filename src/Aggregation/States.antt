-- ===== src/Aggregation/States.antt =====
-- What the upserts of a batch's deltas add to the stored states.
use native.Mathlib.Nat.{add-zero, zero-add}
use outbox_service.Prelude.{
  ℕ, suc, ◌+◌, ◌≤◌, ◌≡◌, refl, sym, subst, Bool, true, false, Option, none, some, List, [], ◌∷◌,
  ◌++◌, if◌then◌else◌, arith, inl, inr, Bool-cases, Option-cases, All, Yields, ap, ◌∙◌,
  find_by-append, find_by-put_by, find_by-key,
}
use outbox_service.Aggregation.Values.{Floats, Counts, IsCount, IsExact}
use outbox_service.Aggregation.Model.{
  MetricStateDelta, MetricState, Tables, Series, same_series, series_of_state, series_of_delta,
  same_series-eq, same_series_refl,
}
use outbox_service.Aggregation.Repository.{
  find_series, put_series, new_state, changed_state, upsert_delta, merge_delta,
}
use outbox_service.Aggregation.Service.{upsert_deltas}
use outbox_service.Aggregation.Groups.{given, delta_total}

-- the upserts leave the log and the checkpoints as they are
abbrev pub SameLog : {V : Type 0} → Tables V → Tables V → Type 0
SameLog db db' =
    (db'.observations ≡ db.observations)
    × (db'.checkpoints ≡ db.checkpoints)
    × (db'.next_observation_id ≡ db.next_observation_id)

module _ {V : Type 0} {fl : Floats V} (c : Counts fl) where
  abbrev stored_of : Option (MetricState V) → V
  stored_of none = fl.zero_value
  stored_of (some s) = s.value

  -- the value of a series, 0 if there is none
  unfoldable pub stored_value : Series → List (MetricState V) → V
  stored_value k ss = stored_of (find_series k ss)

  -- the states hold the counts `n`
  abbrev pub Represents : (Series → ℕ) → List (MetricState V) → Type 0
  Represents n ss = (k : Series) → stored_value k ss ≡ c.of_count (n k)

  stored_of-if :
      (b : Bool) (s : MetricState V) (o : Option (MetricState V))
      → stored_of (if b then some s else o) ≡ (if b then s.value else stored_of o)
  stored_of-if true s o = refl
  stored_of-if false s o = refl

  module _ (exact : IsExact c) where
    abbrev Upserted : (Series → ℕ) → MetricStateDelta V → Tables V → Tables V → Type 0
    Upserted n d db db' =
        Represents (λ k. n k + given c k (series_of_delta d) (c.count_of d.value)) db'.states
        × SameLog db db'

    merged :
        (n : Series → ℕ) (d : MetricStateDelta V) (ss ss' : List (MetricState V))
        (s : MetricState V)
        → Represents n ss
        → series_of_state s ≡ series_of_delta d
        → s.value ≡ c.of_count (n (series_of_delta d) + c.count_of d.value)
        → ((k : Series)
            → find_series k ss'
              ≡ (if same_series k (series_of_state s) then some s else find_series k ss))
        → Represents (λ k. n k + given c k (series_of_delta d) (c.count_of d.value)) ss'
    unfolding stored_value
    merged n d ss ss' s h same value found k =
        rw (found k, stored_of-if (same_series k (series_of_state s)) s (find_series k ss), same)
          (elim (Bool-cases (same_series k (series_of_delta d))) [
            | inl hit ↦
                simp
                  (same_series-eq k (series_of_delta d) hit, same_series_refl (series_of_delta d))
                  value
            | inr miss ↦ simp (miss, add-zero) (h k)
          ])

    was_zero :
        (n : Series → ℕ) (k : Series) → n k ≤ c.bound → fl.zero_value ≡ c.of_count (n k) → n k ≡ 0
    was_zero n k small e =
        sym (exact.count_of-of_count (n k) small)
        ∙ ap c.count_of (sym e ∙ sym exact.of_count_zero)
        ∙ exact.count_of-of_count 0 (omega arith)

    upsert_delta-Upserted :
        (now : ℕ) (n : Series → ℕ) (d : MetricStateDelta V) (db : Tables V)
        → Represents n db.states
        → IsCount c d.value
        → n (series_of_delta d) + c.count_of d.value ≤ c.bound
        → Yields (Upserted n d db) (upsert_delta fl now d db)
    unfolding upsert_delta merge_delta find_series put_series stored_value
    upsert_delta-Upserted now n d db h count small =
        let k = series_of_delta d in
        elim (Option-cases (find_series k db.states)) [
          | inl absent ↦
              let s = new_state now db.next_state_id d in
              let stored : fl.zero_value ≡ c.of_count (n k) = simp absent at (h k) in
              let nought : n k ≡ 0 = was_zero n k (omega arith) stored in
              (
                record db { states = db.states ++ s ∷ []; next_state_id = suc db.next_state_id },
                simp absent refl,
                (
                  merged n d db.states (db.states ++ s ∷ []) s h refl
                      (simp (nought, zero-add) (sym count.1))
                      (λ j.
                        find_by-append same_series series_of_state same_series-eq same_series_refl j
                          s db.states absent),
                  (refl, refl, refl),
                ),
              )
          | inr (s, found) ↦
              let sum = c.of_count (n k + c.count_of d.value) in
              let s' = changed_state now sum d s in
              let held : s.value ≡ c.of_count (n k) = simp found at (h k) in
              let added : fl.db_plus s.value d.value ≡ some sum = rw held (
                subst (λ v. fl.db_plus (c.of_count (n k)) v ≡ some sum) count.1
                  (exact.db_plus-counts (n k) (c.count_of d.value) small)) in
              let same : k ≡ series_of_state s =
                find_by-key same_series series_of_state same_series-eq k s db.states found in
              (
                record db { states = put_series s' db.states },
                simp found (rw (added, merge_delta) refl),
                (
                  merged n d db.states (put_series s' db.states) s' h (sym same) refl (λ j.
                      find_by-put_by same_series series_of_state same_series-eq same_series_refl j
                        s' s db.states (subst (λ i. find_series i db.states ≡ some s) same found)),
                  (refl, refl, refl),
                ),
              )
        ]

    abbrev pub AllUpserted : (Series → ℕ) → List (MetricStateDelta V) → Tables V → Tables V → Type 0
    AllUpserted n ds db db' = Represents (λ k. n k + delta_total c k ds) db'.states × SameLog db db'

    -- The upserts of deltas that are counts all succeed, if each series stays within the bound.
    pub upsert_deltas-AllUpserted :
        (now : ℕ) (n : Series → ℕ) (ds : List (MetricStateDelta V)) (db : Tables V)
        → Represents n db.states
        → All (λ d. IsCount c d.value) ds
        → ((k : Series) → n k + delta_total c k ds ≤ c.bound)
        → Yields (AllUpserted n ds db) (upsert_deltas fl now ds db)
    unfolding upsert_deltas
    upsert_deltas-AllUpserted now n [] db h counts small =
        (db, refl, ((λ k. simp add-zero (h k)), (refl, refl, refl)))
    upsert_deltas-AllUpserted now n (d ∷ ds) db h counts small =
        let n' : Series → ℕ = λ k. n k + given c k (series_of_delta d) (c.count_of d.value) in
        let fits : n (series_of_delta d) + c.count_of d.value ≤ c.bound =
          omega (arith, rw (same_series_refl (series_of_delta d)) at (small (series_of_delta d))) in
        let (db1, e1, (h1, same1)) = upsert_delta-Upserted now n d db h counts.0 fits in
        let (db2, e2, (h2, same2)) =
          upsert_deltas-AllUpserted now n' ds db1 h1 counts.1 (λ k. omega (arith, small k)) in
        (
          db2,
          simp (e1, e2) refl,
          (
            (λ k. h2 k ∙ ap c.of_count (omega arith)),
            (same2.0 ∙ same1.0, same2.1 ∙ same1.1, same2.2 ∙ same1.2),
          ),
        )
