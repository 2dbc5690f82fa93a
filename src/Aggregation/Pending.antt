-- ===== src/Aggregation/Pending.antt =====
-- What a batch takes from the log: the shares between the checkpoint and the batch's last id.
use outbox_service.Prelude.{
  ℕ, ◌+◌, ◌≤◌, ◌≡◌, refl, sym, subst, ap, ◌∙◌, Bool, true, false, ◌&&◌, List, [], ◌∷◌, ◌++◌, String,
  if◌then◌else◌, ◌==◌, ltb, leb, arith, inl, inr, Bool-cases, Result-cases, All, All-take, select,
  take, sum_of, sum_of-append, select-All, All-select, IsOrdered, insert_by, order_by, order_by-All,
  take-IsOrdered,
}
use outbox_service.Aggregation.Values.{Floats, Counts}
use outbox_service.Aggregation.Labels.{Label, normalize_observation_business_labels}
use outbox_service.Aggregation.Model.{AnalyticalObservation, Tables, Series, same_series}
use outbox_service.Aggregation.Repository.{find_observations_after, is_pending}
use outbox_service.Aggregation.Service.{last_id}
use outbox_service.Aggregation.Groups.{share}

module _ {V : Type 0} where
  -- strictly by id
  abbrev pub Ascends : List (AnalyticalObservation V) → Type 0
  Ascends = IsOrdered (λ x y. ltb x.id y.id)

  select-Ascends :
      (q : AnalyticalObservation V → Bool) (os : List (AnalyticalObservation V))
      → Ascends os
      → Ascends (select q os)
  select-Ascends q [] h = tt
  select-Ascends q (o ∷ os) h = elim (Bool-cases (q o)) [
    | inl keep ↦ rw keep (All-select (λ x. ltb o.id x.id ≡ true) q os h.0, select-Ascends q os h.1)
    | inr drop ↦ rw drop (select-Ascends q os h.1)
  ]

  insert_first :
      (o : AnalyticalObservation V) (os : List (AnalyticalObservation V))
      → All (λ x. ltb o.id x.id ≡ true) os
      → insert_by (λ x y. leb x.id y.id) o os ≡ o ∷ os
  insert_first o [] h = refl
  insert_first o (p ∷ os) h = ground (arith, h.0)

  pub order_by-Ascends :
      (os : List (AnalyticalObservation V)) → Ascends os → order_by (λ x y. leb x.id y.id) os ≡ os
  order_by-Ascends [] h = refl
  order_by-Ascends (o ∷ os) h = rw (order_by-Ascends os h.1) (insert_first o os h.0)

  pub last_id-All {κ} :
      (Q : ℕ → Type κ) (o : AnalyticalObservation V) (os : List (AnalyticalObservation V))
      → All (λ x. Q x.id) (o ∷ os)
      → Q (last_id o os)
  unfolding last_id
  last_id-All Q o [] h = h.0
  last_id-All Q o (p ∷ os) h = last_id-All Q p os h.1

  last_is_greatest :
      (o : AnalyticalObservation V) (os : List (AnalyticalObservation V))
      → Ascends (o ∷ os)
      → All (λ x. leb x.id (last_id o os) ≡ true) (o ∷ os)
  unfolding last_id
  last_is_greatest o [] h = (ground arith, tt)
  last_is_greatest o (p ∷ os) h = (
    let later : ltb o.id (last_id p os) ≡ true = last_id-All (λ i. ltb o.id i ≡ true) p os h.0 in
        ground arith,
    last_is_greatest p os h.1,
  )

  module _ {fl : Floats V} (c : Counts fl) (hash : List Label → String) (k : Series) where
    -- what the observations up to an id give the series
    abbrev pub total_until : ℕ → List (AnalyticalObservation V) → ℕ
    total_until last = sum_of (λ o. if leb o.id last then share c hash k o else 0)

    pub share_other :
        (o : AnalyticalObservation V)
        → (k.project_id == o.project_id && k.event_type_id == o.event_type_id) ≡ false
        → share c hash k o ≡ 0
    unfolding share same_series
    share_other o h =
        elim (Result-cases (normalize_observation_business_labels o.dimensions_json)) [
          | inl (labels, good) ↦ simp good (ground arith)
          | inr (e, bad) ↦ simp bad refl
        ]

    -- the observations of the series' stream after `first` and up to `last`
    total_split :
        (first last : ℕ) (os : List (AnalyticalObservation V))
        → first ≤ last
        → total_until last os
          ≡ total_until first os
            + total_until last (select (is_pending k.project_id k.event_type_id first) os)
    unfolding is_pending
    total_split first last [] h = refl
    total_split first last (o ∷ os) h =
        elim (Bool-cases (k.project_id == o.project_id && k.event_type_id == o.event_type_id)) [
          | inl mine ↦ ground (arith, total_split first last os h)
          | inr other ↦ ground (arith, total_split first last os h, share_other o other)
        ]

    pub total_until-le :
        (last : ℕ) (os : List (AnalyticalObservation V))
        → total_until last os ≤ sum_of (share c hash k) os
    total_until-le last [] = omega arith
    total_until-le last (o ∷ os) = ground (arith, total_until-le last os)

    total_whole :
        (last : ℕ) (os : List (AnalyticalObservation V))
        → All (λ o. leb o.id last ≡ true) os
        → total_until last os ≡ sum_of (share c hash k) os
    total_whole last [] h = refl
    total_whole last (o ∷ os) h = rw h.0 (omega (arith, total_whole last os h.1))

    total_none :
        (last : ℕ) (os : List (AnalyticalObservation V))
        → All (λ o. ltb last o.id ≡ true) os
        → total_until last os ≡ 0
    total_none last [] h = refl
    total_none last (o ∷ os) h = ground (arith, total_none last os h.1)

    pub batch_total :
        (first limit : ℕ) (o : AnalyticalObservation V) (os : List (AnalyticalObservation V))
        (db : Tables V)
        → Ascends db.observations
        → find_observations_after k.project_id k.event_type_id first limit db ≡ o ∷ os
        → first ≤ last_id o os
        → total_until (last_id o os) db.observations
          ≡ total_until first db.observations + sum_of (share c hash k) (o ∷ os)
    unfolding find_observations_after
    batch_total first limit o os db ascends found ahead =
        let last = last_id o os in
        let q = is_pending {V = V} k.project_id k.event_type_id first in
        let pending = select q db.observations in
        let sorted = select-Ascends q db.observations ascends in
        let taken : take limit pending ≡ o ∷ os =
          ap (take limit) (sym (order_by-Ascends pending sorted)) ∙ found in
        let (rest, whole, ordered, later) =
          take-IsOrdered (λ x y. ltb x.id y.id) limit pending sorted in
        let batch : Ascends (o ∷ os) = subst Ascends taken ordered in
        let after : All (λ y. ltb last y.id ≡ true) rest =
          last_id-All (λ i. All (λ y. ltb i y.id ≡ true) rest) o os
            (subst (All (λ x. All (λ y. ltb x.id y.id ≡ true) rest)) taken later) in
        let parts : total_until last pending ≡ sum_of (share c hash k) (o ∷ os) =
          subst (λ l. total_until last l ≡ sum_of (share c hash k) (o ∷ os))
            (ap (λ l. l ++ rest) (sym taken) ∙ whole)
            (omega (
              arith,
              sum_of-append (λ x. if leb x.id last then share c hash k x else 0) (o ∷ os) rest,
              total_whole last (o ∷ os) (last_is_greatest o os batch),
              total_none last rest after,
            )) in
        omega (arith, total_split first last db.observations ahead, parts)

  pub find_observations_after-All {κ} :
      (P : AnalyticalObservation V → Type κ) (p e first limit : ℕ) (db : Tables V)
      → All P (select (is_pending p e first) db.observations)
      → All P (find_observations_after p e first limit db)
  unfolding find_observations_after
  find_observations_after-All P p e first limit db h =
      let pending = select (is_pending {V = V} p e first) db.observations in
      All-take P limit (order_by (λ x y. leb x.id y.id) pending)
        (order_by-All (λ x y. leb x.id y.id) P pending h)

  pub find_observations_after-is_pending :
      (p e first limit : ℕ) (db : Tables V)
      → All (λ o. is_pending p e first o ≡ true) (find_observations_after p e first limit db)
  find_observations_after-is_pending p e first limit db =
      find_observations_after-All (λ o. is_pending p e first o ≡ true) p e first limit db
        (select-All (is_pending p e first) db.observations)

  pub find_observations_after-Ascends :
      (p e first limit : ℕ) (db : Tables V)
      → Ascends db.observations
      → Ascends (find_observations_after p e first limit db)
  unfolding find_observations_after
  find_observations_after-Ascends p e first limit db ascends =
      let pending = select (is_pending {V = V} p e first) db.observations in
      let sorted = select-Ascends (is_pending p e first) db.observations ascends in
      rw (order_by-Ascends pending sorted)
        (take-IsOrdered (λ x y. ltb x.id y.id) limit pending sorted).2
