-- ===== src/Aggregation/Late.antt =====
-- An observation that becomes visible behind its stream's checkpoint: ids are given out at the insert,
-- and transactions may commit in another order.
use outbox_service.Prelude.{
  ℕ, ◌+◌, ◌≤◌, ◌<◌, ◌≡◌, refl, sym, ap, ◌∙◌, List, [], ◌∷◌, ◌++◌, String, if◌then◌else◌, leb, arith,
  select, sum_of, sum_of-append,
}
use outbox_service.Aggregation.Values.{Floats, Counts, IsExact}
use outbox_service.Aggregation.Labels.{Label}
use outbox_service.Aggregation.Model.{AnalyticalObservation, Tables, Series}
use outbox_service.Aggregation.Repository.{find_observations_after, is_pending}
use outbox_service.Aggregation.Groups.{share}
use outbox_service.Aggregation.States.{stored_value}
use outbox_service.Aggregation.Pending.{total_until, total_until-le}
use outbox_service.Aggregation.Positions.{position, position-same}
use outbox_service.Aggregation.Batches.{IsRefined, name_of}

module _ {V : Type 0} where
  select_late :
      (p e first : ℕ) (o : AnalyticalObservation V) (before after : List (AnalyticalObservation V))
      → o.id ≤ first
      → select (is_pending p e first) (before ++ o ∷ after)
        ≡ select (is_pending p e first) (before ++ after)
  unfolding is_pending
  select_late p e first o [] after late = ground arith
  select_late p e first o (x ∷ before) after late =
      rw (select_late p e first o before after late) refl

  -- An observation with an id up to the checkpoint's is in no later batch of its stream.
  late_is_never_found :
      (p e first limit : ℕ) (o : AnalyticalObservation V)
      (before after : List (AnalyticalObservation V)) (db : Tables V)
      → o.id ≤ first
      → find_observations_after p e first limit (record db { observations = before ++ o ∷ after })
        ≡ find_observations_after p e first limit (record db { observations = before ++ after })
  unfolding find_observations_after
  late_is_never_found p e first limit o before after db late =
      rw (select_late p e first o before after late) refl

  module _ {fl : Floats V} (c : Counts fl) (hash : List Label → String) (exact : IsExact c) where
    -- If sums of counts are exact up to a bound and the states are the totals of the log, and an
    -- observation that counts for a series becomes visible with an id up to its stream's checkpoint,
    -- within the bound, then the series' value is not the total of the log up to the checkpoint any
    -- more, and the stream's next batch is what it would be without the observation.
    pub late_observation_lost :
        (k : Series) (o : AnalyticalObservation V) (before after : List (AnalyticalObservation V))
        (limit : ℕ) (db : Tables V)
        → db.observations ≡ before ++ after
        → IsRefined c hash db
        → o.id ≤ position (name_of k) db
        → 0 < share c hash k o
        → sum_of (share c hash k) db.observations + share c hash k o ≤ c.bound
        → let first = position (name_of k) db in
          let late = record db { observations = before ++ o ∷ after } in
          ¬ (IsRefined c hash late)
          × (find_observations_after k.project_id k.event_type_id first limit late
              ≡ find_observations_after k.project_id k.event_type_id first limit db)
    unfolding position
    late_observation_lost k o before after limit db log refined late counts small =
        let first = position (name_of k) db in
        let db' = record db { observations = before ++ o ∷ after } in
        let g = λ (x : AnalyticalObservation V). if leb x.id first then share c hash k x else 0 in
        let here : g o ≡ share c hash k o = ground (arith, late) in
        let more : total_until c hash k first (before ++ o ∷ after)
            ≡ total_until c hash k first (before ++ after) + share c hash k o =
          omega (arith, sum_of-append g before (o ∷ after), sum_of-append g before after, here) in
        let fits : total_until c hash k first (before ++ after) + share c hash k o ≤ c.bound =
          omega (arith, rw log at small, total_until-le c hash k first (before ++ after)) in
        (
          λ still.
              let n = total_until c hash k first (before ++ after) in
              let was : stored_value c k db.states ≡ c.of_count n = rw log at (refined k) in
              let now : stored_value c k db.states ≡ c.of_count (n + share c hash k o) =
                rw (position-same (name_of k) db db' refl, more) at (still k) in
              let same : n ≡ n + share c hash k o =
                sym (exact.count_of-of_count n (omega (arith, fits)))
                ∙ ap c.count_of (sym was ∙ now)
                ∙ exact.count_of-of_count (n + share c hash k o) fits in
              omega (arith, same, counts),
          late_is_never_found k.project_id k.event_type_id first limit o before after db late
              ∙ ap
                  (λ os.
                    find_observations_after k.project_id k.event_type_id first limit
                      (record db { observations = os }))
                  (sym log),
        )
