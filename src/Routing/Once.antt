-- ===== src/Routing/Once.antt =====
-- An event that is no longer RECEIVED is not routed again.
use outbox_service.Prelude.{
  ℕ, ◌≡◌, ◌≢◌, refl, sym, ◌∙◌, subst, Bool, false, ◌&&◌, some, List, [], ◌∷◌, String, ◌==◌, if_both,
  inl, inr, arith, Bool-cases, All, All-map, IsKeyed, find_row, find_row-put_row_ne,
}
use outbox_service.Execution.Provider.{ConfigurationError}
use outbox_service.Routing.Model.{received, InboxEvent, Db, World, Round, event_key}
use outbox_service.Routing.Worker.{
  find_by_event_type, find_received, create_deliveries, route_materialized_event, report_failure,
  route_event, process_event, process_events, route_received_events,
}
use outbox_service.Routing.Counts.{deliveries_of, deliveries_of-append, deliveries_of-other}
use outbox_service.Routing.Lifecycle.{IsWaiting, find_received-waits}

abbrev IsOther : ℕ → InboxEvent → Type 0
IsOther i f = (i == event_key f) ≡ false

module _ {V : Type 0} (i : ℕ) (e : InboxEvent) (n : ℕ) where
  -- the row of the event `i`, and the number of its deliveries
  abbrev Has : Db V → Type 0
  Has db = (find_row event_key i db.events ≡ some e) × (deliveries_of i db.deliveries ≡ n)

  route-Has :
      (now : ℕ) (f : InboxEvent) (db : Db V)
      → IsOther i f
      → Has db
      → Has (route_materialized_event now f db)
  unfolding route_materialized_event
  route-Has now f db other (stored, count) =
      let routes = find_by_event_type f.event.event_type_id db.routes in
      let made = create_deliveries now db.next_delivery_id f.event.id routes in
      (
        find_row-put_row_ne event_key i _ db.events (λ same. ground (arith, same)) ∙ stored,
        omega (
          arith,
          count,
          deliveries_of-append i db.deliveries made,
          deliveries_of-other now db.next_delivery_id f.event.id i routes other,
        ),
      )

  process_event-Has :
      (describe : ConfigurationError → String) (now : ℕ) (r : Round) (f : InboxEvent) (w : World V)
      → IsOther i f
      → Has w.db
      → Has (process_event describe now r f w).0.db
  unfolding process_event report_failure route_event
  process_event-Has describe now r f w other h =
      let Same : World V × Bool → Type 0 = λ a. Has a.0.db in
      if_both Same (r.unit_ok && r.publish_ok) (route-Has now f _ other h)
        (if_both Same r.report_ok h h)

  process_events-Has :
      (describe : ConfigurationError → String) (now : ℕ) (rounds : ℕ → Round) (fs : List InboxEvent)
      (w : World V)
      → All (IsOther i) fs
      → Has w.db
      → Has (process_events describe now rounds fs w).0.db
  unfolding process_events
  process_events-Has describe now rounds [] w others h = h
  process_events-Has describe now rounds (f ∷ fs) w others h =
      let (w', goes_on) = process_event describe now (rounds f.event.id) f w in
      let kept = process_event-Has describe now (rounds f.event.id) f w others.0 h in
      if_both (λ (a : World V × Bool). Has a.0.db) goes_on
        (process_events-Has describe now rounds fs w' others.1 kept) kept

-- If event ids are unique, a cycle leaves every event that is not RECEIVED as it is, with as many
-- deliveries as before.
pub route_received_events_once :
    {V : Type 0} (describe : ConfigurationError → String) (now : ℕ) (rounds : ℕ → Round)
    (commit_ok : Bool) (w : World V) (i : ℕ) (e : InboxEvent)
    → IsKeyed event_key w.db.events
    → find_row event_key i w.db.events ≡ some e
    → e.status ≢ received
    → let w' = route_received_events describe now rounds commit_ok w in
      (find_row event_key i w'.db.events ≡ some e)
      × (deliveries_of i w'.db.deliveries ≡ deliveries_of i w.db.deliveries)
unfolding route_received_events
route_received_events_once {V} describe now rounds commit_ok w i e keyed stored gone =
    let n = deliveries_of i w.db.deliveries in
    let batch = find_received 100 w.db.events in
    let (w', done) = process_events describe now rounds batch w in
    if_both (λ (a : World V). Has i e n a.db) (done && commit_ok)
      (process_events-Has i e n describe now rounds batch w
        (All-map away batch (find_received-waits 100 w.db.events keyed)) (stored, refl))
      (stored, refl)
  where
    away : (f : InboxEvent) → IsWaiting w.db.events f → (i == event_key f) ≡ false
    away f (there, waits) = elim (Bool-cases (i == event_key f)) [
      | inl hit ↦
          let same_key : i ≡ event_key f = ground arith in
          let again : find_row event_key i w.db.events ≡ some f =
            subst (λ k. find_row event_key k w.db.events ≡ some f) (sym same_key) there in
          let same : f ≡ e = cc in absurd (gone (subst (λ g. g.status ≡ received) same waits))
      | inr miss ↦ miss
    ]
