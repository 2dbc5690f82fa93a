-- ===== src/Delivery/Hazards.antt =====
-- What a request that has already been accepted does to later attempts: deliveries are at least once.
use outbox_service.Prelude.{
  ℕ, ◌+◌, ◌≡◌, true, false, some, List, [], ◌∷◌, ◌++◌, ok, ◌>>◌, arith, if◌then◌else◌, str_eq, leb,
  sym, subst, ap, ◌∙◌, find_row-put_row_self, find_row-key, put_row,
}
use outbox_service.Delivery.Model.{
  EventDelivery, Event, Failure, Config, Platform, Post, World, Attempt, with_deliveries, publish,
  publication_error, failed, dead_letter, delivered, delivery_started, delivery_succeeded,
  RuntimeEvent,
}
use outbox_service.Delivery.Repository.{find_by_id, get_by_id, save}
use outbox_service.Delivery.Service.{build_headers, prepare_request, deliver, mark_delivered}
use outbox_service.Delivery.Worker.{
  failed_row, record_failure, persist_delivery_failure, finish_delivery, attempt_delivery,
  deliver_one_delivery,
}
use outbox_service.Delivery.Requests.{posts-finish}
use outbox_service.Delivery.Backoff.{failed_row_exact}

-- the state in which the outcome of the request is known
after_request : EventDelivery → Post → World → World
after_request d post w = record w {
  posts = w.posts ++ post ∷ [];
  published =
      w.published
      ++ record { kind = delivery_started; delivery_id = d.id; delivery_status = d.status } ∷ [];
}

-- The row has an event and a URL that passes every check: an attempt will send `post`.
pub record IsReady (c : Config) (p : Platform) (i : ℕ) (w : World) (d : EventDelivery) (e : Event)
    (post : Post) : Type 0 where
  pub found : find_by_id i w.db.deliveries ≡ some d
  pub there : get_by_id d.event_id w.db.events ≡ some e
  pub ready : prepare_request c p e d ≡ ok post

module _ (c : Config) (p : Platform) (i : ℕ) where
  request_made :
      (w : World) (d : EventDelivery) (e : Event) (post : Post) (a : Attempt)
      → IsReady c p i w d e post
      → a.start_ok ≡ true
      → deliver_one_delivery c p a i w
        ≡ finish_delivery c p a d.id (a.reply >> ok (mark_delivered d)) (after_request d post w)
  unfolding after_request deliver_one_delivery attempt_delivery deliver
  request_made w d e post a r start =
      simp (r.found, deliver_one_delivery, r.there, attempt_delivery, start, deliver, r.ready)

  saved_row :
      (d' d : EventDelivery) (ds : List EventDelivery)
      → d'.id ≡ i
      → find_by_id i ds ≡ some d
      → find_by_id i (put_row (λ x. x.id) d' ds) ≡ some d'
  saved_row d' d ds same found =
      subst (λ j. find_by_id j (put_row (λ x. x.id) d' ds) ≡ some d') same
        (find_row-put_row_self (λ x. x.id) d' d ds
          (subst (λ j. find_by_id j ds ≡ some d) (sym same) found))

  -- the row that a committed delivery leaves
  delivered_row : Attempt → EventDelivery → EventDelivery
  delivered_row a d = record (mark_delivered d) { updated_at = a.now }

  committed : Attempt → EventDelivery → Post → World → World
  committed a d post w =
      with_deliveries (save a.now (mark_delivered d) w.db.deliveries) (after_request d post w)

  committed-IsReady :
      (w : World) (d : EventDelivery) (e : Event) (post : Post) (a : Attempt)
      → IsReady c p i w d e post
      → IsReady c p i (committed a d post w) (delivered_row a d) e post
  unfolding committed delivered_row mark_delivered after_request prepare_request build_headers
  committed-IsReady w d e post a r = record {
    found =
        saved_row (delivered_row a d) d w.db.deliveries
          (find_row-key (λ x. x.id) i w.db.deliveries d r.found) r.found;
    there = r.there;
    ready = r.ready;
  }

  request_made-committed :
      (w : World) (d : EventDelivery) (e : Event) (post : Post) (a : Attempt)
      → IsReady c p i w d e post
      → a.start_ok ≡ true
      → a.reply ≡ ok tt
      → a.commit_ok ≡ true
      → deliver_one_delivery c p a i w ≡ (
          if a.announce_ok
          then publish
              (record {
                kind = delivery_succeeded;
                delivery_id = d.id;
                delivery_status = delivered;
              })
              (committed a d post w)
          else persist_delivery_failure c p a d.id publication_error (committed a d post w))
  unfolding finish_delivery committed mark_delivered after_request
  request_made-committed w d e post a r start reply commit =
      request_made w d e post a r start ∙ simp (reply, commit)

  -- The status of a delivery is not looked at: once one worker has delivered it, an attempt of another
  -- worker that had read its id before sends the request a second time.
  pub deliver_one_delivery_twice :
      (w : World) (d : EventDelivery) (e : Event) (post : Post) (a b : Attempt)
      → IsReady c p i w d e post
      → a.start_ok ≡ true
      → a.reply ≡ ok tt
      → a.commit_ok ≡ true
      → a.announce_ok ≡ true
      → b.start_ok ≡ true
      → ((find_by_id i (deliver_one_delivery c p a i w).db.deliveries)
          ≡ some (record (mark_delivered d) { updated_at = a.now }))
        × ((deliver_one_delivery c p b i (deliver_one_delivery c p a i w)).posts
            ≡ (w.posts ++ post ∷ []) ++ post ∷ [])
  unfolding delivered_row committed after_request mark_delivered
  deliver_one_delivery_twice w d e post a b r start reply commit announce b_start =
      let told : RuntimeEvent = record {
        kind = delivery_succeeded;
        delivery_id = d.id;
        delivery_status = delivered;
      } in
      let w' : World = publish told (committed a d post w) in
      let sent : deliver_one_delivery c p a i w ≡ w' =
        request_made-committed w d e post a r start reply commit ∙ simp announce in
      let again = committed-IsReady w d e post a r in
      let r' : IsReady c p i w' (delivered_row a d) e post = record {
        found = again.found;
        there = again.there;
        ready = again.ready;
      } in
      rw sent (
        again.found,
        ap (λ x. x.posts) (request_made w' (delivered_row a d) e post b r' b_start)
            ∙ posts-finish c p b d.id (b.reply >> ok (mark_delivered (delivered_row a d)))
                (after_request (delivered_row a d) post w'),
      )

  persisted_row :
      (a : Attempt) (f : Failure) (w : World) (d d' : EventDelivery)
      → find_by_id i w.db.deliveries ≡ some d
      → failed_row c p a f d ≡ ok d'
      → d'.id ≡ d.id
      → a.report_ok ≡ true
      → a.record_ok ≡ true
      → find_by_id i (persist_delivery_failure c p a i f w).db.deliveries
        ≡ some (record d' { updated_at = a.now })
  unfolding persist_delivery_failure record_failure
  persisted_row a f w d d' found failing same report recorded =
      let key : d'.id ≡ i = same ∙ find_row-key (λ x. x.id) i w.db.deliveries d found in
      simp (found, persist_delivery_failure, failing, report, recorded)
        (saved_row (record d' { updated_at = a.now }) d w.db.deliveries key found)

  -- A publication that fails after the commit undoes the status: the delivery that was sent and
  -- committed counts two attempts, and is FAILED, or DEAD_LETTER at the maximum, instead of DELIVERED.
  pub deliver_one_delivery_unannounced :
      (w : World) (d : EventDelivery) (e : Event) (post : Post) (a : Attempt)
      → IsReady c p i w d e post
      → a.start_ok ≡ true
      → a.reply ≡ ok tt
      → a.commit_ok ≡ true
      → a.announce_ok ≡ false
      → a.report_ok ≡ true
      → a.record_ok ≡ true
      → str_eq c.retry_strategy "exponential" ≡ true
      → (d' : EventDelivery) × (find_by_id i (deliver_one_delivery c p a i w).db.deliveries
          ≡ some d')
        × (d'.attempt_count ≡ d.attempt_count + 2)
        × (d'.status ≡ (if leb c.max_attempts (d.attempt_count + 2) then dead_letter else failed))
  unfolding delivered_row mark_delivered
  deliver_one_delivery_unannounced w d e post a r start reply commit announce report recorded
        strategy =
      let w' : World = committed a d post w in
      let row = failed_row_exact c p a publication_error (delivered_row a d) strategy in
      let again = committed-IsReady w d e post a r in
      let undone : deliver_one_delivery c p a i w
          ≡ persist_delivery_failure c p a i publication_error w' =
        request_made-committed w d e post a r start reply commit
        ∙ simp announce (
            ap (λ j. persist_delivery_failure c p a j publication_error w')
              (find_row-key (λ x. x.id) i w.db.deliveries d r.found)) in
      (
        record row.0 { updated_at = a.now },
        ap (λ x. find_by_id i x.db.deliveries) undone
            ∙ persisted_row a publication_error w' (delivered_row a d) row.0 again.found row.1 row.5
                report recorded,
        omega (arith, row.2),
        row.3 ∙ ap (λ n. if leb c.max_attempts n then dead_letter else failed) (omega arith),
      )
