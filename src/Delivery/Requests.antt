-- ===== src/Delivery/Requests.antt =====
-- Which requests leave the process, and what a request that has left means for its delivery.
use mathlib.Core.List.{append-nil}
use outbox_service.Prelude.{
  Bool, ◌∙◌, find_row-key, ℕ, ◌≡◌, refl, true, false, not, ◌&&◌, ◌||◌, List, [], ◌∷◌, ◌++◌, Result,
  ok, err, inl, inr, arith, All, All-append, Option-cases, Result-cases, OnOk, OnOk-bind, OnOk-eq,
  OnOk-intro, raise_if, raise_if_ok, if_both, String, str_eq, sym, subst,
}
use outbox_service.Delivery.Model.{
  EventDelivery, Event, Failure, Config, Platform, Post, SplitUrl, World, Attempt, with_deliveries,
  publication_error, not_absolute_http, url_credentials, https_required,
  unsupported_destination_type, database_error,
}
use outbox_service.Delivery.Repository.{find_by_id, get_by_id, save}
use outbox_service.Delivery.Service.{
  is_falsy, is_web_scheme, destination, validate_destination_url, build_headers, prepare_request,
  deliver,
}
use outbox_service.Delivery.Worker.{
  record_failure, persist_delivery_failure, finish_delivery, attempt_delivery, deliver_one_delivery,
  deliver_all, deliver_pending_deliveries,
}

-- The URL is absolute HTTP(S) with a host and without credentials, and HTTPS where the settings ask
-- for it.
abbrev pub IsAllowed : Config → Platform → String → Type 0
IsAllowed c p url =
    (u : SplitUrl) × (p.urlsplit url ≡ ok u)
    × (is_web_scheme u.scheme ≡ true)
    × (is_falsy u.hostname ≡ false)
    × (is_falsy u.username ≡ true)
    × (is_falsy u.password ≡ true)
    × (c.require_https ≡ true → str_eq u.scheme "https" ≡ true)

abbrev pub IsAllowedPost : Config → Platform → Post → Type 0
IsAllowedPost c p post = IsAllowed c p post.url

-- No request, or one allowed request, for the delivery `i`.
abbrev pub AtMostOnePost : Config → Platform → ℕ → List Post → Type 0
AtMostOnePost c p i [] = Unit
AtMostOnePost c p i (post ∷ posts) = IsAllowed c p post.url × (post.delivery_id ≡ i) × (posts ≡ [])

-- The requests between two states.
abbrev pub Sends : Config → Platform → ℕ → World → World → Type 0
Sends c p i w w' = (new : List Post) × (w'.posts ≡ w.posts ++ new) × AtMostOnePost c p i new

module _ (c : Config) (p : Platform) where
  allowed :
      (url : String) (u : SplitUrl)
      → p.urlsplit url ≡ ok u
      → (not (is_web_scheme u.scheme) || is_falsy u.hostname) ≡ false
      → (not (is_falsy u.username) || not (is_falsy u.password)) ≡ false
      → (c.require_https && not (str_eq u.scheme "https")) ≡ false
      → IsAllowed c p url
  allowed url u parsed web plain secure =
      (u, parsed, ground arith, ground arith, ground arith, ground arith, λ required. ground arith)

  validate_destination_url-IsAllowed :
      (url : String) → OnOk (λ _. IsAllowed c p url) (validate_destination_url c p url)
  unfolding validate_destination_url
  validate_destination_url-IsAllowed url =
      let P : Unit {0} → Type 0 = λ _. IsAllowed c p url in
      OnOk-bind P (p.urlsplit url) _ λ u parsed.
        OnOk-bind P (raise_if _ not_absolute_http) _ λ _ web.
          OnOk-bind P (raise_if _ url_credentials) _ λ _ plain.
            OnOk-intro P (raise_if _ https_required) λ _ secure.
              allowed url u parsed (raise_if_ok _ _ web) (raise_if_ok _ _ plain)
                (raise_if_ok _ _ secure)

  prepare_request-IsAllowed :
      (e : Event) (d : EventDelivery)
      → OnOk (λ post. IsAllowed c p post.url × (post.delivery_id ≡ d.id)) (prepare_request c p e d)
  unfolding prepare_request
  prepare_request-IsAllowed e d =
      let P : Post → Type 0 = λ post. IsAllowed c p post.url × (post.delivery_id ≡ d.id) in
      OnOk-bind P
        (raise_if (not (str_eq d.destination_type "webhook")) unsupported_destination_type) _
        λ _ _. OnOk-bind P (destination d.destination_url) _ λ url _.
          OnOk-bind P (validate_destination_url c p url) _ λ u valid.
            OnOk-bind P (build_headers c p e d)
              (λ hs. ok (record { delivery_id = d.id; url = url; body = e.payload; headers = hs }))
              λ _ _. (
                OnOk-eq (λ _. IsAllowed c p url) (validate_destination_url c p url)
                    (validate_destination_url-IsAllowed url) valid,
                refl,
              )

  module _ (a : Attempt) where
    posts-persist :
        (i : ℕ) (f : Failure) (w : World) → (persist_delivery_failure c p a i f w).posts ≡ w.posts
    unfolding persist_delivery_failure record_failure
    posts-persist i f w = ground arith

    pub posts-finish :
        (i : ℕ) (r : Result Failure EventDelivery) (w : World)
        → (finish_delivery c p a i r w).posts ≡ w.posts
    unfolding finish_delivery
    posts-finish i (err f) w = posts-persist i f w
    posts-finish i (ok d) w = ground (
      arith,
      posts-persist i database_error w,
      posts-persist i publication_error (with_deliveries (save a.now d w.db.deliveries) w),
    )

    deliver-AtMostOnePost :
        (e : Event) (d : EventDelivery) → AtMostOnePost c p d.id (deliver c p a e d).0
    unfolding deliver
    deliver-AtMostOnePost e d = elim (Result-cases (prepare_request c p e d)) [
      | inl (post, ready) ↦
          let good =
            OnOk-eq (λ post. IsAllowed c p post.url × (post.delivery_id ≡ d.id))
              (prepare_request c p e d) (prepare_request-IsAllowed e d) ready in
          rw (ready, deliver) (good.0, good.1, refl)
      | inr (f, refused) ↦ rw (refused, deliver) tt
    ]

    silent :
        (i : ℕ) (before after : List Post)
        → after ≡ before
        → (new : List Post) × (after ≡ before ++ new) × AtMostOnePost c p i new
    silent i before after same = ([], same ∙ sym (append-nil before), tt)

    attempt_delivery-Sends :
        (e : Event) (d : EventDelivery) (w : World)
        → Sends c p d.id w (attempt_delivery c p a e d w)
    unfolding attempt_delivery
    attempt_delivery-Sends e d w =
        if_both (Sends c p d.id w) a.start_ok
          (
            (deliver c p a e d).0,
            posts-finish d.id (deliver c p a e d).1 _,
            deliver-AtMostOnePost e d,
          )
          (silent d.id w.posts _ (posts-persist d.id publication_error w))

    -- One attempt sends at most one request, for the delivery asked for, and only to a URL that passed
    -- every check; no other request is recorded and none is forgotten.
    pub deliver_one_delivery-Sends :
        (i : ℕ) (w : World) → Sends c p i w (deliver_one_delivery c p a i w)
    unfolding deliver_one_delivery
    deliver_one_delivery-Sends i w = elim (Option-cases (find_by_id i w.db.deliveries)) [
      | inl missing ↦ rw (missing, deliver_one_delivery) (silent i w.posts _ refl)
      | inr (d, found) ↦ elim (Option-cases (get_by_id d.event_id w.db.events)) [
        | inl gone ↦
            rw (found, deliver_one_delivery, gone)
              (if_both (Sends c p i w) a.commit_ok (silent i w.posts _ refl)
                (silent i w.posts _ (posts-persist i database_error w)))
        | inr (e, there) ↦
            rw (found, deliver_one_delivery, there)
              (subst (λ j. Sends c p j w (attempt_delivery c p a e d w))
                (find_row-key (λ r. r.id) i w.db.deliveries d found) (attempt_delivery-Sends e d w))
      ]
    ]

  Sends-IsAllowed :
      (i : ℕ) (w w' : World)
      → Sends c p i w w'
      → All (IsAllowedPost c p) w.posts
      → All (IsAllowedPost c p) w'.posts
  Sends-IsAllowed i w w' ([], e, h) all = rw (e, append-nil) all
  Sends-IsAllowed i w w' (post ∷ posts, e, (good, _, none_left)) all =
      rw (e, none_left) (All-append (IsAllowedPost c p) w.posts (post ∷ []) all (good, tt))

  module _ (weather : ℕ → Attempt) where
    deliver_all-IsAllowed :
        (ids : List ℕ) (w : World)
        → All (IsAllowedPost c p) w.posts
        → All (IsAllowedPost c p) (deliver_all c p weather ids w).posts
    unfolding deliver_all
    deliver_all-IsAllowed [] w h = h
    deliver_all-IsAllowed (i ∷ ids) w h =
        let w' = deliver_one_delivery c p (weather i) i w in
        deliver_all-IsAllowed ids w'
          (Sends-IsAllowed i w w' (deliver_one_delivery-Sends (weather i) i w) h)

    -- If every request sent before a cycle of the worker went to an absolute HTTP(S) URL without
    -- credentials, over HTTPS where the settings ask for it, then so did every request sent up to its
    -- end, whatever the cycle meets.
    pub deliver_pending_deliveries-IsAllowed :
        (now : ℕ) (locked : ℕ → Bool) (w : World)
        → All (IsAllowedPost c p) w.posts
        → All (IsAllowedPost c p) (deliver_pending_deliveries c p weather now locked w).posts
    unfolding deliver_pending_deliveries
    deliver_pending_deliveries-IsAllowed now locked w h = deliver_all-IsAllowed _ w h
