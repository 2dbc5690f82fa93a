-- ===== src/Routing/Counts.antt =====
-- How many deliveries an event has, before and after it is routed.
use outbox_service.Prelude.{
  ℕ, suc, ◌+◌, ◌≡◌, refl, false, List, [], ◌∷◌, ◌++◌, ◌==◌, if◌then◌else◌, sum_by, arith, length,
}
use outbox_service.Delivery.Model.{EventDelivery}
use outbox_service.Routing.Model.{RouteDefinition}
use outbox_service.Routing.Worker.{create_deliveries}

-- the deliveries of an event
unfoldable pub deliveries_of : ℕ → List EventDelivery → ℕ
deliveries_of i = sum_by (λ d. d.id) (λ d. if d.event_id == i then 1 else 0)

pub deliveries_of-append :
    (i : ℕ) (ds es : List EventDelivery)
    → deliveries_of i (ds ++ es) ≡ deliveries_of i ds + deliveries_of i es
unfolding deliveries_of
deliveries_of-append i [] es = omega arith
deliveries_of-append i (d ∷ ds) es = omega (arith, deliveries_of-append i ds es)

pub deliveries_of-created :
    (now id i : ℕ) (rs : List RouteDefinition)
    → deliveries_of i (create_deliveries now id i rs) ≡ length rs
unfolding deliveries_of create_deliveries
deliveries_of-created now id i [] = refl
deliveries_of-created now id i (r ∷ rs) = ground (arith, deliveries_of-created now (suc id) i rs)

pub deliveries_of-other :
    (now id e i : ℕ) (rs : List RouteDefinition)
    → (i == e) ≡ false
    → deliveries_of i (create_deliveries now id e rs) ≡ 0
unfolding deliveries_of create_deliveries
deliveries_of-other now id e i [] h = refl
deliveries_of-other now id e i (r ∷ rs) h =
    ground (arith, deliveries_of-other now (suc id) e i rs h)
