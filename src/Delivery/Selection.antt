-- ===== src/Delivery/Selection.antt =====
-- Which deliveries a worker cycle picks, in which order, and which it leaves for later.
use mathlib.Core.List.Perm
use outbox_service.Prelude.{ℕ, ◌≤◌, ◌<◌, Option, none, some, List}
use outbox_service.Delivery.Model.{DeliveryStatus, pending, failed, EventDelivery}

-- A row that is to be tried: PENDING, or FAILED with attempts left and, where one is scheduled, a next
-- attempt that is not in the future
abbrev pub AtStatus : ℕ → ℕ → ℕ → Option ℕ → DeliveryStatus → Type 0
AtStatus max now attempts next pending = Unit
AtStatus max now attempts none failed = attempts < max
AtStatus max now attempts (some t) failed = (attempts < max) × (t ≤ now)
AtStatus max now attempts next _ = ⊥

abbrev pub IsDueRow : ℕ → ℕ → EventDelivery → Type 0
IsDueRow max now d = AtStatus max now d.attempt_count d.next_attempt_at d.status
