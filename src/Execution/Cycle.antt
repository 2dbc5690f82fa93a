-- ===== src/Execution/Cycle.antt =====
-- `process_metric_plan_executions` of app/worker.py with a session of its own: at most one order for
-- each turn of the batch, one after the other, until none is eligible or a failure ends the cycle.
use outbox_service.Prelude.{
  ℕ, suc, ◌+◌, ◌-◌, ◌≤◌, ◌<◌, ◌≡◌, refl, Bool, true, false, not, if◌then◌else◌, Option, none, some,
  List, [], ◌∷◌, inl, inr, arith, any_of, Bool-cases, All, select, order_by, length-order_by,
  Option-cases, length, sum_by, sum_by-put_row, put_row-IsKeyed, IsKeyed, find_row,
  find_row-IsKeyed, subst, sym,
}
use outbox_service.Execution.Model.{PlanExecution, Store}
use outbox_service.Execution.Repository.{lock_next_eligible, is_eligible, is_due, comes_first, head}
use outbox_service.Execution.Service.{Runtime, ExecutionResult, execute_order, execute_next}
use outbox_service.Execution.Lifecycle.{
  settled_order, id-settled_order, executions-execute_order, lock_next_eligible-All,
  lock_next_eligible-is_eligible, attempts-settled_order, attempts_left,
}

-- one round: its time, whether its transaction commits, and whether its runtime event is published
pub record Turn : Type 0 where
  pub now : ℕ
  pub commits : Bool
  pub publishes : Bool

module _ {V : Type 0} (rt : Runtime V) where
  -- what follows `execute_next`: a failure ends the cycle, before the commit with a rollback and after
  -- it with the order counted
  unfoldable pub next_round :
      (Store V → Store V × List ExecutionResult)
      → Turn
      → Store V
      → Store V × Option ExecutionResult
      → Store V × List ExecutionResult
  next_round again t s (_, none) = (s, [])
  next_round again t s (s', some r) =
      let (s'', rs) = again s' in
      if not t.commits then (s, []) else if not t.publishes then (s', r ∷ []) else (s'', r ∷ rs)

  -- the loop, over the rounds that are left
  unfoldable pub process_metric_plan_executions :
      List Turn → Store V → Store V × List ExecutionResult
  unfolding next_round
  process_metric_plan_executions [] s = (s, [])
  process_metric_plan_executions (t ∷ turns) s =
      next_round (process_metric_plan_executions turns) t s (execute_next rt t.now s)

  -- the attempts that the orders still have
  unfoldable pub remaining_attempts : Store V → ℕ
  remaining_attempts s = sum_by (λ x. x.id) (λ x. rt.max_attempts - x.attempt_count) s.executions

module _ {V : Type 0} (rt : Runtime V) (now : ℕ) where
  order_spends :
      (x : PlanExecution) (s : Store V)
      → IsKeyed (λ y. y.id) s.executions
      → lock_next_eligible rt.max_attempts now s ≡ some x
      → suc (remaining_attempts rt (execute_order rt now x s).0) ≤ remaining_attempts rt s
  unfolding remaining_attempts
  order_spends x s keyed picked =
      let done = settled_order rt now x s in
      let stored : find_row (λ y. y.id) done.id s.executions ≡ some x =
        subst (λ i. find_row (λ y. y.id) i s.executions ≡ some x)
          (sym (id-settled_order rt now x s))
          (lock_next_eligible-All (λ y. find_row (λ z. z.id) y.id s.executions ≡ some y)
            rt.max_attempts now s (find_row-IsKeyed (λ y. y.id) s.executions keyed) picked) in
      rw (executions-execute_order rt now x s) (
        omega (
          arith,
          sum_by-put_row (λ y. y.id) (λ y. rt.max_attempts - y.attempt_count) done x s.executions
              stored,
          attempts-settled_order rt now x s,
          attempts_left rt.max_attempts now x
              (lock_next_eligible-is_eligible rt.max_attempts now s picked),
        ))

  order_keeps_keys :
      (x : PlanExecution) (s : Store V)
      → IsKeyed (λ y. y.id) s.executions
      → IsKeyed (λ y. y.id) (execute_order rt now x s).0.executions
  order_keeps_keys x s keyed =
      rw (executions-execute_order rt now x s)
        (put_row-IsKeyed (λ y. y.id) (settled_order rt now x s) s.executions keyed)

-- an order that is eligible is eligible later
is_due_later : (a b : ℕ) (next : Option ℕ) → a ≤ b → is_due a next ≡ true → is_due b next ≡ true
is_due_later a b none le due = refl
is_due_later a b (some t) le due = ground (arith, le, due)

eligible_later :
    (max a b : ℕ) (x : PlanExecution)
    → a ≤ b
    → is_eligible max b x ≡ false
    → is_eligible max a x ≡ false
unfolding is_eligible
eligible_later max a b x le idle = elim (Bool-cases (is_due a x.next_attempt_at)) [
  | inl due ↦ ground (arith, idle, is_due_later a b x.next_attempt_at le due)
  | inr early ↦ ground (arith, idle, early)
]

head-none : (xs : List PlanExecution) → head xs ≡ none → length xs ≡ 0
unfolding head
head-none [] h = refl
head-none (x ∷ xs) h = cc

nothing_eligible :
    (max a b : ℕ) (xs : List PlanExecution)
    → a ≤ b
    → length (select (is_eligible max b) xs) ≡ 0
    → any_of (is_eligible max a) xs ≡ false
nothing_eligible max a b [] le h = refl
nothing_eligible max a b (x ∷ xs) le h = elim (Bool-cases (is_eligible max b x)) [
  | inl eligible ↦ absurd (ground (arith, eligible, h))
  | inr idle ↦
      ground
        (arith, eligible_later max a b x le idle, nothing_eligible max a b xs le (rw idle at h))
]

none_left :
    {V : Type 0} (max a b : ℕ) (s : Store V)
    → a ≤ b
    → lock_next_eligible max b s ≡ none
    → any_of (is_eligible max a) s.executions ≡ false
unfolding lock_next_eligible
none_left max a b s le idle = nothing_eligible max a b s.executions le (
    omega (
      arith,
      length-order_by comes_first (select (is_eligible max b) s.executions),
      head-none (order_by comes_first (select (is_eligible max b) s.executions)) idle,
    ))

module _ {V : Type 0} (rt : Runtime V) where
  -- If the ids of the orders are keys, a cycle reports at most one order for each of its turns and at
  -- most as many as there were attempts left, whatever commits and publications fail. If none fails,
  -- there are more turns than attempts left, and no turn is before `start`, the cycle ends with no
  -- order that is eligible at `start`. One worker runs at a time.
  pub process_metric_plan_executions_drains :
      (start : ℕ) (turns : List Turn) (s : Store V)
      → IsKeyed (λ y. y.id) s.executions
      → let (s', results) = process_metric_plan_executions rt turns s in
        (length results ≤ length turns)
        × (length results + remaining_attempts rt s' ≤ remaining_attempts rt s)
        × (All (λ t. (t.commits ≡ true) × (t.publishes ≡ true) × (start ≤ t.now)) turns
            → remaining_attempts rt s < length turns
            → any_of (is_eligible rt.max_attempts start) s'.executions ≡ false)
  unfolding process_metric_plan_executions execute_next next_round
  process_metric_plan_executions_drains start [] s keyed =
      (omega arith, omega arith, λ fine h. absurd (omega arith))
  process_metric_plan_executions_drains start (t ∷ turns) s keyed =
      elim (Option-cases (lock_next_eligible rt.max_attempts t.now s)) [
        | inl idle ↦
            simp (idle, process_metric_plan_executions, execute_next)
              (
                omega arith,
                omega arith,
                λ fine _. none_left rt.max_attempts start t.now s fine.0.2 idle,
              )
        | inr (x, picked) ↦
            let (bounded, spends, ends) =
              process_metric_plan_executions_drains start turns (execute_order rt t.now x s).0
                (order_keeps_keys rt t.now x s keyed) in
            let spent = order_spends rt t.now x s keyed picked in
            elim (Bool-cases t.commits) [
              | inr refused ↦
                  simp (picked, refused, process_metric_plan_executions, execute_next)
                    (omega arith, omega arith, λ fine _. absurd (ground (arith, refused, fine.0.0)))
              | inl committed ↦ elim (Bool-cases t.publishes) [
                | inr unpublished ↦
                    simp
                      (picked, committed, unpublished, process_metric_plan_executions, execute_next)
                      (
                        omega arith,
                        omega (arith, spent),
                        λ fine _. absurd (ground (arith, unpublished, fine.0.1)),
                      )
                | inl published ↦
                    simp
                      (picked, committed, published, process_metric_plan_executions, execute_next)
                      (
                        omega (arith, bounded),
                        omega (arith, spends, spent),
                        λ fine h. ends fine.1 (omega (arith, h, spent)),
                      )
              ]
            ]
      ]
