-- ===== src/Oms/Manager/Replace.antt =====
-- `cancel_replace` of src/oms/order_manager.cpp: what is left behind, also when it fails.
use predictive_trading_lab.Prelude.{
  ℕ, ◌≡◌, ◌≢◌, ◌⊎◌, true, false, some, arith, Bool-cases, inl, inr, ok, err, ap, not, ◌&&◌, ◌==◌,
}
use predictive_trading_lab.Prelude.Double.{Double}
use predictive_trading_lab.Prelude.Map.{insert, contains, lookup-insert, lookup-insert_self}
use predictive_trading_lab.Core.Types.{side_eq}
use predictive_trading_lab.Oms.Order.{OrderId, Order, is_child}
use predictive_trading_lab.Oms.Manager.{
  OrderRecord, OrderManager, Outcome, ManagerError, no_id, duplicate_id, unknown_parent,
  is_terminal, cancelled, replaced, find, submit, transition, cancel_replace, then_submit, fresh,
}
use predictive_trading_lab.Oms.Manager.Terminal.{submit-Holds}
use predictive_trading_lab.Oms.Manager.Lifecycle.{cancellable}

module _ {D : Type 0} ⦃F : Double D⦄ where
  -- The record of an order that was cancelled to be replaced.
  abbrev pub withdrawn : OrderRecord D → OrderRecord D
  withdrawn r = record r { state = cancelled; reject_reason = replaced }

  -- The replacement may stand for the order: same instrument, same side, and the order is live.
  pub record CanReplace (r : OrderRecord D) (replacement : Order D) : Type 0 where
    pub live : is_terminal r.state ≡ false
    pub instrument : replacement.instrument ≡ r.order.instrument
    pub side : side_eq replacement.side r.order.side ≡ true

  abbrev withdraw : OrderManager D → OrderId → OrderRecord D → OrderManager D
  withdraw m id r = record m { records = insert id (withdrawn r) m.records }

  transition-withdraws :
      (m : OrderManager D) (id : OrderId) (r : OrderRecord D)
      → find m id ≡ some r
      → is_terminal r.state ≡ false
      → transition m id cancelled replaced ≡ (withdraw m id r, ok true)
  unfolding transition
  transition-withdraws m id r e live = ground (arith, cancellable r.state live)

  cancel_replace-submits :
      (m : OrderManager D) (id : OrderId) (replacement : Order D) (r : OrderRecord D)
      → find m id ≡ some r
      → CanReplace r replacement
      → cancel_replace m id replacement ≡ submit (withdraw m id r) replacement
  unfolding cancel_replace then_submit
  cancel_replace-submits m id replacement r e c =
      ground (arith, transition-withdraws m id r e c.live)

  submit-cases :
      (m : OrderManager D) (order : Order D)
      → (((submit m order).1 ≡ ok order.id)
          × (find (submit m order).0 order.id ≡ some (fresh order))
          × ((k : ℕ) → k ≢ order.id → find (submit m order).0 k ≡ find m k))
        ⊎ ((e : ManagerError) × (submit m order ≡ (m, err e)))
  unfolding submit
  submit-cases m order = elim (Bool-cases (order.id == 0)) [
    | inl zero ↦ inr (no_id, ground arith)
    | inr id ↦ elim (Bool-cases (contains order.id m.records)) [
      | inl known ↦ inr (duplicate_id, ground arith)
      | inr fresh_id ↦ elim (Bool-cases (is_child order && not (contains order.parent m.records))) [
        | inl orphan ↦ inr (unknown_parent, ground arith)
        | inr rooted ↦ inl (
          ground arith,
          ground (arith, lookup-insert_self order.id (fresh order) m.records),
          λ k ne. ground (arith, lookup-insert order.id k (fresh order) m.records),
        )
      ]
    ]
  ]

  -- Replacing a live order cancels it, whatever becomes of the replacement: either the
  -- replacement is then in the book as a new order, or it is refused and every other order is
  -- as it was. At no time are both live.
  pub cancel_replace-cancels :
      (m : OrderManager D) (id : OrderId) (replacement : Order D) (r : OrderRecord D)
      → find m id ≡ some r
      → CanReplace r replacement
      → let (m', result) = cancel_replace m id replacement in
        (find m' id ≡ some (withdrawn r))
        × (((result ≡ ok replacement.id) × (find m' replacement.id ≡ some (fresh replacement)))
            ⊎ ((e : ManagerError) × (result ≡ err e) × ((k : ℕ) → k ≢ id → find m' k ≡ find m k)))
  cancel_replace-cancels m id replacement r e c =
      rw (cancel_replace-submits m id replacement r e c) (
        submit-Holds (withdraw m id r) replacement id (withdrawn r)
            (lookup-insert_self id (withdrawn r) m.records),
        elim (submit-cases (withdraw m id r) replacement) [
          | inl (done, held, rest) ↦ inl (done, held)
          | inr (x, refused) ↦ inr (
            x,
            ap (λ (o : Outcome D OrderId). o.1) refused,
            λ k ne. rw refused (ground (arith, lookup-insert id k (withdrawn r) m.records)),
          )
        ],
      )

  -- The pair is not atomic: with a replacement whose id is in the book already the call returns
  -- an error, and the original order has been cancelled all the same.
  pub failed_replace_cancels :
      (m : OrderManager D) (id : OrderId) (replacement : Order D) (r held : OrderRecord D)
      → find m id ≡ some r
      → CanReplace r replacement
      → replacement.id ≢ 0
      → find m replacement.id ≡ some held
      → ((cancel_replace m id replacement).1 ≡ err duplicate_id)
        × (find (cancel_replace m id replacement).0 id ≡ some (withdrawn r))
  unfolding submit
  failed_replace_cancels m id replacement r held e c nonzero dup =
      rw (cancel_replace-submits m id replacement r e c) (
        ground (
          arith,
          lookup-insert id replacement.id (withdrawn r) m.records,
          lookup-insert_self id (withdrawn r) m.records,
        ))
