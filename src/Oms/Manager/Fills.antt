-- ===== src/Oms/Manager/Fills.antt =====
-- What `apply_fill` of src/oms/order_manager.cpp books, and when.
use predictive_trading_lab.Prelude.{
  ◌<◌, ◌≡◌, ◌⊎◌, ap, ◌∙◌, Result, Bool, true, false, some, arith, err,
}
use predictive_trading_lab.Prelude.Double.{Double, ◌⊕◌, ◌<?◌}
use predictive_trading_lab.Prelude.Map.{insert, lookup-insert_self}
use predictive_trading_lab.Core.Types.{side_eq}
use predictive_trading_lab.Oms.Fill.{Fill}
use predictive_trading_lab.Oms.Manager.{
  new, OrderRecord, OrderManager, is_terminal, is_legal_transition, find, apply_fill, fill_record,
  settle, book_fill, slack, ManagerError, illegal_fill_transition,
}

module _ {D : Type 0} ⦃F : Double D⦄ where
  -- The conditions under which a fill is accepted for a record.
  pub record Fits (fill : Fill D) (r : OrderRecord D) : Type 0 where
    pub live : is_terminal r.state ≡ false
    pub instrument : fill.instrument ≡ r.order.instrument
    pub side : side_eq fill.side r.order.side ≡ true
    pub within : (r.order.quantity ⊕ slack <? r.filled_quantity ⊕ fill.quantity) ≡ false
    pub causal : r.order.times.decision_time < fill.times.fill_time

  settle-new : (r : OrderRecord D) → r.state ≡ new → settle r ≡ (r, err illegal_fill_transition)
  unfolding settle is_legal_transition
  settle-new r n = ground arith

  fill_record-writes :
      (m : OrderManager D) (fill : Fill D) (r : OrderRecord D)
      → Fits fill r
      → fill_record m fill r ≡ (
        record m { records = insert fill.order_id (settle (book_fill fill r)).0 m.records },
        (settle (book_fill fill r)).1,
      )
  unfolding fill_record settle
  fill_record-writes m fill r f = ground arith

  -- A fill either leaves the manager alone or fits its record and is booked.
  pub fill_record-cases :
      (m : OrderManager D) (fill : Fill D) (r : OrderRecord D)
      → ((fill_record m fill r).0 ≡ m)
        ⊎ (Fits fill r
            × ((fill_record m fill r).0 ≡ record m {
              records = insert fill.order_id (settle (book_fill fill r)).0 m.records;
            }))
  unfolding fill_record settle
  fill_record-cases m fill r = ground arith

  -- A fill for an order that was not sent yet is refused, but only after it is booked: the call
  -- returns an error and the filled quantity, notional and cost of the order have changed.
  pub new_order_fill_booked :
      (m : OrderManager D) (fill : Fill D) (r : OrderRecord D)
      → find m fill.order_id ≡ some r
      → r.state ≡ new
      → Fits fill r
      → ((apply_fill m fill).1 ≡ err illegal_fill_transition)
        × (find (apply_fill m fill).0 fill.order_id ≡ some (book_fill fill r))
  unfolding apply_fill
  new_order_fill_booked m fill r h n f =
      rw (h, apply_fill, fill_record-writes m fill r f)
        (
          ap (λ (c : OrderRecord D × Result ManagerError Bool). c.1) unsent,
          ap
                (λ (c : OrderRecord D × Result ManagerError Bool).
                  find (record m { records = insert fill.order_id c.0 m.records }) fill.order_id)
                unsent
              ∙ lookup-insert_self fill.order_id _ m.records,
        )
    where
      unsent : settle (book_fill fill r) ≡ (book_fill fill r, err illegal_fill_transition)
      unsent = settle-new (book_fill fill r) n
