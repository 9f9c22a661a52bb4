-- ===== src/Oms/Manager/Trace.antt =====
-- Sequences of calls on an `OrderManager` (src/oms/order_manager.cpp), from any state of it.
use predictive_trading_lab.Prelude.{List, [], ◌∷◌, Text}
use predictive_trading_lab.Prelude.Double.{Double}
use predictive_trading_lab.Oms.Order.{OrderId, Order}
use predictive_trading_lab.Oms.Fill.{Fill}
use predictive_trading_lab.Oms.Manager.{
  OrderState, OrderManager, next_id, submit, transition, apply_fill, cancel_replace,
}

-- The calls that change a manager, `reset` apart.
pub data Call (D : Type 0) : Type 0 where
  takes_id : Call D
  submits : Order D → Call D
  transitions : OrderId → OrderState → Text → Call D
  fills : Fill D → Call D
  replaces : OrderId → Order D → Call D

module _ {D : Type 0} ⦃F : Double D⦄ where
  unfoldable pub step : OrderManager D → Call D → OrderManager D
  step m takes_id = (next_id m).0
  step m (submits order) = (submit m order).0
  step m (transitions id to reason) = (transition m id to reason).0
  step m (fills fill) = (apply_fill m fill).0
  step m (replaces id order) = (cancel_replace m id order).0

  unfoldable pub run : OrderManager D → List (Call D) → OrderManager D
  unfolding step
  run m [] = m
  run m (c ∷ cs) = run (step m c) cs
