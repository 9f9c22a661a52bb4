-- ===== src/Oms/Manager/Terminal.antt =====
-- A terminal order is never touched again (src/oms/order_manager.cpp).
use predictive_trading_lab.Prelude.{ℕ, ◌≡◌, true, false, some, arith}
use predictive_trading_lab.Prelude.Double.{Double}
use predictive_trading_lab.Prelude.Map.{lookup-insert}
use predictive_trading_lab.Oms.Order.{Order}
use predictive_trading_lab.Oms.Fill.{Fill}
use predictive_trading_lab.Oms.Manager.{
  OrderState, OrderRecord, OrderManager, is_terminal, is_legal_transition, find, submit, fresh,
}

pub terminal_transition_refused :
    (s to : OrderState) → is_terminal s ≡ true → is_legal_transition s to ≡ false
unfolding is_terminal is_legal_transition
terminal_transition_refused s to h = ground arith

module _ {D : Type 0} ⦃F : Double D⦄ where
  -- The order `k` is held as `r` in `m`.
  abbrev pub Holds : OrderManager D → ℕ → OrderRecord D → Type 0
  Holds m k r = find m k ≡ some r

  -- A submission changes no order that is held.
  pub submit-Holds :
      (m : OrderManager D) (order : Order D) (k : ℕ) (r : OrderRecord D)
      → Holds m k r
      → Holds (submit m order).0 k r
  unfolding submit
  submit-Holds m order k r h = ground (arith, lookup-insert order.id k (fresh order) m.records)
