-- ===== src/Oms/Manager/Lifecycle.antt =====
-- A live order can be cancelled (the table of src/oms/order_manager.cpp).
use predictive_trading_lab.Prelude.{◌≡◌, true, false, arith}
use predictive_trading_lab.Oms.Manager.{OrderState, cancelled, is_terminal, is_legal_transition}

pub cancellable : (s : OrderState) → is_terminal s ≡ false → is_legal_transition s cancelled ≡ true
unfolding is_terminal is_legal_transition
cancellable s h = ground arith
