-- ===== src/Oms/State.antt =====
-- The states of an order and their legal transitions, of src/oms/order_manager.cpp.
use predictive_trading_lab.Prelude.{Bool, true, false, ◌||◌, if◌then◌else◌}

pub data OrderState : Type 0 where
  new pending_new working partially_filled filled : OrderState
  pending_cancel cancelled rejected expired : OrderState

pub OrderState-discrete : Discrete OrderState
OrderState-discrete = hlevel

unfoldable pub is_terminal : OrderState → Bool
is_terminal filled = true
is_terminal cancelled = true
is_terminal rejected = true
is_terminal expired = true
is_terminal _ = false

abbrev pub state_eq : OrderState → OrderState → Bool
state_eq new new = true
state_eq pending_new pending_new = true
state_eq working working = true
state_eq partially_filled partially_filled = true
state_eq filled filled = true
state_eq pending_cancel pending_cancel = true
state_eq cancelled cancelled = true
state_eq rejected rejected = true
state_eq expired expired = true
state_eq _ _ = false

-- The `switch` of `is_legal_transition`; the last clause is `default`.
unfoldable pub listed_transition : OrderState → OrderState → Bool
listed_transition new to = state_eq to pending_new || state_eq to rejected || state_eq to cancelled
listed_transition pending_new to =
    state_eq to working
    || state_eq to rejected
    || state_eq to partially_filled
    || state_eq to filled
    || state_eq to cancelled
listed_transition working to =
    state_eq to partially_filled
    || state_eq to filled
    || state_eq to pending_cancel
    || state_eq to cancelled
    || state_eq to expired
listed_transition partially_filled to =
    state_eq to filled || state_eq to pending_cancel || state_eq to cancelled || state_eq to expired
listed_transition pending_cancel to =
    state_eq to cancelled || state_eq to filled || state_eq to partially_filled
listed_transition _ to = false

unfoldable pub is_legal_transition : OrderState → OrderState → Bool
unfolding is_terminal listed_transition
is_legal_transition from to =
    if is_terminal from
    then false
    else if state_eq from to
    then false
    else listed_transition from to
