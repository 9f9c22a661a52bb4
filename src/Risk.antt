-- ===== src/Risk.antt =====
-- include/ptl/risk/risk_manager.hpp and src/risk/risk_manager.cpp: the checks before an order is
-- sent. The texts that describe a rejection are not kept.
pub mod Approval
pub mod Equity
pub mod Count
mod Examples
use predictive_trading_lab.Prelude.{
  ℕ, suc, ◌+◌, Bool, true, false, not, ◌&&◌, ◌||◌, ◌==◌, if◌then◌else◌, Option, none, some, List,
  [], ◌∷◌,
}
use predictive_trading_lab.Prelude.Int.{ℤ, pos, ltb_ℤ}
use predictive_trading_lab.Prelude.Double.{
  Double, ◌⊕◌, ◌⊖◌, ◌⊗◌, ◌⊘◌, ◌<?◌, ◌≤?◌, negate, abs, lit, d0, d1, is_finite,
}
use predictive_trading_lab.Prelude.Map.{Map, lookup, insert}
use predictive_trading_lab.Core.Types.{Timestamp, Duration, InstrumentId, side_eq, buy, to_bps}
use predictive_trading_lab.Oms.Order.{Order, signed_quantity}
use predictive_trading_lab.Oms.Manager.{OrderManager, exposure_of}
use predictive_trading_lab.Portfolio.{
  Portfolio, equity, gross_exposure, net_exposure, buying_power, short_slack,
}

pub data RejectCode : Type 0 where
  approved max_position_exceeded max_order_notional max_gross_exposure : RejectCode
  max_net_exposure max_leverage insufficient_buying_power shorting_disabled : RejectCode
  price_collar stale_data drawdown_kill_switch concentration_limit : RejectCode
  turnover_budget no_mark_available : RejectCode

-- `static_cast<std::uint8_t>`.
unfoldable pub code_number : RejectCode → ℕ
code_number approved = 0
code_number max_position_exceeded = 1
code_number max_order_notional = 2
code_number max_gross_exposure = 3
code_number max_net_exposure = 4
code_number max_leverage = 5
code_number insufficient_buying_power = 6
code_number shorting_disabled = 7
code_number price_collar = 8
code_number stale_data = 9
code_number drawdown_kill_switch = 10
code_number concentration_limit = 11
code_number turnover_budget = 12
code_number no_mark_available = 13

pub record RiskLimits (D : Type 0) : Type 0 where
  pub order_notional : D
  pub position_notional : D
  pub gross_leverage : D
  pub net_leverage : D
  pub concentration : D
  pub collar : D
  pub data_staleness : Duration
  pub drawdown_pct : D
  pub daily_turnover : D
  pub allow_short : Bool

pub record RiskDecision (D : Type 0) : Type 0 where
  pub code : RejectCode
  pub adjusted_quantity : D

-- The age of the data is negative where a mark lies ahead of `now`.
pub record RiskContext (D : Type 0) : Type 0 where
  pub now : Timestamp
  pub data_age : ℤ
  pub reference_price : D
  pub peak_equity : D
  pub turnover_today : D

module _ {D : Type 0} ⦃F : Double D⦄ where
  abbrev pub reject : RejectCode → RiskDecision D
  reject code = record { code = code; adjusted_quantity = d0 }

module _ {D : Type 0} ⦃F : Double D⦄ (limits : RiskLimits D) (order : Order D) (pf : Portfolio D)
    (orders : OrderManager D) (ctx : RiskContext D) where
  unfoldable pub is_stale : Bool
  is_stale = ltb_ℤ (pos limits.data_staleness) ctx.data_age

  unfoldable pub has_no_mark : Bool
  has_no_mark = not (is_finite ctx.reference_price) || (ctx.reference_price ≤? d0)

  unfoldable pub is_drawn_down : Bool
  is_drawn_down =
      (d0 <? ctx.peak_equity)
      && is_finite (equity pf)
      && (limits.drawdown_pct <? d1 ⊖ equity pf ⊘ ctx.peak_equity)

  -- What is held, what is in flight and the order itself.
  abbrev pub projected : D
  projected =
      elim (lookup order.instrument pf.positions) [ none ↦ d0 | some p ↦ p.quantity ]
      ⊕ exposure_of orders order.instrument
      ⊕ signed_quantity order

  unfoldable pub goes_short : Bool
  goes_short = not limits.allow_short && (projected <? short_slack)

  abbrev pub order_notional : D
  order_notional = abs (order.quantity ⊗ ctx.reference_price)

  abbrev pub projected_notional : D
  projected_notional = abs (projected ⊗ ctx.reference_price)

  unfoldable pub is_large_order : Bool
  is_large_order = limits.order_notional <? order_notional

  unfoldable pub is_large_position : Bool
  is_large_position = limits.position_notional <? projected_notional

  unfoldable pub is_concentrated : Bool
  is_concentrated = (d0 <? equity pf) && (limits.concentration <? projected_notional ⊘ equity pf)

  abbrev pub projected_gross : D
  projected_gross = gross_exposure pf ⊕ abs (order.quantity ⊗ ctx.reference_price)

  abbrev pub projected_net : D
  projected_net = abs (net_exposure pf ⊕ signed_quantity order ⊗ ctx.reference_price)

  unfoldable pub is_over_gross : Bool
  is_over_gross = (d0 <? equity pf) && (limits.gross_leverage <? projected_gross ⊘ equity pf)

  unfoldable pub is_over_net : Bool
  is_over_net = (d0 <? equity pf) && (limits.net_leverage <? projected_net ⊘ equity pf)

  unfoldable pub is_off_collar : Bool
  is_off_collar = elim order.limit_price [
    | none ↦ false
    | some price ↦ limits.collar <? abs (to_bps price ctx.reference_price)
  ]

  unfoldable pub is_unaffordable : Bool
  is_unaffordable = side_eq order.side buy && (buying_power pf <? order_notional)

  unfoldable pub is_over_turnover : Bool
  is_over_turnover =
      (d0 <? equity pf)
      && (d0 <? limits.daily_turnover)
      && (limits.daily_turnover <? (ctx.turnover_today ⊕ order_notional) ⊘ equity pf)

  unfoldable pub check_order : RiskDecision D
  check_order =
      if is_stale
      then reject stale_data
      else if has_no_mark
      then reject no_mark_available
      else if is_drawn_down
      then reject drawdown_kill_switch
      else if goes_short
      then reject shorting_disabled
      else if is_large_order
      then reject max_order_notional
      else if is_large_position
      then reject max_position_exceeded
      else if is_concentrated
      then reject concentration_limit
      else if is_over_gross
      then reject max_gross_exposure
      else if is_over_net
      then reject max_net_exposure
      else if is_off_collar
      then reject price_collar
      else if is_unaffordable
      then reject insufficient_buying_power
      else if is_over_turnover
      then reject turnover_budget
      else record { code = approved; adjusted_quantity = order.quantity }

abbrev pub or_zero : Option ℕ → ℕ
or_zero none = 0
or_zero (some n) = n

-- The counts by code number, of a `RiskManager`.
abbrev pub counted : ℕ → Map ℕ → ℕ
counted number counts = or_zero (lookup number counts)

unfoldable pub record_code : RejectCode → Map ℕ → Map ℕ
record_code code counts = insert (code_number code) (suc (counted (code_number code) counts)) counts

-- All codes but `approved`.
unfoldable pub rejection_count : Map ℕ → ℕ
rejection_count [] = 0
rejection_count ((number, n) ∷ rest) =
    (if number == code_number approved then 0 else n) + rejection_count rest

unfoldable pub rejection_count_of : RejectCode → Map ℕ → ℕ
rejection_count_of code counts = counted (code_number code) counts

abbrev pub reset : Map ℕ → Map ℕ
reset counts = []
