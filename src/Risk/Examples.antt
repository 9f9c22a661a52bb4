-- ===== src/Risk/Examples.antt =====
-- Tests of the risk manager, and its theorems at inputs.
use predictive_trading_lab.Prelude.{ℕ, ◌*◌, ◌≡◌, refl, false, none, some, []}
use predictive_trading_lab.Prelude.Int.{pos, ◌+ℤ◌, ◌-ℤ◌, ◌*ℤ◌, quot_ℤ}
use predictive_trading_lab.Prelude.Double.{Fixed, fin, nan, fixed, d0, ◌<?◌, is_finite}
use predictive_trading_lab.Prelude.Map.{lookup}
use predictive_trading_lab.Core.Types.{buy, seconds, to_bps, sign_of}
use predictive_trading_lab.Core.Time.{no_times}
use predictive_trading_lab.Oms.Order.{Order, limit, day, signed_quantity}
use predictive_trading_lab.Oms.Manager.{OrderManager, exposure_of, exposure_from}
use predictive_trading_lab.Portfolio.{
  Portfolio, portfolio, liquidation, equity, position_value, sum_positions, gross_exposure,
}
use predictive_trading_lab.Risk.{
  RiskLimits, RiskContext, approved, stale_data, price_collar, rejection_count, rejection_count_of,
  check_order, code_number, reject,
}
use predictive_trading_lab.Risk

abbrev units : ℕ → Fixed
units n = fin (pos (n * 1_000_000_000))

abbrev strict : RiskLimits Fixed
strict = record {
  order_notional = units 1000;
  position_notional = units 1000;
  gross_leverage = units 2;
  net_leverage = units 1;
  concentration = fin (pos 250_000_000);
  collar = units 500;
  data_staleness = seconds 300;
  drawdown_pct = fin (pos 250_000_000);
  daily_turnover = units 1;
  allow_short = false;
}

-- Buy 2 at 51 or better.
abbrev two : Order Fixed
two = record {
  id = 7;
  parent = 0;
  instrument = 3;
  side = buy;
  quantity = units 2;
  type = limit;
  tif = day;
  limit_price = some (units 51);
  stop_price = none;
  times = no_times;
  arrival_price = units 0;
}

abbrev funded : Fixed → Portfolio Fixed
funded cash = portfolio (record {
  initial_cash = cash;
  mark_mode = liquidation;
  annual_borrow_rate = units 0;
  allow_short = false;
})

abbrev no_orders : OrderManager Fixed
no_orders = record { records = []; next = 1 }

abbrev at_fifty : RiskContext Fixed
at_fifty = record {
  now = 10;
  data_age = pos 0;
  reference_price = units 50;
  peak_equity = units 0;
  turnover_today = units 0;
}

two_approved : (check_order strict two (funded (units 1000)) no_orders at_fifty).code ≡ approved
unfolding check_order Risk.is_stale Risk.has_no_mark is_finite Risk.is_drawn_down Risk.goes_short
    lookup exposure_of signed_quantity ◌+ℤ◌ quot_ℤ ◌*ℤ◌ sign_of ◌-ℤ◌ Risk.is_large_order
    Risk.is_large_position Risk.is_concentrated equity to_bps gross_exposure position_value
    sum_positions Risk.is_off_collar Risk.is_over_gross Risk.is_over_net Risk.is_over_turnover
    Risk.is_unaffordable exposure_from
two_approved = refl

-- A portfolio whose cash is NaN.
nan_equity : (d0 {D = Fixed} <? equity (funded nan)) ≡ false
unfolding equity
nan_equity = refl
