-- ===== src/Execution/Broker/Examples.antt =====
-- The theorems of the simulated venue at concrete inputs, for src/execution/broker.cpp.
use predictive_trading_lab.Prelude.{ℕ, ◌+◌, ◌≡◌, refl, true, false, none, List, [], ◌∷◌, All, ok}
use predictive_trading_lab.Prelude.Int.{◌-ℤ◌, ◌+ℤ◌, ◌*ℤ◌, quot_ℤ}
use predictive_trading_lab.Prelude.Double.{Fixed, fixed, fixed-IsOrdered, is_finite}
use predictive_trading_lab.Core.Types.{buy, apply_bps, sign_of}
use predictive_trading_lab.Core.Time.{no_times, validate_chain, check_edges, edges, check_edge, at}
use predictive_trading_lab.Oms.Order.{
  Order, market, day, with_arrival, is_marketable_against, marketable,
}
use predictive_trading_lab.Oms.Fill.{Fill, taker}
use predictive_trading_lab.Execution.QuoteRouter.{MarketState, default_state}
use predictive_trading_lab.Execution.Models.{
  Numerics, FillConfig, CostModel, LatencyModel, standard_cost_model, standard_latency_model,
  standard_arrival, jittered, standard_commission, standard_half_spread, standard_market_impact,
  raw_impact, standard_slippage, touch_of,
}
use predictive_trading_lab.Execution.Broker.{
  PendingOrder, ExternalFillReport, Broker, no_stats, submit, fill_of,
}
use predictive_trading_lab.Execution.Broker.Matching.{
  Round, take, execute, on_market, match_orders, match_order, allowance, cap_displayed, cap_budget,
  make_fill, touch_price,
}
use predictive_trading_lab.Execution.Broker.Causal.{
  Call, call_submit, run, new_broker, IsAfterArrival, on_market-IsAfterArrival, step,
}

abbrev pub whole : ℕ → Fixed
whole n = fixed.lit n 1

-- A generator whose variates are their standard deviation, and that counts its draws.
abbrev numerics : Numerics Fixed ℕ
numerics = record {
  pow = λ x y. x;
  exp = λ x. whole 1;
  draw_normal = λ mean stddev drawn. (stddev, drawn + 1);
}

abbrev pub costs : CostModel Fixed ℕ
costs = standard_cost_model numerics (record {
  commission_per_share = fixed.lit 35 10000;
  minimum_commission = fixed.lit 35 100;
  taker_fee_bps = whole 0;
  maker_rebate_bps = whole 0;
  stochastic_slippage_bps = whole 0;
  impact_coefficient = whole 0;
  impact_exponent = fixed.lit 1 2;
  cost_multiplier = whole 1;
  fallback_half_spread_bps = whole 1;
})

abbrev pub latency : LatencyModel ℕ
latency = standard_latency_model numerics (record {
  market_data = 500;
  strategy_compute = 250;
  order_transmission = 900;
  exchange_processing = 100;
  acknowledgement = 700;
  jitter_sigma = whole 0;
})

abbrev pub caps : FillConfig Fixed
caps = record {
  max_participation_rate = fixed.lit 5 100;
  respect_displayed_size = true;
  passive_fill_ratio = fixed.lit 5 10;
  require_trade_through = true;
}

abbrev pub order : Order Fixed
order = record {
  id = 1;
  parent = 0;
  instrument = 4;
  side = buy;
  quantity = whole 100;
  type = market;
  tif = day;
  limit_price = none;
  stop_price = none;
  times = record no_times { decision_time = 1000 };
  arrival_price = whole 0;
}

abbrev pub pending : PendingOrder Fixed
pending = record { order = order; arrival_time = 2250; filled = whole 0; stop_triggered = false }

-- A bar with a close of 20 and a volume of 1000.
abbrev pub bar_state : MarketState Fixed
bar_state = record default_state { bid = whole 20; ask = whole 20; interval_volume = whole 1000 }

abbrev pub holding : Broker Fixed ℕ
holding = record { pending = pending ∷ []; stats = no_stats; latency_rng = 0; slippage_rng = 0 }

abbrev calls : List (Call Fixed)
calls = call_submit 1000 order ∷ []

abbrev pub submitted : Broker Fixed ℕ
submitted = run costs latency caps calls (new_broker 0 0)

abbrev fill : Fill Fixed
fill = record {
  order_id = 1;
  parent_id = 0;
  instrument = 4;
  side = buy;
  price = fixed.lit 20002 1000;
  quantity = whole 50;
  commission = fixed.lit 35 100;
  exchange_fee = whole 0;
  liquidity = taker;
  times = record no_times { decision_time = 1000; arrival_time = 2250; fill_time = 3000 };
  arrival_price = fixed.lit 20002 1000;
}

capped_fill : (on_market costs caps submitted 4 bar_state 3000).1 ≡ ok (fill ∷ [])
unfolding run on_market match_orders match_order take allowance cap_displayed cap_budget execute
    make_fill touch_price step submit fill_of with_arrival is_marketable_against marketable
    validate_chain check_edges edges check_edge at standard_arrival jittered standard_commission
    standard_half_spread standard_market_impact raw_impact standard_slippage touch_of apply_bps
    sign_of is_finite ◌-ℤ◌ ◌+ℤ◌ ◌*ℤ◌ quot_ℤ standard_cost_model standard_latency_model
capped_fill = refl

on_market-IsAfterArrival_example : All IsAfterArrival (fill ∷ [])
on_market-IsAfterArrival_example =
    on_market-IsAfterArrival costs latency caps fixed-IsOrdered calls 0 0 4 bar_state 3000
      (fill ∷ []) capped_fill

abbrev report : ExternalFillReport Fixed
report = record {
  order_id = 1;
  quantity = whole 40;
  price = whole 20;
  fill_time = 3000;
  commission = whole 1;
  exchange_fee = whole 0;
  liquidity = taker;
}

abbrev pub used_up : Round Fixed ℕ
used_up = record { stats = no_stats; slippage_rng = 0; budget = whole 0 }
