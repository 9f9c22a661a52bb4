-- ===== src/Engine/Examples.antt =====
-- The theorems of the engine at a concrete run, for src/engine/engine.cpp.
use predictive_trading_lab.Prelude.{
  ℕ, zero, suc, ◌+◌, ◌-◌, ◌≡◌, refl, true, false, some, [], ◌∷◌, ok, arith,
}
use predictive_trading_lab.Prelude.Double.{Fixed, fixed}
use predictive_trading_lab.Core.Types.{Timestamp, buy}
use predictive_trading_lab.Core.Time.{no_times}
use predictive_trading_lab.Market.Events.{Quote}
use predictive_trading_lab.Market.Event.{MarketEvent, bar_event}
use predictive_trading_lab.Oms.Fill.{Fill, taker}
use predictive_trading_lab.Oms.Manager
use predictive_trading_lab.Portfolio.{portfolio, liquidation}
use predictive_trading_lab.Accounting.Journal.{empty_journal}
use predictive_trading_lab.Execution.Broker.Causal.{new_broker}
use predictive_trading_lab.Execution.Broker.Examples.{whole, costs, latency, caps, order}
use predictive_trading_lab.Engine.{Engine, Setup, Answer, RunSummary, empty_summary}
use predictive_trading_lab.Engine.Callbacks.{Script, done, ask_id, place}
use predictive_trading_lab.Engine.Sink.{run_script}
use predictive_trading_lab.Engine.Loop.{step_loop, run}
use predictive_trading_lab.Engine.Loop.Chunks.{then_step, step_loop-chunks}
use predictive_trading_lab.Engine.Loop.Ends.{run-Ended}
use predictive_trading_lab.Engine.Follows.{IsGated}
use predictive_trading_lab.Engine.Gated.{step_loop-IsGated}
use predictive_trading_lab.Engine.Quiet.{IsQuiet, run_script-IsQuiet}

-- A strategy that buys 100 shares on the first bar; its state counts the bars.
abbrev buy_once : ℕ → Script Fixed ℕ
buy_once zero = ask_id λ id. place (record order { id = id }) λ answer. done 1
buy_once (suc seen) = done (suc (suc seen))

abbrev setup : Setup Fixed ℕ ℕ
setup = record {
  costs = costs;
  latency = latency;
  fills = caps;
  limits = record {
    order_notional = whole 100000;
    position_notional = whole 100000;
    gross_leverage = whole 2;
    net_leverage = whole 2;
    concentration = whole 1;
    collar = whole 100;
    data_staleness = 60_000_000_000;
    drawdown_pct = fixed.lit 5 10;
    daily_turnover = whole 0;
    allow_short = false;
  };
  config = record {
    snapshot_on_session_close = true;
    snapshot_on_bar = true;
    halt_on_risk_rejection = false;
    default_interval_volume = whole 0;
  };
  strategy = record {
    on_start = λ ctx s. ok s;
    on_bar = λ bar s. buy_once s;
    on_quote = λ q s. done s;
    on_trade = λ t s. done s;
    on_fill = λ f ctx s. s;
    on_session_open = λ t s. done s;
    on_session_close = λ t s. done s;
    on_stop = λ ctx s. s;
  };
  broker_message = λ e. [];
  strategy_cancel = [];
}

abbrev bar_at : Timestamp → MarketEvent Fixed
bar_at close_time = bar_event (record {
  instrument = 4;
  open_time = close_time - 1000;
  close_time = close_time;
  time = record { exchange_time = close_time; receive_time = close_time };
  open_price = whole 20;
  high_price = whole 20;
  low_price = whole 20;
  close_price = whole 20;
  volume = whole 1000;
})

abbrev engine : Engine Fixed ℕ ℕ
engine = record {
  clock = record { now = 5000 };
  source = record { events = bar_at 5000 ∷ bar_at 9000 ∷ []; consumed = 0; first = 5000 };
  strategy = 0;
  broker = new_broker 0 0;
  pf = portfolio (record {
    initial_cash = whole 10000;
    mark_mode = liquidation;
    annual_borrow_rate = whole 0;
    allow_short = false;
  });
  orders = Manager.reset;
  rejections = [];
  journal = empty_journal;
  summary = empty_summary;
  started = true;
  states = [];
  last_update = [];
  peak_equity = whole 10000;
  turnover_today = whole 0;
  violations = 0;
}

-- The order of the first bar is filled on the second, up to the cap of 50 shares.
abbrev ended : ℕ × ℕ × ℕ × Fixed
ended =
    let r = step_loop setup 5 engine in
    (r.0.summary.events_processed, r.0.summary.orders_submitted, r.0.summary.fills, r.0.pf.cash)

step_loop-chunks_example :
    step_loop setup (1 + 2) engine ≡ then_step setup (step_loop setup 1 engine) (step_loop setup 2)
step_loop-chunks_example = step_loop-chunks setup 1 2 engine

run-Ended_example : (a : Answer Fixed ℕ ℕ (RunSummary Fixed)) × (run setup 3 engine ≡ some a)
run-Ended_example = run-Ended setup engine 3 refl (ground arith)

step_loop-IsGated_example : IsGated (step_loop setup 5 engine).0
step_loop-IsGated_example = step_loop-IsGated setup 5 engine tt

run_script-IsQuiet_example : IsQuiet engine (run_script setup (buy_once 0) engine)
run_script-IsQuiet_example = run_script-IsQuiet setup (buy_once 0) engine

abbrev quote : Quote Fixed
quote = record {
  instrument = 4;
  time = record { exchange_time = 9000; receive_time = 9000 };
  bid = whole 19;
  ask = whole 20;
  bid_size = whole 500;
  ask_size = whole 500;
}

abbrev a_fill : Fill Fixed
a_fill = record {
  order_id = 1;
  parent_id = 0;
  instrument = 4;
  side = buy;
  price = whole 20;
  quantity = whole 100;
  commission = whole 1;
  exchange_fee = whole 0;
  liquidity = taker;
  times = no_times;
  arrival_price = whole 20;
}
