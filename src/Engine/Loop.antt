-- ===== src/Engine/Loop.antt =====
-- The dispatch loop of src/engine/engine.cpp: `begin`, `step`, `finish` and `run`.
pub mod Chunks
pub mod Ends
use predictive_trading_lab.Prelude.{
  ℕ, zero, suc, ◌+◌, ◌-◌, ◌^◌, Bool, true, false, not, ◌&&◌, if◌then◌else◌, Option, none, some,
  List, [], ◌∷◌, Result, ok, err, Text, is_ok,
}
use predictive_trading_lab.Prelude.Int.{ℤ, pos, sub_ℕ}
use predictive_trading_lab.Prelude.Map.{Map, lookup, insert}
use predictive_trading_lab.Prelude.Double.{Double, ◌⊕◌, ◌⊖◌, ◌⊗◌, ◌⊘◌, ◌<?◌, abs, lit, d0}
use predictive_trading_lab.Core.Types.{Timestamp, no_timestamp, is_set, InstrumentId}
use predictive_trading_lab.Core.Clock.{SimulatedClock, ClockError}
use predictive_trading_lab.Market.Events.{Bar, Quote}
use predictive_trading_lab.Market.Event.{
  MarketEvent, bar_event, quote_event, trade_event, action_event, session_event, timer_event,
  CorporateAction, split_action, cash_dividend_action, SessionEvent, session_open, session_close,
  exchange_time_of,
}
use predictive_trading_lab.Market.Source.{ReplaySource, next}
use predictive_trading_lab.Oms.Order.{OrderId, Order, with_arrival_price}
use predictive_trading_lab.Oms.Fill.{Fill}
use predictive_trading_lab.Oms.State.{OrderState, pending_new, working, cancelled, rejected}
use predictive_trading_lab.Oms.Manager.{OrderManager, ManagerError, transition, apply_fill, next_id}
use predictive_trading_lab.Oms.Manager
use predictive_trading_lab.Portfolio.{
  Portfolio, PortfolioError, apply, apply_split, apply_dividend, mark_last, mark_from_quote, equity,
  snapshot, unrealized_pnl, identity_holds, default_tolerance,
}
use predictive_trading_lab.Risk.{
  RiskLimits, RiskContext, RejectCode, RiskDecision, approved, check_order, record_code,
  code_number,
}
use predictive_trading_lab.Execution.QuoteRouter.{MarketState, default_state}
use predictive_trading_lab.Execution.Models.{FillConfig, CostModel, LatencyModel, mid}
use predictive_trading_lab.Execution.Broker.{Broker, BrokerError}
use predictive_trading_lab.Execution.Broker
use predictive_trading_lab.Execution.Broker.Matching.{on_market}
use predictive_trading_lab.Accounting.Journal.{
  Journal, JournalEntry, order_submitted, append, record_fill, record_risk_rejection, match_trades,
  reconcile, balances,
}
use predictive_trading_lab.Engine.Callbacks.{
  EngineError, refused_by_risk, from_manager, from_broker, from_portfolio, from_clock, not_started,
  Context, Script, done, look, ask_id, place, withdraw, Strategy,
}
use predictive_trading_lab.Engine.{
  EngineConfig, RunSummary, Engine, Setup, Answer, is_approved, empty_summary, state_of, age_of,
  bar_state, quote_state, submitted_entry, risk_context,
}
use predictive_trading_lab.Engine.Sink.{context}
use predictive_trading_lab.Engine.Handlers.{handle_event}

module _ {D : Type 0} ⦃F : Double D⦄ {R S : Type 0} (setup : Setup D R S) where
  unfoldable pub begin : Engine D R S → Answer D R S Bool
  begin e =
      let ready : Engine D R S = record e {
        violations = 0;
        summary = empty_summary;
        peak_equity = equity e.pf;
        started = true;
      } in
      elim (setup.strategy.on_start (context setup ready) ready.strategy) [
        | err w ↦ (ready, err w)
        | ok s ↦ (record ready { strategy = s }, ok true)
      ]

  abbrev pub count_event : Engine D R S → MarketEvent D → Engine D R S
  count_event e event =
      let ts = exchange_time_of event in
      record e {
        summary = record (e.summary) {
          events_processed = e.summary.events_processed + 1;
          first_event = if is_set e.summary.first_event then e.summary.first_event else ts;
          last_event = ts;
        };
      }

  abbrev pub raise_peak : Engine D R S → Engine D R S
  raise_peak e = record e {
    peak_equity = if e.peak_equity <? equity e.pf then equity e.pf else e.peak_equity;
  }

  abbrev pub after_handler : Answer D R S Bool → Answer D R S Bool
  after_handler (e, err w) = (e, err w)
  after_handler (e, ok b) = (raise_peak e, ok true)

  abbrev pub pulled : Engine D R S → ReplaySource D → SimulatedClock → Engine D R S
  pulled e source clock = record e { source = source; clock = clock }

  -- An exception of the clock leaves `step`.
  abbrev pub on_pulled :
      Engine D R S → Result ClockError (Option (MarketEvent D)) → Answer D R S Bool
  on_pulled e (err w) = (e, err (from_clock w))
  on_pulled e (ok none) = (e, ok false)
  on_pulled e (ok (some event)) = after_handler (handle_event setup (count_event e event) event)

  -- A round of the loop, with whether it found an event.
  unfoldable pub step_event : Engine D R S → Answer D R S Bool
  step_event e =
      let called = next e.source e.clock in on_pulled (pulled e called.1 called.2) called.0

  abbrev pub add_one : Answer D R S ℕ → Answer D R S ℕ
  add_one (e, ok n) = (e, ok (suc n))
  add_one (e, err w) = (e, err w)

  abbrev pub on_event : Answer D R S Bool → Answer D R S ℕ → Answer D R S ℕ
  on_event (e, err w) later = (e, err w)
  on_event (e, ok false) later = (e, ok 0)
  on_event (e, ok true) later = add_one later

  -- The loop of `step`: at most `n` events, and how many there were.
  unfoldable pub step_loop : ℕ → Engine D R S → Answer D R S ℕ
  step_loop zero e = (e, ok 0)
  step_loop (suc n) e = let one = step_event e in on_event one (step_loop n one.0)

  unfoldable pub step : ℕ → Engine D R S → Answer D R S ℕ
  step max_events e = if not e.started then (e, err not_started) else step_loop max_events e

  unfoldable pub finish : Engine D R S → Engine D R S × RunSummary D
  finish e =
      let stopped : Engine D R S = record e {
        strategy = setup.strategy.on_stop (context setup e) e.strategy;
      } in
      let journal = match_trades e.journal in
      let recon = reconcile journal e.pf.realized (unrealized_pnl e.pf) in
      let summary : RunSummary D = record (e.summary) {
        final_equity = equity e.pf;
        chain_violations = e.violations;
        reconciled = balances recon default_tolerance && identity_holds e.pf default_tolerance;
      } in
      (record stopped { journal = journal; summary = summary }, summary)

  abbrev pub then_finish : Engine D R S → Answer D R S (RunSummary D)
  then_finish e = let finished = finish e in (finished.0, ok finished.1)

  -- The loop of `run`, for at most `fuel` chunks; `none` where they are not enough.
  unfoldable pub run_loop : ℕ → Engine D R S → Option (Answer D R S (RunSummary D))
  run_loop zero e = none
  run_loop (suc fuel) e =
      let stepped = step 1024 e in
      let rest = run_loop fuel stepped.0 in
      elim stepped.1 [
        | err w ↦ some (stepped.0, err w)
        | ok zero ↦ some (then_finish stepped.0)
        | ok (suc n) ↦ rest
      ]

  unfoldable pub run : ℕ → Engine D R S → Option (Answer D R S (RunSummary D))
  run fuel e =
      let begun = begin e in
      elim begun.1 [ err w ↦ some (begun.0, err w) | ok b ↦ run_loop fuel begun.0 ]
