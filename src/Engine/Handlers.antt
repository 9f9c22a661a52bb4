-- ===== src/Engine/Handlers.antt =====
-- What src/engine/engine.cpp does with an event of each kind, and with the fills of the venue.
use predictive_trading_lab.Prelude.{
  ◌+◌, Bool, true, not, if◌then◌else◌, List, [], ◌∷◌, ok, err, is_ok,
}
use predictive_trading_lab.Prelude.Map.{insert}
use predictive_trading_lab.Prelude.Double.{Double, ◌⊕◌, ◌⊗◌, abs, d0}
use predictive_trading_lab.Core.Types.{Timestamp, InstrumentId}
use predictive_trading_lab.Market.Events.{Bar, Quote}
use predictive_trading_lab.Market.Event.{
  MarketEvent, bar_event, quote_event, trade_event, action_event, session_event, timer_event,
  CorporateAction, split_action, cash_dividend_action, SessionEvent, session_open, session_close,
}
use predictive_trading_lab.Oms.Fill.{Fill}
use predictive_trading_lab.Oms.Manager.{apply_fill}
use predictive_trading_lab.Portfolio.{
  apply, apply_split, apply_dividend, mark_last, mark_from_quote, snapshot,
}
use predictive_trading_lab.Execution.QuoteRouter.{MarketState}
use predictive_trading_lab.Execution.Broker.Matching.{on_market}
use predictive_trading_lab.Accounting.Journal.{record_fill}
use predictive_trading_lab.Engine.Callbacks.{from_manager, from_broker, from_portfolio}
use predictive_trading_lab.Engine.{Engine, Setup, Answer, state_of, bar_state, quote_state}
use predictive_trading_lab.Engine.Sink.{context, run_script}

module _ {D : Type 0} ⦃F : Double D⦄ {R S : Type 0} (setup : Setup D R S) where
  -- The bookings of a fill, from the answers of the order manager and the portfolio.
  abbrev pub booked_fill : Engine D R S → Fill D → Engine D R S
  booked_fill e f =
      let booked : Engine D R S = record e {
        journal = record_fill e.journal f;
        turnover_today = e.turnover_today ⊕ abs (f.price ⊗ f.quantity);
        summary = record (e.summary) { fills = e.summary.fills + 1 };
      } in
      record booked { strategy = setup.strategy.on_fill f (context setup booked) e.strategy }

  unfoldable pub dispatch_fill : Engine D R S → Fill D → Answer D R S Bool
  dispatch_fill e f =
      let managed = apply_fill e.orders f in
      let with_orders : Engine D R S = record e { orders = managed.0 } in
      let held = apply e.pf f in
      let with_pf : Engine D R S = record with_orders { pf = held.0 } in
      elim managed.1 [
        | err w ↦ (with_orders, err (from_manager w))
        | ok _ ↦ elim held.1 [
          | err w ↦ (with_pf, err (from_portfolio w))
          | ok _ ↦ (booked_fill with_pf f, ok true)
        ]
      ]

  unfoldable pub dispatch_fills : Engine D R S → List (Fill D) → Answer D R S Bool
  dispatch_fills e [] = (e, ok true)
  dispatch_fills e (f ∷ fills) =
      let one = dispatch_fill e f in
      let rest = dispatch_fills one.0 fills in if is_ok one.1 then rest else one

  -- The fills of a market that is marked, before the strategy sees it.
  unfoldable pub match_market :
      Engine D R S → InstrumentId → MarketState D → Timestamp → Answer D R S Bool
  match_market e instrument st now =
      let matched = on_market setup.costs setup.fills e.broker instrument st now in
      let venue : Engine D R S = record e { broker = matched.0 } in
      elim matched.1 [
        | err w ↦ (venue, err (from_broker w))
        | ok fills ↦ dispatch_fills venue fills
      ]

  unfoldable pub take_snapshot : Bool → Engine D R S → Timestamp → Answer D R S Bool
  take_snapshot wanted e ts =
      let taken = snapshot e.pf ts in
      if not wanted then (e, ok true) else (
        record e { pf = taken.0 },
        elim taken.1 [ ok point ↦ ok true | err w ↦ err (from_portfolio w) ],
      )

  abbrev pub marked_bar : Engine D R S → Bar D → Engine D R S
  marked_bar e bar = record e {
    states =
        insert bar.instrument (bar_state setup.config (state_of e.states bar.instrument) bar)
          e.states;
    last_update = insert bar.instrument bar.close_time e.last_update;
    pf = mark_last e.pf bar.instrument bar.close_price;
  }

  unfoldable pub handle_bar : Engine D R S → Bar D → Answer D R S Bool
  handle_bar e bar =
      let st = bar_state setup.config (state_of e.states bar.instrument) bar in
      let matched = match_market (marked_bar e bar) bar.instrument st bar.close_time in
      let acted = run_script setup (setup.strategy.on_bar bar matched.0.strategy) matched.0 in
      let counted : Engine D R S = record acted {
        summary = record (acted.summary) { bars = acted.summary.bars + 1 };
      } in
      if is_ok matched.1
      then take_snapshot setup.config.snapshot_on_bar counted bar.close_time
      else matched

  abbrev pub marked_quote : Engine D R S → Quote D → Engine D R S
  marked_quote e q = record e {
    states = insert q.instrument (quote_state (state_of e.states q.instrument) q) e.states;
    last_update = insert q.instrument q.time.exchange_time e.last_update;
    pf = mark_from_quote e.pf q;
  }

  unfoldable pub handle_quote : Engine D R S → Quote D → Answer D R S Bool
  handle_quote e q =
      let st = quote_state (state_of e.states q.instrument) q in
      let matched = match_market (marked_quote e q) q.instrument st q.time.exchange_time in
      let acted = run_script setup (setup.strategy.on_quote q matched.0.strategy) matched.0 in
      let counted : Engine D R S = record acted {
        summary = record (acted.summary) { quotes = acted.summary.quotes + 1 };
      } in
      if is_ok matched.1 then (counted, ok true) else matched

  unfoldable pub handle_action : Engine D R S → CorporateAction D → Answer D R S Bool
  handle_action e c = elim c.kind [
    | split_action ↦
        let split = apply_split e.pf c.instrument c.split_ratio in
        (record e { pf = split.0 }, elim split.1 [ ok b ↦ ok b | err w ↦ err (from_portfolio w) ])
    | cash_dividend_action ↦
        (record e { pf = apply_dividend e.pf c.instrument c.dividend_amount }, ok true)
  ]

  unfoldable pub handle_session : Engine D R S → SessionEvent → Answer D R S Bool
  handle_session e s = elim s.kind [
    | session_open ↦ (
      run_script setup (setup.strategy.on_session_open s.time.exchange_time e.strategy)
          (record e { turnover_today = d0 }),
      ok true,
    )
    | session_close ↦
        take_snapshot setup.config.snapshot_on_session_close
          (run_script setup (setup.strategy.on_session_close s.time.exchange_time e.strategy) e)
          s.time.exchange_time
  ]

  unfoldable pub handle_event : Engine D R S → MarketEvent D → Answer D R S Bool
  handle_event e (bar_event bar) = handle_bar e bar
  handle_event e (quote_event q) = handle_quote e q
  handle_event e (trade_event t) =
      (run_script setup (setup.strategy.on_trade t e.strategy) e, ok true)
  handle_event e (action_event c) = handle_action e c
  handle_event e (session_event s) = handle_session e s
  handle_event e (timer_event t) = (e, ok true)
