-- ===== src/Engine/Gated.antt =====
-- The gate to the venue over a whole run of src/engine/engine.cpp.
use predictive_trading_lab.Prelude.{
  ℕ, zero, suc, ◌+◌, ◌≡◌, refl, Bool, true, false, if_intro, Option, none, some, Result, ok, err,
  is_ok,
}
use predictive_trading_lab.Prelude.Double.{Double, d0}
use predictive_trading_lab.Core.Types.{Timestamp}
use predictive_trading_lab.Market.Events.{Bar, Quote}
use predictive_trading_lab.Market.Event.{
  MarketEvent, bar_event, quote_event, trade_event, action_event, session_event, timer_event,
  CorporateAction, CorporateActionKind, split_action, cash_dividend_action, SessionEvent,
  SessionEventKind, session_open, session_close,
}
use predictive_trading_lab.Engine.{Engine, Setup, Answer, state_of, bar_state, quote_state}
use predictive_trading_lab.Engine.Sink.{run_script}
use predictive_trading_lab.Engine.Handlers.{
  match_market, take_snapshot, handle_bar, handle_quote, handle_action, handle_session,
  handle_event, marked_bar, marked_quote,
}
use predictive_trading_lab.Core.Clock.{ClockError}
use predictive_trading_lab.Market.Source.{next}
use predictive_trading_lab.Engine.Follows.{
  IsGated, Follows, Follows-trans, run_script-Follows, match_market-Follows,
}
use predictive_trading_lab.Engine.Loop.{
  step_event, step_loop, on_event, on_pulled, pulled, after_handler, count_event,
}

module _ {D : Type 0} ⦃F : Double D⦄ {R S : Type 0} (setup : Setup D R S) where
  take_snapshot-Follows :
      (wanted : Bool) (e : Engine D R S) (ts : Timestamp)
      → Follows e (take_snapshot setup wanted e ts).0
  unfolding take_snapshot
  take_snapshot-Follows true e ts = (refl, refl, λ gated. gated)
  take_snapshot-Follows false e ts = (refl, refl, λ gated. gated)

  handle_bar-Follows : (e : Engine D R S) (bar : Bar D) → Follows e (handle_bar setup e bar).0
  unfolding handle_bar
  handle_bar-Follows e bar =
      let st = bar_state setup.config (state_of e.states bar.instrument) bar in
      let marked = marked_bar setup e bar in
      let matched = match_market setup marked bar.instrument st bar.close_time in
      let script = setup.strategy.on_bar bar matched.0.strategy in
      let acted = run_script setup script matched.0 in
      let counted : Engine D R S = record acted {
        summary = record (acted.summary) { bars = acted.summary.bars + 1 };
      } in
      let taken = take_snapshot setup setup.config.snapshot_on_bar counted bar.close_time in
      let at_venue : Follows e matched.0 =
        match_market-Follows setup marked bar.instrument st bar.close_time in
      let after : Follows matched.0 counted = run_script-Follows setup script matched.0 in
      let ended : Follows counted taken.0 =
        take_snapshot-Follows setup.config.snapshot_on_bar counted bar.close_time in
      if_intro (λ a. Follows e a.0) (is_ok matched.1) taken matched
        (Follows-trans e matched.0 taken.0 at_venue
          (Follows-trans matched.0 counted taken.0 after ended))
        at_venue

  handle_quote-Follows : (e : Engine D R S) (q : Quote D) → Follows e (handle_quote setup e q).0
  unfolding handle_quote
  handle_quote-Follows e q =
      let st = quote_state (state_of e.states q.instrument) q in
      let marked = marked_quote setup e q in
      let matched = match_market setup marked q.instrument st q.time.exchange_time in
      let script = setup.strategy.on_quote q matched.0.strategy in
      let acted = run_script setup script matched.0 in
      let counted : Engine D R S = record acted {
        summary = record (acted.summary) { quotes = acted.summary.quotes + 1 };
      } in
      let at_venue : Follows e matched.0 =
        match_market-Follows setup marked q.instrument st q.time.exchange_time in
      let after : Follows matched.0 counted = run_script-Follows setup script matched.0 in
      if_intro (λ a. Follows e a.0) (is_ok matched.1) (counted, ok true) matched
        (Follows-trans e matched.0 counted at_venue after) at_venue

  action_kind-Follows :
      (kind : CorporateActionKind) (e : Engine D R S) (c : CorporateAction D)
      → c.kind ≡ kind
      → Follows e (handle_action setup e c).0
  unfolding handle_action
  action_kind-Follows split_action e c h = rw (h, handle_action) (refl, refl, λ gated. gated)
  action_kind-Follows cash_dividend_action e c h =
      rw (h, handle_action) (refl, refl, λ gated. gated)

  session_kind-Follows :
      (kind : SessionEventKind) (e : Engine D R S) (s : SessionEvent)
      → s.kind ≡ kind
      → Follows e (handle_session setup e s).0
  unfolding handle_session
  session_kind-Follows session_open e s h =
      let fresh : Engine D R S = record e { turnover_today = d0 } in
      rw (h, handle_session)
        (run_script-Follows setup (setup.strategy.on_session_open s.time.exchange_time e.strategy)
          fresh)
  session_kind-Follows session_close e s h =
      let script = setup.strategy.on_session_close s.time.exchange_time e.strategy in
      let acted = run_script setup script e in
      let wanted = setup.config.snapshot_on_session_close in
      rw (h, handle_session)
        (Follows-trans e acted (take_snapshot setup wanted acted s.time.exchange_time).0
          (run_script-Follows setup script e)
          (take_snapshot-Follows wanted acted s.time.exchange_time))

  handle_event-Follows :
      (e : Engine D R S) (event : MarketEvent D) → Follows e (handle_event setup e event).0
  unfolding handle_event
  handle_event-Follows e (bar_event bar) = handle_bar-Follows e bar
  handle_event-Follows e (quote_event q) = handle_quote-Follows e q
  handle_event-Follows e (trade_event t) =
      run_script-Follows setup (setup.strategy.on_trade t e.strategy) e
  handle_event-Follows e (action_event c) = action_kind-Follows c.kind e c refl
  handle_event-Follows e (session_event s) = session_kind-Follows s.kind e s refl
  handle_event-Follows e (timer_event t) = (refl, refl, λ gated. gated)

  after_handler-Follows :
      (e : Engine D R S) (a : Answer D R S Bool)
      → Follows e a.0
      → Follows e (after_handler setup a).0
  after_handler-Follows e (f, err w) h = h
  after_handler-Follows e (f, ok b) h = h

  -- A round of the loop: beside the source, it keeps what the handlers keep.
  pub on_pulled-Follows :
      (e : Engine D R S) (r : Result ClockError (Option (MarketEvent D)))
      → Follows e (on_pulled setup e r).0
  on_pulled-Follows e (err w) = (refl, refl, λ gated. gated)
  on_pulled-Follows e (ok none) = (refl, refl, λ gated. gated)
  on_pulled-Follows e (ok (some event)) =
      let counted = count_event setup e event in
      after_handler-Follows e (handle_event setup counted event)
        (handle_event-Follows counted event)

  step_event-IsGated : (e : Engine D R S) → IsGated e → IsGated (step_event setup e).0
  unfolding step_event
  step_event-IsGated e h =
      let called = next e.source e.clock in
      (on_pulled-Follows (pulled setup e called.1 called.2) called.0).2 h

  on_event-All :
      (P : Engine D R S → Type 0) (one : Answer D R S Bool) (later : Answer D R S ℕ)
      → P one.0
      → P later.0
      → P (on_event setup one later).0
  on_event-All P (e, err w) later h k = h
  on_event-All P (e, ok false) later h k = h
  on_event-All P (e, ok true) (f, ok n) h k = k
  on_event-All P (e, ok true) (f, err w) h k = k

  -- However many events are processed, whatever the strategy does in its callbacks and whether a
  -- part reports an error: if the order manager knew every order that waits at the venue before,
  -- it knows them all afterwards.
  pub step_loop-IsGated : (n : ℕ) (e : Engine D R S) → IsGated e → IsGated (step_loop setup n e).0
  unfolding step_loop
  step_loop-IsGated zero e h = h
  step_loop-IsGated (suc n) e h =
      let one = step_event setup e in
      let gated = step_event-IsGated e h in
      on_event-All IsGated one (step_loop setup n one.0) gated (step_loop-IsGated n one.0 gated)
