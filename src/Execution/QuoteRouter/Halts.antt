-- ===== src/Execution/QuoteRouter/Halts.antt =====
-- When an order may execute, and at which prices (`QuoteRouter` in src/execution/quote_book.cpp).
use predictive_trading_lab.Prelude.{
  ◌≡◌, ◌≢◌, ◌∙◌, sym, ◌⊎◌, inl, inr, refl, true, false, ◌&&◌, some, List, arith,
}
use predictive_trading_lab.Prelude.Double.{Double}
use predictive_trading_lab.Prelude.Map.{lookup, lookup-insert_self}
use predictive_trading_lab.Core.Types.{Timestamp, InstrumentId}
use predictive_trading_lab.Market.Events.{Bar, Quote}
use predictive_trading_lab.Execution.QuoteModels.{
  TradingState, halted, is_halted, QuoteState, executable,
}
use predictive_trading_lab.Execution.QuoteBook.{
  QuoteBook, QuoteBookConfig, quote_book, set_trading_state, entry_at, state_at, Entry,
}
use predictive_trading_lab.Execution.QuoteBook.Trace.{Call, run}
use predictive_trading_lab.Execution.QuoteBook.Reads.{IsCurrent, executable-IsCurrent}
use predictive_trading_lab.Execution.QuoteRouter.{
  from_quote, no_source, route_state, route, route_from_bar, route_preferring_quote,
}

true≢false : true ≢ false
true≢false e = cc

module _ {D : Type 0} ⦃F : Double D⦄ where
  route_state-quote :
      (s : QuoteState D) (q : Quote D)
      → s.quote ≡ some q
      → executable s ≡ true
      → ((route_state s).source ≡ from_quote)
        × ((route_state s).state.bid ≡ q.bid)
        × ((route_state s).state.ask ≡ q.ask)
  unfolding route_state
  route_state-quote s q held h = rw (h, held) (refl, refl, refl)

  route_state-executable : (s : QuoteState D) → (route_state s).executable ≡ executable s
  unfolding route_state
  route_state-executable s = ground arith

  -- An executable route is priced by a quote of the instrument that is not from the future, not
  -- too old and not crossed, whatever calls made the book.
  pub route-IsCurrent :
      (config : QuoteBookConfig) (calls : List (Call D)) (i : InstrumentId) (now : Timestamp)
      → (route (run (quote_book config) calls) i now).executable ≡ true
      → let b = run (quote_book config) calls in
        (q : Quote D) × IsCurrent b i now (state_at b i now).1 q
        × ((route b i now).state.bid ≡ q.bid)
        × ((route b i now).state.ask ≡ q.ask)
  unfolding route
  route-IsCurrent config calls i now h =
      let s = (state_at (run (quote_book config) calls) i now).1 in
      let runs = sym (route_state-executable s) ∙ h in
      let (q, current) = executable-IsCurrent config calls i now runs in
      let priced = route_state-quote s q current.held runs in (q, current, priced.1, priced.2)

  -- An order is priced from the book's quote exactly where its state is executable; else from the
  -- bar, unless a quote is present and the instrument halted: then nothing executes.
  pub route_preferring_quote-source :
      (b : QuoteBook D) (bar : Bar D) (volatility : D) (now : Timestamp)
      → let s = (state_at b bar.instrument now).1 in
        let routed = route_preferring_quote b bar volatility now in
        ((executable s ≡ true) × (routed.source ≡ from_quote) × (routed.executable ≡ true))
        ⊎ ((executable s ≡ false)
            × (s.present ≡ true)
            × (is_halted s.trading_state ≡ true)
            × (routed.source ≡ no_source)
            × (routed.executable ≡ false))
        ⊎ ((executable s ≡ false)
            × ((s.present && is_halted s.trading_state) ≡ false)
            × (routed ≡ route_from_bar bar volatility))
  unfolding route_preferring_quote route route_state
  route_preferring_quote-source b bar volatility now = ground arith

  state_at-absent :
      (b : QuoteBook D) (i : InstrumentId) (now : Timestamp) (e : Entry D)
      → lookup i b.entries ≡ some e
      → e.present ≡ false
      → (state_at b i now).1.present ≡ false
  unfolding state_at
  state_at-absent b i now e found gone = rw (found, state_at, gone) refl

  set_trading_state-absent :
      (b : QuoteBook D) (i : InstrumentId) (state : TradingState) (now : Timestamp)
      → (entry_at i b.entries).present ≡ false
      → (state_at (set_trading_state b i state) i now).1.present ≡ false
  unfolding set_trading_state
  set_trading_state-absent b i state now empty =
      state_at-absent (set_trading_state b i state) i now _ (lookup-insert_self i _ b.entries) empty

  executable-present : (s : QuoteState D) → executable s ≡ true → s.present ≡ true
  unfolding executable
  executable-present s h = ground arith

  -- An instrument without a quote that is halted executes all the same: the order is priced from
  -- the bar.
  pub halt_before_quote :
      (b : QuoteBook D) (bar : Bar D) (volatility : D) (now : Timestamp)
      → (entry_at bar.instrument b.entries).present ≡ false
      → route_preferring_quote (set_trading_state b bar.instrument halted) bar volatility now
        ≡ route_from_bar bar volatility
  halt_before_quote b bar volatility now empty =
      let halt = set_trading_state b bar.instrument halted in
      let gone = set_trading_state-absent b bar.instrument halted now empty in
      elim (route_preferring_quote-source halt bar volatility now) [
        | inl (runs, source, on) ↦ absurd (true≢false (sym (executable-present _ runs) ∙ gone))
        | inr (inl (stopped, there, halts, source, off)) ↦ absurd (true≢false (sym there ∙ gone))
        | inr (inr (stopped, quiet, barred)) ↦ barred
      ]
