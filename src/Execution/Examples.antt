-- ===== src/Execution/Examples.antt =====
-- Tests of market events, the quote book and the router, and their theorems at inputs.
use predictive_trading_lab.Prelude.{ℕ, ◌*◌, ◌≡◌, refl, true, false, List, [], ◌∷◌, ok}
use predictive_trading_lab.Prelude.Int.{pos}
use predictive_trading_lab.Prelude.Double.{Fixed, fin, fixed, is_finite}
use predictive_trading_lab.Prelude.Map.{lookup, insert}
use predictive_trading_lab.Market.Events.{Bar, Quote, from_left_edge, make, sane_price}
use predictive_trading_lab.Execution.QuoteModels.{trading, halted, one_second, executable}
use predictive_trading_lab.Execution.QuoteBook.{
  QuoteBookConfig, QuoteBook, quote_book, update, set_trading_state, state_at, read_entry, entry_at,
}
use predictive_trading_lab.Execution.QuoteBook.Trace.{Call, updates, states, reads, run}
use predictive_trading_lab.Execution.QuoteBook.Reads.{IsCurrent, executable-IsCurrent}
use predictive_trading_lab.Execution.QuoteRouter.{route, route_state}
use predictive_trading_lab.Execution.QuoteRouter.Halts.{route-IsCurrent}

abbrev units : ℕ → Fixed
units n = fin (pos (n * 1_000_000_000))

abbrev minute_bar : Bar Fixed
minute_bar = record {
  instrument = 3;
  open_time = 100;
  close_time = 160;
  time = record { exchange_time = 160; receive_time = 165 };
  open_price = units 50;
  high_price = units 52;
  low_price = units 49;
  close_price = units 51;
  volume = units 900;
}

minute_made :
    from_left_edge 3 100 60 (units 50) (units 52) (units 49) (units 51) (units 900) 5
    ≡ ok minute_bar
unfolding from_left_edge make sane_price is_finite
minute_made = refl

abbrev tight : QuoteBookConfig
tight = record { tier = one_second; staleness_budget = 30; reject_crossed = true }

abbrev quoted : ℕ → ℕ → ℕ → Quote Fixed
quoted time bid ask = record {
  instrument = 3;
  time = record { exchange_time = time; receive_time = time };
  bid = units bid;
  ask = units ask;
  bid_size = units 1;
  ask_size = units 1;
}

-- A quote at 100; one from before it is refused.
abbrev feed : List (Call Fixed)
feed = updates (quoted 100 50 51) ∷ updates (quoted 90 40 41) ∷ states 3 trading ∷ []

abbrev later : List (Call Fixed)
later = updates (quoted 120 52 53) ∷ reads 3 130 ∷ states 3 halted ∷ []

abbrev fed : QuoteBook Fixed
fed = run (quote_book tight) feed

fed_executable : executable (state_at fed 3 125).1 ≡ true
unfolding run executable state_at lookup set_trading_state insert update entry_at read_entry
fed_executable = refl

fed_late : executable (state_at fed 3 131).1 ≡ false
unfolding run executable state_at lookup set_trading_state insert update entry_at read_entry
fed_late = refl

executable-IsCurrent_example :
    (q : Quote Fixed) × IsCurrent
      (run (quote_book tight) feed)
      3
      125
      (state_at (run (quote_book tight) feed) 3 125).1
      q
executable-IsCurrent_example = executable-IsCurrent tight feed 3 125 fed_executable

route_executable : (route (run (quote_book tight) feed) 3 125).executable ≡ true
unfolding route run route_state executable state_at lookup set_trading_state insert update entry_at
    read_entry
route_executable = refl

route-IsCurrent_example :
    let b = run (quote_book tight) feed in
    (q : Quote Fixed) × IsCurrent b 3 125 (state_at b 3 125).1 q
    × ((route b 3 125).state.bid ≡ q.bid)
    × ((route b 3 125).state.ask ≡ q.ask)
route-IsCurrent_example = route-IsCurrent tight feed 3 125 route_executable

nothing_held : (entry_at 3 (quote_book {D = Fixed} tight).entries).present ≡ false
unfolding entry_at lookup
nothing_held = refl
