-- ===== src/Market/Validator/Examples.antt =====
-- The theorem on clean streams at a concrete stream, for src/market/validator.cpp.
use predictive_trading_lab.Prelude.{
  ◌+◌, ltb, leb, ◌&&◌, if◌then◌else◌, ◌≡◌, refl, true, false, Option, none, some, List, [], ◌∷◌,
  length, All,
}
use predictive_trading_lab.Prelude.Map.{lookup, insert}
use predictive_trading_lab.Prelude.Double.{Fixed, fixed, lit, d0}
use predictive_trading_lab.Core.Types.{Timestamp}
use predictive_trading_lab.Core.Time.{EventTime}
use predictive_trading_lab.Market.Event.{
  MarketEvent, bar_event, quote_event, exchange_time_of, instrument_of, time_of,
}
use predictive_trading_lab.Market.Session.{Session, regular}
use predictive_trading_lab.Market.Source.Merge.Sorted.{IsChronological}
use predictive_trading_lab.Market.Validator.{
  ValidatorConfig, is_fatal, count_fatal, fatal_count, is_clean, needs_session, order_issues,
  session_issues, after_session, after_order, is_gap, state_of, sequence_issues, bar_issues,
  kind_issues, after_kind, event_issues, validate_from, validate,
}
use predictive_trading_lab.Market.Validator.Clean.{IsSane, validate-clean}

abbrev cfg : ValidatorConfig Fixed
cfg = record {
  expected_bar_timeframe = 10;
  max_abs_log_return = lit 1 5;
  require_complete_sessions = true;
  max_consecutive_zero_volume = 30;
  strict = false;
}

abbrev day : Session
day = record { date = 90; open_time = 100; close_time = 200; kind = regular }

abbrev calendar : Timestamp → Option Session
calendar t = if leb 100 t && ltb t 200 then some day else none

abbrev stamped : Timestamp → EventTime
stamped t = record { exchange_time = t; receive_time = t }

abbrev bar_at : Timestamp → MarketEvent Fixed
bar_at t = bar_event (record {
  instrument = 1;
  open_time = t;
  close_time = t + 10;
  time = stamped (t + 10);
  open_price = lit 10 1;
  high_price = lit 12 1;
  low_price = lit 9 1;
  close_price = lit 11 1;
  volume = lit 500 1;
})

abbrev quote_at : Timestamp → MarketEvent Fixed
quote_at t = quote_event (record {
  instrument = 1;
  time = stamped t;
  bid = lit 10 1;
  ask = lit 11 1;
  bid_size = lit 3 1;
  ask_size = lit 4 1;
})

-- Three events of one session; the second bar is three intervals after the first, which is a
-- warning.
abbrev events : List (MarketEvent Fixed)
events = bar_at 100 ∷ quote_at 115 ∷ bar_at 130 ∷ []

abbrev log : Fixed → Fixed
log x = d0

validate-clean_example :
    IsChronological events
    × All (IsSane cfg calendar) events
    × ((validate cfg log events (some calendar)).stats.events ≡ length events)
unfolding is_fatal count_fatal fatal_count is_clean needs_session order_issues session_issues
    after_session after_order is_gap state_of sequence_issues bar_issues kind_issues after_kind
    event_issues validate_from validate exchange_time_of instrument_of time_of lookup insert
validate-clean_example = validate-clean cfg calendar log events refl

-- The gap is reported, and nothing else.
one_warning : length (validate cfg log events (some calendar)).issues ≡ 1
unfolding is_fatal count_fatal fatal_count is_clean needs_session order_issues session_issues
    after_session after_order is_gap state_of sequence_issues bar_issues kind_issues after_kind
    event_issues validate_from validate exchange_time_of instrument_of time_of lookup insert
one_warning = refl
