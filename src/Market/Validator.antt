-- ===== src/Market/Validator.antt =====
-- include/ptl/market/validator.hpp and src/market/validator.cpp: the checks of a stream before it
-- is used. The issues are kept without their texts. `std::log` and what the calendar answers are
-- arguments. `timeframe` and `delta` are compared with lengths that are not negative, so they may
-- stop at 0.
pub mod Clean
mod Examples
use predictive_trading_lab.Prelude.{
  ℕ, ◌+◌, ◌-◌, ◌≡◌, Bool, true, false, not, ◌&&◌, ◌||◌, ◌==◌, if◌then◌else◌, ltb, Option, none,
  some, List, [], ◌∷◌, ◌++◌, length,
}
use predictive_trading_lab.Prelude.Map.{Map, lookup, insert}
use predictive_trading_lab.Prelude.Double.{Double, ◌⊘◌, ◌<?◌, ◌=?◌, abs, d0}
use predictive_trading_lab.Core.Types.{
  Timestamp, Duration, no_timestamp, is_set, InstrumentId, invalid_instrument,
}
use predictive_trading_lab.Market.Events.{Bar, Quote}
use predictive_trading_lab.Market.Event.{
  MarketEvent, bar_event, quote_event, trade_event, action_event, session_event, timer_event,
  exchange_time_of, instrument_of,
}
use predictive_trading_lab.Market.Session.{Session}

pub data IssueCode : Type 0 where
  non_monotonic_timestamp duplicate_timestamp gap_in_session outside_session : IssueCode
  unknown_session suspicious_price_jump zero_volume stale_quote crossed_quote : IssueCode
  timeframe_mismatch : IssueCode

pub data Severity : Type 0 where
  fatal warning : Severity

pub record ValidationIssue : Type 0 where
  pub code : IssueCode
  pub severity : Severity
  pub at : Timestamp
  pub instrument : InstrumentId

pub record ValidationStats : Type 0 where
  pub events : ℕ
  pub bars : ℕ
  pub quotes : ℕ
  pub trades : ℕ
  pub sessions : ℕ
  pub zero_volume_bars : ℕ
  pub first : Timestamp
  pub last : Timestamp

pub record ValidationReport : Type 0 where
  pub issues : List ValidationIssue
  pub stats : ValidationStats

pub record ValidatorConfig (D : Type 0) : Type 0 where
  pub expected_bar_timeframe : Duration
  pub max_abs_log_return : D
  pub require_complete_sessions : Bool
  pub max_consecutive_zero_volume : ℕ
  pub strict : Bool

pub record InstrumentState (D : Type 0) : Type 0 where
  pub last_bar_close : Timestamp
  pub last_close : D
  pub consecutive_zero_volume : ℕ

-- What `validate` carries from event to event, its issues apart.
pub record Scan (D : Type 0) : Type 0 where
  pub stats : ValidationStats
  pub states : Map (InstrumentState D)
  pub prev_ts : Timestamp
  pub current_session : Timestamp

unfoldable pub is_fatal : Severity → Bool
is_fatal fatal = true
is_fatal warning = false

unfoldable pub count_fatal : List ValidationIssue → ℕ
count_fatal [] = 0
count_fatal (issue ∷ issues) =
    let rest = count_fatal issues in if is_fatal issue.severity then rest + 1 else rest

unfoldable pub fatal_count : ValidationReport → ℕ
fatal_count report = count_fatal report.issues

unfoldable pub warning_count : ValidationReport → ℕ
warning_count report = length report.issues - fatal_count report

unfoldable pub is_clean : ValidationReport → Bool
is_clean report = fatal_count report == 0

-- `add`, where a check finds something.
abbrev pub issue_if : Bool → IssueCode → Severity → Timestamp → InstrumentId → List ValidationIssue
issue_if false code severity at id = []
issue_if true code severity at id =
    record { code = code; severity = severity; at = at; instrument = id } ∷ []

abbrev pub Calendar : Type 0
Calendar = Option (Timestamp → Option Session)

abbrev pub is_outside : Option Session → Bool
is_outside none = true
is_outside (some s) = false

abbrev pub same_date : Option Session → Option Session → Bool
same_date none s = false
same_date (some r) none = false
same_date (some r) (some s) = r.date == s.date

module _ {D : Type 0} where
  abbrev pub warn : ValidatorConfig D → Severity
  warn cfg = if cfg.strict then fatal else warning

  -- Bars, quotes and trades are checked against the sessions.
  unfoldable pub needs_session : MarketEvent D → Bool
  needs_session (bar_event b) = true
  needs_session (quote_event q) = true
  needs_session (trade_event t) = true
  needs_session _ = false

  unfoldable pub order_issues : Scan D → MarketEvent D → List ValidationIssue
  order_issues scan e =
      let ts = exchange_time_of e in
      issue_if (is_set scan.prev_ts && ltb ts scan.prev_ts) non_monotonic_timestamp fatal ts
        (instrument_of e)

  unfoldable pub session_issues : Calendar → MarketEvent D → List ValidationIssue
  session_issues none e = []
  session_issues (some session_containing) e =
      let ts = exchange_time_of e in
      issue_if (needs_session e && is_outside (session_containing ts)) outside_session fatal ts
        (instrument_of e)

  -- The session that the event is in, counted where it is a new one.
  abbrev pub enter : Option Session → Scan D → Scan D
  enter none scan = scan
  enter (some s) scan = if s.date == scan.current_session then scan else record scan {
    current_session = s.date;
    stats = record (scan.stats) { sessions = scan.stats.sessions + 1 };
  }

  unfoldable pub after_session : Calendar → MarketEvent D → Scan D → Scan D
  after_session none e scan = scan
  after_session (some session_containing) e scan =
      if needs_session e then enter (session_containing (exchange_time_of e)) scan else scan

  -- The counts of the stream, and the stamp that the next event is compared with.
  unfoldable pub after_order : MarketEvent D → Scan D → Scan D
  after_order e scan =
      let ts = exchange_time_of e in
      record scan {
        prev_ts = ts;
        stats = record (scan.stats) {
          events = scan.stats.events + 1;
          first = if is_set scan.stats.first then scan.stats.first else ts;
          last = ts;
        };
      }

  -- A bar that is missing inside a session.
  unfoldable pub is_gap :
      ValidatorConfig D → Calendar → InstrumentState D → Bar D → Timestamp → Bool
  is_gap cfg none st bar ts = false
  is_gap cfg (some session_containing) st bar ts =
      cfg.require_complete_sessions
      && same_date (session_containing (st.last_bar_close - 1)) (session_containing ts)
      && ltb cfg.expected_bar_timeframe (bar.close_time - st.last_bar_close)

module _ {D : Type 0} ⦃F : Double D⦄ where
  abbrev pub fresh_state : InstrumentState D
  fresh_state = record {
    last_bar_close = no_timestamp;
    last_close = d0;
    consecutive_zero_volume = 0;
  }

  -- `state[index]`, which is made where it is absent.
  unfoldable pub state_of : Scan D → InstrumentId → InstrumentState D
  state_of scan id = elim (lookup id scan.states) [ none ↦ fresh_state | some st ↦ st ]

  -- Against the bar before, where there is one.
  unfoldable pub sequence_issues :
      ValidatorConfig D
      → (D → D)
      → Calendar
      → InstrumentState D
      → Bar D
      → Timestamp
      → List ValidationIssue
  sequence_issues cfg log cal st bar ts =
      if not (is_set st.last_bar_close)
      then []
      else (if bar.close_time == st.last_bar_close
          then issue_if true duplicate_timestamp fatal ts bar.instrument
          else issue_if (is_gap cfg cal st bar ts) gap_in_session (warn cfg) ts bar.instrument)
        ++ issue_if (cfg.max_abs_log_return <? abs (log (bar.close_price ⊘ st.last_close)))
            suspicious_price_jump fatal ts bar.instrument

  abbrev pub zero_run : InstrumentState D → Bar D → ℕ
  zero_run st bar = if bar.volume =? d0 then st.consecutive_zero_volume + 1 else 0

  unfoldable pub bar_issues :
      ValidatorConfig D
      → (D → D)
      → Calendar
      → InstrumentState D
      → Bar D
      → Timestamp
      → List ValidationIssue
  bar_issues cfg log cal st bar ts =
      issue_if
        (ltb 0 cfg.expected_bar_timeframe
          && not (bar.close_time - bar.open_time == cfg.expected_bar_timeframe))
        timeframe_mismatch fatal ts bar.instrument
      ++ sequence_issues cfg log cal st bar ts
      ++ issue_if ((bar.volume =? d0) && (zero_run st bar == cfg.max_consecutive_zero_volume))
          zero_volume (warn cfg) ts bar.instrument

  unfoldable pub kind_issues :
      ValidatorConfig D → (D → D) → Calendar → Scan D → MarketEvent D → List ValidationIssue
  kind_issues cfg log cal scan (bar_event bar) =
      bar_issues cfg log cal (state_of scan bar.instrument) bar (exchange_time_of (bar_event bar))
  kind_issues cfg log cal scan (quote_event q) =
      issue_if (q.ask <? q.bid) crossed_quote fatal (exchange_time_of (quote_event q)) q.instrument
  kind_issues cfg log cal scan _ = []

  unfoldable pub after_kind : MarketEvent D → Scan D → Scan D
  after_kind (bar_event bar) scan =
      let empty = bar.volume =? d0 in
      record scan {
        states =
            insert bar.instrument
              (record {
                last_bar_close = bar.close_time;
                last_close = bar.close_price;
                consecutive_zero_volume = zero_run (state_of scan bar.instrument) bar;
              })
              scan.states;
        stats = record (scan.stats) {
          bars = scan.stats.bars + 1;
          zero_volume_bars =
              if empty then scan.stats.zero_volume_bars + 1 else scan.stats.zero_volume_bars;
        };
      }
  after_kind (quote_event q) scan = record scan {
    stats = record (scan.stats) { quotes = scan.stats.quotes + 1 };
  }
  after_kind (trade_event t) scan = record scan {
    stats = record (scan.stats) { trades = scan.stats.trades + 1 };
  }
  after_kind _ scan = scan

  unfoldable pub event_issues :
      ValidatorConfig D → (D → D) → Calendar → Scan D → MarketEvent D → List ValidationIssue
  event_issues cfg log cal scan e =
      order_issues scan e ++ session_issues cal e ++ kind_issues cfg log cal scan e

  abbrev pub after_event : Calendar → MarketEvent D → Scan D → Scan D
  after_event cal e scan = after_kind e (after_session cal e (after_order e scan))

  unfoldable pub validate_from :
      ValidatorConfig D → (D → D) → Calendar → Scan D → List (MarketEvent D) → ValidationReport
  validate_from cfg log cal scan [] = record { issues = []; stats = scan.stats }
  validate_from cfg log cal scan (e ∷ events) =
      let rest = validate_from cfg log cal (after_event cal e scan) events in
      record rest { issues = event_issues cfg log cal scan e ++ rest.issues }

  abbrev pub fresh_scan : Scan D
  fresh_scan = record {
    stats = record {
      events = 0;
      bars = 0;
      quotes = 0;
      trades = 0;
      sessions = 0;
      zero_volume_bars = 0;
      first = no_timestamp;
      last = no_timestamp;
    };
    states = [];
    prev_ts = no_timestamp;
    current_session = no_timestamp;
  }

  abbrev pub calendar_issues : ValidatorConfig D → Calendar → List ValidationIssue
  calendar_issues cfg (some session_containing) = []
  calendar_issues cfg none =
      issue_if true unknown_session (warn cfg) no_timestamp invalid_instrument

  unfoldable pub validate :
      ValidatorConfig D → (D → D) → List (MarketEvent D) → Calendar → ValidationReport
  validate cfg log events cal =
      let report = validate_from cfg log cal fresh_scan events in
      record report { issues = calendar_issues cfg cal ++ report.issues }
