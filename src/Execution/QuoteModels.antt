-- ===== src/Execution/QuoteModels.antt =====
-- include/ptl/execution/quote_models.hpp, with its functions in src/execution/quote_book.cpp: the
-- state of a quote and when an order may execute against it.
use predictive_trading_lab.Prelude.{Bool, true, false, not, ◌&&◌, if◌then◌else◌, Option, none, some}
use predictive_trading_lab.Prelude.Int.{ℤ}
use predictive_trading_lab.Core.Types.{Duration, seconds}
use predictive_trading_lab.Market.Events.{Quote}

pub data QuoteCondition : Type 0 where
  normal locked crossed stale absent : QuoteCondition

pub data TradingState : Type 0 where
  trading halted closed auction : TradingState

pub data QuoteTier : Type 0 where
  one_minute one_second continuous : QuoteTier

unfoldable pub default_staleness_budget : QuoteTier → Duration
default_staleness_budget one_minute = seconds 60
default_staleness_budget one_second = seconds 2
default_staleness_budget continuous = seconds 5

pub record QuoteState (D : Type 0) : Type 0 where
  pub quote : Option (Quote D)
  pub condition : QuoteCondition
  pub trading_state : TradingState
  pub tier : QuoteTier
  pub age : ℤ
  pub present : Bool

abbrev pub is_trading : TradingState → Bool
is_trading trading = true
is_trading _ = false

abbrev pub is_halted : TradingState → Bool
is_halted halted = true
is_halted _ = false

abbrev pub is_priced : QuoteCondition → Bool
is_priced normal = true
is_priced locked = true
is_priced _ = false

unfoldable pub executable : {D : Type 0} → QuoteState D → Bool
executable s = s.present && is_trading s.trading_state && is_priced s.condition

pub data Refusal : Type 0 where
  no_quote instrument_halted market_closed in_auction quote_crossed quote_stale : Refusal

abbrev pub condition_refusal : QuoteCondition → Option Refusal
condition_refusal crossed = some quote_crossed
condition_refusal stale = some quote_stale
condition_refusal absent = some no_quote
condition_refusal _ = none

abbrev pub trading_refusal : TradingState → QuoteCondition → Option Refusal
trading_refusal halted c = some instrument_halted
trading_refusal closed c = some market_closed
trading_refusal auction c = some in_auction
trading_refusal trading c = condition_refusal c

-- `none` for "executable".
unfoldable pub refusal_reason : {D : Type 0} → QuoteState D → Option Refusal
refusal_reason s =
    if not s.present then some no_quote else trading_refusal s.trading_state s.condition
