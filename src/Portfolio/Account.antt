-- ===== src/Portfolio/Account.antt =====
-- What a portfolio holds: include/ptl/portfolio/portfolio.hpp.
use predictive_trading_lab.Prelude.{Bool, List}
use predictive_trading_lab.Prelude.Map.{Map}
use predictive_trading_lab.Core.Types.{Timestamp}
use predictive_trading_lab.Portfolio.Holdings.{Position}

pub data MarkMode : Type 0 where
  liquidation mid last : MarkMode

-- `annual_borrow_rate` is read by no method of the portfolio.
pub record PortfolioConfig (D : Type 0) : Type 0 where
  pub initial_cash : D
  pub mark_mode : MarkMode
  pub annual_borrow_rate : D
  pub allow_short : Bool

pub record EquityPoint (D : Type 0) : Type 0 where
  pub ts : Timestamp
  pub equity : D
  pub cash : D
  pub gross_exposure : D
  pub net_exposure : D
  pub realized_pnl : D
  pub unrealized_pnl : D
  pub cumulative_costs : D
  pub turnover : D

pub record MarkPair (D : Type 0) : Type 0 where
  pub bid : D
  pub ask : D

-- `curve` with its last point first.
pub record Portfolio (D : Type 0) : Type 0 where
  pub config : PortfolioConfig D
  pub cash : D
  pub realized : D
  pub costs : D
  pub turnover : D
  pub positions : Map (Position D)
  pub marks : Map (MarkPair D)
  pub curve : List (EquityPoint D)

pub data PortfolioError : Type 0 where
  non_finite_fill shorting_disabled cash_not_finite bad_ratio : PortfolioError
  moves_backwards equity_not_finite identity_violated : PortfolioError
