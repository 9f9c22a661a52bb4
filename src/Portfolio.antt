-- ===== src/Portfolio.antt =====
-- include/ptl/portfolio/portfolio.hpp and src/portfolio/portfolio.cpp: cash, positions and marks.
-- A method returns the portfolio that it leaves behind, on its error paths too, and its result.
pub mod Holdings
pub mod Account
pub mod Trace
pub mod Curve
pub mod Positions
mod Examples
use predictive_trading_lab.Prelude.{
  ℕ, Bool, true, false, not, ◌&&◌, ◌||◌, ltb, if◌then◌else◌, Option, none, some, List, [], ◌∷◌,
  ◌++◌, Result, ok, err,
}
use predictive_trading_lab.Prelude.Double.{
  Double, ◌⊕◌, ◌⊖◌, ◌⊗◌, ◌⊘◌, ◌<?◌, ◌≤?◌, ◌=?◌, negate, abs, lit, d0, fmax, is_finite,
}
use predictive_trading_lab.Prelude.Map.{Map, lookup, insert}
use predictive_trading_lab.Core.Types.{InstrumentId, Timestamp}
use predictive_trading_lab.Market.Events.{Quote}
use predictive_trading_lab.Oms.Fill.{Fill, total_cost, cash_delta, signed_fill}
use predictive_trading_lab.Portfolio.Holdings.{
  Position, position_in, is_flat, is_short, market_value, dividend_cash,
}
use predictive_trading_lab.Portfolio.Holdings
pub use predictive_trading_lab.Portfolio.Account.{
  MarkMode, liquidation, mid, last, PortfolioConfig, EquityPoint, MarkPair, Portfolio,
  PortfolioError, non_finite_fill, shorting_disabled, cash_not_finite, bad_ratio, moves_backwards,
  equity_not_finite, identity_violated,
}

-- `it->second` is changed where the key is found.
unfoldable pub update_found : {V : Type 0} → InstrumentId → (V → V) → Map V → Map V
update_found instrument f m = elim (lookup instrument m) [
  | none ↦ m
  | some v ↦ insert instrument (f v) m
]

module _ {D : Type 0} ⦃F : Double D⦄ where
  abbrev pub portfolio : PortfolioConfig D → Portfolio D
  portfolio config = record {
    config = config;
    cash = config.initial_cash;
    realized = d0;
    costs = d0;
    turnover = d0;
    positions = [];
    marks = [];
    curve = [];
  }

  -- The tolerance for a sale of all that is held: -1e-9.
  abbrev pub short_slack : D
  short_slack = negate (lit 1 1_000_000_000)

  -- `try_emplace`: what is held, or a new position.
  unfoldable pub held : Map (Position D) → InstrumentId → Position D
  held positions instrument = elim (lookup instrument positions) [
    | none ↦ position_in instrument
    | some p ↦ p
  ]

  -- The bookings of an accepted fill.
  unfoldable pub book : Portfolio D → Fill D → Portfolio D
  book pf fill =
      let (p, realized_now) = Holdings.apply (held pf.positions fill.instrument) fill in
      record pf {
        positions = insert fill.instrument p pf.positions;
        realized = pf.realized ⊕ realized_now;
        cash = pf.cash ⊕ cash_delta fill;
        costs = pf.costs ⊕ total_cost fill;
        turnover = pf.turnover ⊕ abs (fill.price ⊗ fill.quantity);
      }

  unfoldable pub apply : Portfolio D → Fill D → Portfolio D × Result PortfolioError Bool
  apply pf fill =
      let p = held pf.positions fill.instrument in
      let booked = book pf fill in
      if not (is_finite fill.price) || not (is_finite fill.quantity)
      then (pf, err non_finite_fill)
      else if not pf.config.allow_short && (p.quantity ⊕ signed_fill fill <? short_slack)
      then (record pf { positions = insert fill.instrument p pf.positions }, err shorting_disabled)
      else if not (is_finite booked.cash)
      then (booked, err cash_not_finite)
      else (booked, ok true)

  abbrev pub split_mark : D → MarkPair D → MarkPair D
  split_mark ratio m = record { bid = m.bid ⊘ ratio; ask = m.ask ⊘ ratio }

  unfoldable pub apply_split :
      Portfolio D → InstrumentId → D → Portfolio D × Result PortfolioError Bool
  apply_split pf instrument ratio =
      if not (is_finite ratio) || (ratio ≤? d0) then (pf, err bad_ratio) else (
        record pf {
          positions = update_found instrument (λ p. Holdings.apply_split p ratio) pf.positions;
          marks = update_found instrument (split_mark ratio) pf.marks;
        },
        ok true,
      )

  -- It never fails.
  unfoldable pub apply_dividend : Portfolio D → InstrumentId → D → Portfolio D
  apply_dividend pf instrument per_share = elim (lookup instrument pf.positions) [
    | none ↦ pf
    | some p ↦ record pf { cash = pf.cash ⊕ dividend_cash p per_share }
  ]

  unfoldable pub mark : Portfolio D → InstrumentId → D → D → Portfolio D
  mark pf instrument bid ask = record pf {
    marks = insert instrument (record { bid = bid; ask = ask }) pf.marks;
  }

  unfoldable pub mark_last : Portfolio D → InstrumentId → D → Portfolio D
  mark_last pf instrument price = record pf {
    marks = insert instrument (record { bid = price; ask = price }) pf.marks;
  }

  unfoldable pub mark_from_quote : Portfolio D → Quote D → Portfolio D
  mark_from_quote pf q = mark pf q.instrument q.bid q.ask

  abbrev pub marked_at : MarkMode → MarkPair D → Position D → D
  marked_at mid m p = (m.bid ⊕ m.ask) ⊗ lit 1 2
  marked_at last m p = m.bid
  marked_at liquidation m p = if is_short p then m.ask else m.bid

  unfoldable pub mark_for : Portfolio D → InstrumentId → Position D → D
  mark_for pf instrument p = elim (lookup instrument pf.marks) [
    | none ↦ p.average_cost
    | some m ↦ marked_at pf.config.mark_mode m p
  ]

  -- The loops over the positions: the sum of `value` over those that are not flat.
  unfoldable pub sum_positions : (Position D → D) → D → Map (Position D) → D
  sum_positions value total [] = total
  sum_positions value total ((key, p) ∷ rest) =
      sum_positions value (if is_flat p then total else total ⊕ value p) rest

  unfoldable pub position_value : Portfolio D → D
  position_value pf =
      sum_positions (λ p. market_value p (mark_for pf p.instrument p)) d0 pf.positions

  unfoldable pub equity : Portfolio D → D
  equity pf = pf.cash ⊕ position_value pf

  unfoldable pub gross_exposure : Portfolio D → D
  gross_exposure pf =
      sum_positions (λ p. Holdings.gross_exposure p (mark_for pf p.instrument p)) d0 pf.positions

  abbrev pub net_exposure : Portfolio D → D
  net_exposure = position_value

  unfoldable pub unrealized_pnl : Portfolio D → D
  unrealized_pnl pf =
      sum_positions (λ p. Holdings.unrealized_pnl p (mark_for pf p.instrument p)) d0 pf.positions

  unfoldable pub leverage : Portfolio D → D
  leverage pf =
      let eq = equity pf in if not (is_finite eq) || (eq =? d0) then d0 else gross_exposure pf ⊘ eq

  abbrev pub buying_power : Portfolio D → D
  buying_power pf = fmax d0 pf.cash

  unfoldable pub mark_price : Portfolio D → InstrumentId → Option D
  mark_price pf instrument = elim (lookup instrument pf.marks) [
    | none ↦ none
    | some m ↦ elim (lookup instrument pf.positions) [
      | none ↦ some m.bid
      | some p ↦ some (mark_for pf instrument p)
    ]
  ]

  unfoldable pub identity_holds : Portfolio D → D → Bool
  identity_holds pf tolerance =
      let lhs = equity pf in
      let rhs = pf.cash ⊕ position_value pf in
      is_finite lhs && is_finite rhs && (abs (lhs ⊖ rhs) ≤? tolerance)

  abbrev pub point_at : Portfolio D → Timestamp → EquityPoint D
  point_at pf ts = record {
    ts = ts;
    equity = equity pf;
    cash = pf.cash;
    gross_exposure = gross_exposure pf;
    net_exposure = net_exposure pf;
    realized_pnl = pf.realized;
    unrealized_pnl = unrealized_pnl pf;
    cumulative_costs = pf.costs;
    turnover = pf.turnover;
  }

  abbrev pub is_backwards : List (EquityPoint D) → Timestamp → Bool
  is_backwards [] ts = false
  is_backwards (p ∷ points) ts = ltb ts p.ts

  abbrev pub default_tolerance : D
  default_tolerance = lit 1 1_000_000

  unfoldable pub snapshot :
      Portfolio D → Timestamp → Portfolio D × Result PortfolioError (EquityPoint D)
  snapshot pf ts =
      if is_backwards pf.curve ts
      then (pf, err moves_backwards)
      else if not (is_finite (equity pf))
      then (pf, err equity_not_finite)
      else if not (identity_holds pf default_tolerance)
      then (pf, err identity_violated)
      else (record pf { curve = point_at pf ts ∷ pf.curve }, ok (point_at pf ts))
