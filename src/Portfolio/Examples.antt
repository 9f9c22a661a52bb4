-- ===== src/Portfolio/Examples.antt =====
-- Tests of the portfolio, and its theorems at inputs.
use predictive_trading_lab.Prelude.{ℕ, ◌*◌, ◌≡◌, refl, true, false, List, [], ◌∷◌, All, arith}
use predictive_trading_lab.Prelude.Int.{pos, negsuc, ◌-ℤ◌, ◌+ℤ◌, ◌*ℤ◌, quot_ℤ}
use predictive_trading_lab.Prelude.Double.{
  Fixed, fin, nan, pinf, ninf, fixed, ◌⊖◌, ◌<?◌, ◌≤?◌, abs, d0, is_finite,
}
use predictive_trading_lab.Core.Types.{Side, buy, sell, sign_of}
use predictive_trading_lab.Core.Time.{no_times}
use predictive_trading_lab.Oms.Fill.{Fill, taker, signed_fill, total_cost}
use predictive_trading_lab.Portfolio.Holdings.{Position, position_in, count_fill}
use predictive_trading_lab.Portfolio.Holdings
use predictive_trading_lab.Portfolio.{
  PortfolioConfig, Portfolio, portfolio, liquidation, short_slack, default_tolerance,
}
use predictive_trading_lab.Portfolio.Trace.{Call, fills, marks_at, snapshots, run}
use predictive_trading_lab.Portfolio.Positions.{is_split, never_short}

abbrev units : ℕ → Fixed
units n = fin (pos (n * 1_000_000_000))

abbrev long_only : PortfolioConfig Fixed
long_only = record {
  initial_cash = units 1000;
  mark_mode = liquidation;
  annual_borrow_rate = units 0;
  allow_short = false;
}

abbrev traded : Side → ℕ → ℕ → Fill Fixed
traded side quantity price = record {
  order_id = 7;
  parent_id = 0;
  instrument = 3;
  side = side;
  price = units price;
  quantity = units quantity;
  commission = units 1;
  exchange_fee = units 0;
  liquidity = taker;
  times = no_times;
  arrival_price = units 48;
}

-- Buy 4 at 50, mark at 51 to 53, sell 4 at 52; the sale of one more is refused.
abbrev day : List (Call Fixed)
day =
    fills (traded buy 4 50)
    ∷ marks_at 3 (units 51) (units 53)
    ∷ snapshots 10
    ∷ fills (traded sell 4 52)
    ∷ fills (traded sell 1 52)
    ∷ snapshots 20
    ∷ []

abbrev closed : Portfolio Fixed
closed = run (portfolio long_only) day

-- Of 4 bought at 50, 6 are sold at 52: 4 are closed with a gain of 8, and the 2 sold short cost 52.
abbrev reversed : Position Fixed × Fixed
reversed = Holdings.apply (Holdings.apply (position_in 3) (traded buy 4 50)).0 (traded sell 6 52)

reversed_test :
    (reversed.1 ≡ units 8)
    × (reversed.0.average_cost ≡ units 52)
    × (reversed.0.quantity ≡ fin (negsuc 1_999_999_999))
unfolding Holdings.apply signed_fill count_fill ◌+ℤ◌ ◌-ℤ◌ ◌*ℤ◌ quot_ℤ sign_of total_cost
reversed_test = (refl, refl, refl)

zero_not_short : (d0 {D = Fixed} <? short_slack) ≡ false
unfolding ◌-ℤ◌
zero_not_short = refl

whole : All (λ call. is_split call ≡ false) day
whole = (refl, (refl, (refl, (refl, (refl, (refl, tt))))))

never_short_example :
    All (λ e. (e.1.quantity <? short_slack) ≡ false) (run (portfolio long_only) day).positions
never_short_example = never_short long_only day zero_not_short refl whole

cancels : (x : Fixed) → is_finite x ≡ true → (abs (x ⊖ x) ≤? default_tolerance) ≡ true
unfolding is_finite ◌-ℤ◌
cancels nan h = ground arith
cancels pinf h = ground arith
cancels ninf h = ground arith
cancels (fin (pos n)) h = ground arith
cancels (fin (negsuc n)) h = ground arith
