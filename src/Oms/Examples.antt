-- ===== src/Oms/Examples.antt =====
-- Tests of the order management system on fixed-point numbers, and its theorems at inputs.
use predictive_trading_lab.Prelude.{
  ℕ, ◌*◌, ◌≡◌, ◌≢◌, ◌⊎◌, ◌↔◌, refl, true, false, none, some, List, [], ◌∷◌, ok, err, arith,
}
use predictive_trading_lab.Prelude.Int.{pos, ◌+ℤ◌}
use predictive_trading_lab.Prelude.Double.{Fixed, fin, fixed, is_finite, ◌⊕◌, ◌<?◌}
use predictive_trading_lab.Prelude.Map.{lookup, insert}
use predictive_trading_lab.Core.Types.{buy, Timestamp}
use predictive_trading_lab.Core.Time.{
  LifecycleTimes, no_times, validate_chain, edges, check_edges, check_edge, at,
}
use predictive_trading_lab.Oms.Order.{Order, limit, day, make, is_marketable_against, sane_price}
use predictive_trading_lab.Oms.Order.Validity.{IsValid, remake, make-IsValid}
use predictive_trading_lab.Oms.Fill.{Fill, taker, total_cost}
use predictive_trading_lab.Oms.Manager.{
  ManagerError, overfill, OrderRecord, OrderManager, reset, working, filled, find, next_id, submit,
  apply_fill, cancel_replace, fresh, is_terminal, is_legal_transition, slack, complete,
}
use predictive_trading_lab.Oms.Manager.Trace.{Call, submits, transitions, fills, takes_id, run}
use predictive_trading_lab.Oms.Manager.Fills.{Fits}
use predictive_trading_lab.Oms.Manager.Invariant.{SlackIsSound, never_overfilled}
use predictive_trading_lab.Oms.Manager.Identity.{next_id-unused}
use predictive_trading_lab.Oms.Manager.Replace.{CanReplace, withdrawn, cancel_replace-cancels}

-- A whole number of shares or dollars.
abbrev units : ℕ → Fixed
units n = fin (pos (n * 1_000_000_000))

abbrev decided : LifecycleTimes
decided = record no_times { decision_time = 100 }

-- Buy 10 at 50 or better.
abbrev ten : Order Fixed
ten = record {
  id = 7;
  parent = 0;
  instrument = 3;
  side = buy;
  quantity = units 10;
  type = limit;
  tif = day;
  limit_price = some (units 50);
  stop_price = none;
  times = decided;
  arrival_price = units 0;
}

ten_made : remake ten ≡ ok ten
unfolding make validate_chain edges check_edges check_edge at is_finite sane_price
ten_made = refl

make-IsValid_example : (remake ten ≡ ok ten) ↔ IsValid ten
make-IsValid_example = make-IsValid ten refl

ten-IsValid : IsValid ten
ten-IsValid = make-IsValid_example.0 ten_made

abbrev arrival : Timestamp
arrival = 120

marketable_at_fifty : is_marketable_against ten (units 50) ≡ true
unfolding is_marketable_against
marketable_at_fifty = refl

abbrev fill_of : ℕ → Fill Fixed
fill_of n = record {
  order_id = 7;
  parent_id = 0;
  instrument = 3;
  side = buy;
  price = units 49;
  quantity = units n;
  commission = units 1;
  exchange_fee = units 0;
  liquidity = taker;
  times = record decided { fill_time = 130 };
  arrival_price = units 48;
}

abbrev at_work : OrderRecord Fixed
at_work = record (fresh ten) { state = working }

abbrev book : OrderManager Fixed
book = record { records = (7, at_work) ∷ []; next = 8 }

abbrev unsent : OrderManager Fixed
unsent = record { records = (7, fresh ten) ∷ []; next = 8 }

-- Eleven are too many.
fill_eleven : apply_fill book (fill_of 11) ≡ (book, err overfill)
unfolding apply_fill is_terminal complete total_cost is_legal_transition ◌+ℤ◌ lookup fresh
fill_eleven = refl

unsent-Fits : Fits (fill_of 10) (fresh ten)
unfolding fresh is_terminal ◌+ℤ◌
unsent-Fits = record {
  live = refl;
  instrument = refl;
  side = refl;
  within = refl;
  causal = omega arith;
}

abbrev done : OrderRecord Fixed
done = record at_work { state = filled; filled_quantity = units 10 }

abbrev closed_book : OrderManager Fixed
closed_book = record { records = (7, done) ∷ []; next = 8 }

abbrev calls : List (Call Fixed)
calls = transitions 7 working [] ∷ fills (fill_of 10) ∷ takes_id ∷ []

fixed-SlackIsSound : SlackIsSound fixed
unfolding ◌+ℤ◌ is_finite
fixed-SlackIsSound x finite positive = ground arith

submitted : find (run reset (submits ten ∷ [])) 7 ≡ some (fresh ten)
unfolding run submit lookup insert
submitted = refl

never_overfilled_example : ((ten.quantity ⊕ slack) <? (fresh ten).filled_quantity) ≡ false
unfolding fresh
never_overfilled_example =
    never_overfilled fixed-SlackIsSound (submits ten ∷ []) 7 (fresh ten) submitted ten-IsValid

next_id-unused_example :
    let m = run reset (submits ten ∷ takes_id ∷ []) in find m (next_id m).1 ≡ none
unfolding run submit next_id insert lookup
next_id-unused_example = next_id-unused (submits ten ∷ takes_id ∷ []) (omega arith)

abbrev eleven : Order Fixed
eleven = record ten { id = 11; quantity = units 11 }

replaceable : CanReplace at_work eleven
unfolding fresh is_terminal
replaceable = record { live = refl; instrument = refl; side = refl }

cancel_replace-cancels_example :
    let (m', result) = cancel_replace book 7 eleven in
    (find m' 7 ≡ some (withdrawn at_work))
    × (((result ≡ ok 11) × (find m' 11 ≡ some (fresh eleven)))
        ⊎ ((e : ManagerError) × (result ≡ err e) × ((k : ℕ) → k ≢ 7 → find m' k ≡ find book k)))
unfolding lookup
cancel_replace-cancels_example = cancel_replace-cancels book 7 eleven at_work refl replaceable

same_id : CanReplace at_work ten
unfolding fresh is_terminal
same_id = record { live = refl; instrument = refl; side = refl }
