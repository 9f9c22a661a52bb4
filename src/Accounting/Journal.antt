-- ===== src/Accounting/Journal.antt =====
-- The journal of a run: include/ptl/accounting/journal.hpp and src/accounting/journal.cpp. The
-- details of an entry and the texts that are written out are left out.
pub mod Order
pub mod Trades
mod Examples
use predictive_trading_lab.Prelude.{
  ℕ, Bool, true, false, not, ◌&&◌, ◌||◌, ltb, if◌then◌else◌, Option, none, some, List, [], ◌∷◌,
  ◌++◌, Result, ok, err,
}
use predictive_trading_lab.Prelude.Map.{Map, lookup, insert}
use predictive_trading_lab.Prelude.Double.{
  Double, ◌⊕◌, ◌⊖◌, ◌⊗◌, ◌⊘◌, ◌<?◌, ◌≤?◌, ◌=?◌, abs, negate, lit, d0, d1, fmin, is_finite,
}
use predictive_trading_lab.Core.Types.{
  Timestamp, no_timestamp, InstrumentId, invalid_instrument, Side, buy, sell,
}
use predictive_trading_lab.Oms.Order.{OrderId, no_order}
use predictive_trading_lab.Oms.Fill.{Fill, total_cost, slippage_bps, cash_delta, signed_fill}

pub data EntryKind : Type 0 where
  order_submitted order_rejected order_cancelled fill_received : EntryKind
  dividend split mark risk_rejection : EntryKind

pub record JournalEntry (D : Type 0) : Type 0 where
  pub ts : Timestamp
  pub kind : EntryKind
  pub order_id : OrderId
  pub instrument : InstrumentId
  pub side : Side
  pub quantity : D
  pub price : D
  pub cash_delta : D
  pub cost : D

-- `accounting::Trade`: a round trip.
pub record RoundTrip (D : Type 0) : Type 0 where
  pub instrument : InstrumentId
  pub direction : Side
  pub opened : Timestamp
  pub closed : Timestamp
  pub quantity : D
  pub entry_price : D
  pub exit_price : D
  pub gross_pnl : D
  pub costs : D

pub record Reconciliation (D : Type 0) : Type 0 where
  pub gross_pnl : D
  pub spread_cost : D
  pub impact_and_slippage : D
  pub commissions_and_fees : D
  pub financing : D
  pub other : D
  pub net_pnl : D
  pub reported_net : D

pub record Journal (D : Type 0) : Type 0 where
  pub entries : List (JournalEntry D)
  pub fills : List (Fill D)
  pub trades : List (RoundTrip D)

pub data JournalError : Type 0 where
  moves_backwards : Timestamp → JournalError

-- `Open` of `match_trades`.
pub record OpenPosition (D : Type 0) : Type 0 where
  pub qty : D
  pub avg : D
  pub opened : Timestamp
  pub costs : D

abbrev pub is_before : Timestamp → Option Timestamp → Bool
is_before ts none = false
is_before ts (some last) = ltb ts last

module _ {D : Type 0} where
  abbrev pub empty_journal : Journal D
  empty_journal = record { entries = []; fills = []; trades = [] }

  -- The time of `entries_.back()`.
  unfoldable pub last_time : List (JournalEntry D) → Option Timestamp
  last_time [] = none
  last_time (e ∷ []) = some e.ts
  last_time (e ∷ f ∷ entries) = last_time (f ∷ entries)

  unfoldable pub append : Journal D → JournalEntry D → Journal D × Result JournalError Bool
  append j entry =
      if is_before entry.ts (last_time j.entries)
      then (j, err (moves_backwards entry.ts))
      else (record j { entries = j.entries ++ entry ∷ [] }, ok true)

module _ {D : Type 0} ⦃F : Double D⦄ where
  unfoldable pub fill_entry : Fill D → JournalEntry D
  fill_entry fill = record {
    ts = fill.times.fill_time;
    kind = fill_received;
    order_id = fill.order_id;
    instrument = fill.instrument;
    side = fill.side;
    quantity = fill.quantity;
    price = fill.price;
    cash_delta = cash_delta fill;
    cost = total_cost fill;
  }

  -- What `append` answers is dropped.
  unfoldable pub record_fill : Journal D → Fill D → Journal D
  record_fill j fill =
      let appended = (append j (fill_entry fill)).0 in
      record appended { fills = appended.fills ++ fill ∷ [] }

  unfoldable pub rejection_entry : Timestamp → InstrumentId → JournalEntry D
  rejection_entry ts instrument = record {
    ts = ts;
    kind = risk_rejection;
    order_id = no_order;
    instrument = instrument;
    side = buy;
    quantity = d0;
    price = d0;
    cash_delta = d0;
    cost = d0;
  }

  unfoldable pub record_risk_rejection : Journal D → Timestamp → InstrumentId → Journal D
  record_risk_rejection j ts instrument = (append j (rejection_entry ts instrument)).0

  abbrev pub unopened : OpenPosition D
  unopened = record { qty = d0; avg = d0; opened = no_timestamp; costs = d0 }

  -- `open[instrument]`.
  abbrev pub open_of : Map (OpenPosition D) → InstrumentId → OpenPosition D
  open_of positions instrument = elim (lookup instrument positions) [ none ↦ unopened | some o ↦ o ]

  abbrev pub same_sign : D → D → Bool
  same_sign a b = if d0 <? a then d0 <? b else not (d0 <? b)

  -- The fill opens a position, or adds to one on its side.
  unfoldable pub adds : OpenPosition D → Fill D → Bool
  adds o fill = (o.qty =? d0) || same_sign o.qty (signed_fill fill)

  unfoldable pub add_to : OpenPosition D → Fill D → OpenPosition D
  add_to o fill =
      let delta = signed_fill fill in
      let denom = o.qty ⊕ delta in
      record {
        qty = denom;
        avg = if denom =? d0 then o.avg else (o.avg ⊗ o.qty ⊕ fill.price ⊗ delta) ⊘ denom;
        opened = if o.qty =? d0 then fill.times.fill_time else o.opened;
        costs = o.costs ⊕ total_cost fill;
      }

  abbrev pub closing_of : OpenPosition D → Fill D → D
  closing_of o fill = fmin (abs (signed_fill fill)) (abs o.qty)

  -- The share of the position that the fill closes.
  abbrev pub share_of : OpenPosition D → Fill D → D
  share_of o fill = if d0 <? abs o.qty then closing_of o fill ⊘ abs o.qty else d1

  unfoldable pub trade_of : OpenPosition D → Fill D → RoundTrip D
  trade_of o fill =
      let direction = if d0 <? o.qty then d1 else negate d1 in
      record {
        instrument = fill.instrument;
        direction = if d0 <? o.qty then buy else sell;
        opened = o.opened;
        closed = fill.times.fill_time;
        quantity = closing_of o fill;
        entry_price = o.avg;
        exit_price = fill.price;
        gross_pnl = (fill.price ⊖ o.avg) ⊗ closing_of o fill ⊗ direction;
        costs = o.costs ⊗ share_of o fill ⊕ total_cost fill;
      }

  unfoldable pub close_by : OpenPosition D → Fill D → OpenPosition D
  close_by o fill =
      let delta = signed_fill fill in
      let after = o.qty ⊕ delta in
      if abs o.qty <? abs delta
      then record { qty = after; avg = fill.price; opened = fill.times.fill_time; costs = d0 }
      else if after =? d0
      then record { qty = after; avg = d0; opened = o.opened; costs = d0 }
      else record {
        qty = after;
        avg = o.avg;
        opened = o.opened;
        costs = o.costs ⊗ (d1 ⊖ share_of o fill);
      }

  -- The loop of `match_trades`, from the positions that are open.
  unfoldable pub match_fills : Map (OpenPosition D) → List (Fill D) → List (RoundTrip D)
  match_fills positions [] = []
  match_fills positions (fill ∷ fills) =
      let o = open_of positions fill.instrument in
      let added = match_fills (insert fill.instrument (add_to o fill) positions) fills in
      let closed = match_fills (insert fill.instrument (close_by o fill) positions) fills in
      if adds o fill then added else trade_of o fill ∷ closed

  unfoldable pub match_trades : Journal D → Journal D
  match_trades j = record j { trades = match_fills [] j.fills }

  unfoldable pub sum_costs : D → List (Fill D) → D
  sum_costs total [] = total
  sum_costs total (fill ∷ fills) = sum_costs (total ⊕ total_cost fill) fills

  unfoldable pub sum_slippage : D → List (Fill D) → D
  sum_slippage total [] = total
  sum_slippage total (fill ∷ fills) =
      let bps = slippage_bps fill in
      sum_slippage
        (if is_finite bps
          then total ⊕ bps ⊗ lit 1 10000 ⊗ fill.arrival_price ⊗ fill.quantity
          else total)
        fills

  -- Of the portfolio, its realised and unrealised profit and loss.
  unfoldable pub reconcile : Journal D → D → D → Reconciliation D
  reconcile j realized_pnl unrealized_pnl =
      let reported = realized_pnl ⊕ unrealized_pnl in
      let commissions = sum_costs d0 j.fills in
      let gross = reported ⊕ commissions in
      record {
        gross_pnl = gross;
        spread_cost = d0;
        impact_and_slippage = sum_slippage d0 j.fills;
        commissions_and_fees = commissions;
        financing = d0;
        other = d0;
        net_pnl = gross ⊖ d0 ⊖ commissions ⊖ d0 ⊖ d0;
        reported_net = reported;
      }

  unfoldable pub residual : Reconciliation D → D
  residual r = r.net_pnl ⊖ r.reported_net

  unfoldable pub balances : Reconciliation D → D → Bool
  balances r tolerance = is_finite (residual r) && (abs (residual r) ≤? tolerance)

  unfoldable pub reset : Journal D → Journal D
  reset j = empty_journal
