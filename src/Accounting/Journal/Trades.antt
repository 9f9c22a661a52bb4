-- ===== src/Accounting/Journal/Trades.antt =====
-- The round trips that `match_trades` of src/accounting/journal.cpp makes of the fills.
use predictive_trading_lab.Prelude.{
  ℕ, ◌≤◌, if_intro, List, [], ◌∷◌, All, arith, Option-cases, inl, inr,
}
use predictive_trading_lab.Prelude.Map.{Map, lookup, insert, All-insert, All-lookup}
use predictive_trading_lab.Prelude.Double.{Double}
use predictive_trading_lab.Core.Types.{Timestamp, InstrumentId}
use predictive_trading_lab.Oms.Fill.{Fill}
use predictive_trading_lab.Accounting.Journal.{
  Journal, OpenPosition, RoundTrip, open_of, adds, add_to, close_by, trade_of, match_fills,
  match_trades,
}

module _ {D : Type 0} where
  -- Fills in the order of their times, from `t` on.
  unfoldable pub IsFrom : Timestamp → List (Fill D) → Type 0
  IsFrom t [] = Unit
  IsFrom t (fill ∷ fills) = (t ≤ fill.times.fill_time) × IsFrom fill.times.fill_time fills

  abbrev OpenedBy : Timestamp → ℕ × OpenPosition D → Type 0
  OpenedBy t entry = entry.1.opened ≤ t

  -- A round trip is not closed before it is opened.
  abbrev pub IsForward : RoundTrip D → Type 0
  IsForward t = t.opened ≤ t.closed

  OpenedBy-later :
      (t u : Timestamp) (positions : Map (OpenPosition D))
      → t ≤ u
      → All (OpenedBy t) positions
      → All (OpenedBy u) positions
  OpenedBy-later t u [] h k = tt
  OpenedBy-later t u (p ∷ positions) h k =
      (omega (arith, h, k.0), OpenedBy-later t u positions h k.1)

module _ {D : Type 0} ⦃F : Double D⦄ where
  open_of-OpenedBy :
      (t : Timestamp) (positions : Map (OpenPosition D)) (instrument : InstrumentId)
      → All (OpenedBy t) positions
      → (open_of positions instrument).opened ≤ t
  open_of-OpenedBy t positions instrument h = elim (Option-cases (lookup instrument positions)) [
    | inl e ↦ rw (e, open_of) (omega arith)
    | inr (o, e) ↦ rw (e, open_of) (All-lookup (OpenedBy t) instrument o positions h e)
  ]

  add_to-opened :
      (o : OpenPosition D) (fill : Fill D) (t : Timestamp)
      → o.opened ≤ t
      → t ≤ fill.times.fill_time
      → (add_to o fill).opened ≤ fill.times.fill_time
  unfolding add_to
  add_to-opened o fill t h k = ground (arith, h, k)

  close_by-opened :
      (o : OpenPosition D) (fill : Fill D) (t : Timestamp)
      → o.opened ≤ t
      → t ≤ fill.times.fill_time
      → (close_by o fill).opened ≤ fill.times.fill_time
  unfolding close_by
  close_by-opened o fill t h k = ground (arith, h, k)

  match_fills-IsForward :
      (t : Timestamp) (positions : Map (OpenPosition D)) (fills : List (Fill D))
      → All (OpenedBy t) positions
      → IsFrom t fills
      → All IsForward (match_fills positions fills)
  unfolding match_fills IsFrom trade_of
  match_fills-IsForward t positions [] h k = tt
  match_fills-IsForward t positions (fill ∷ fills) h k =
      let u = fill.times.fill_time in
      let o = open_of positions fill.instrument in
      let opened = open_of-OpenedBy t positions fill.instrument h in
      let earlier = OpenedBy-later t u positions k.0 h in
      if_intro (All IsForward) (adds o fill)
        (match_fills (insert fill.instrument (add_to o fill) positions) fills)
        (trade_of o fill ∷ match_fills (insert fill.instrument (close_by o fill) positions) fills)
        (match_fills-IsForward u (insert fill.instrument (add_to o fill) positions) fills
          (All-insert (OpenedBy u) fill.instrument (add_to o fill) positions
            (add_to-opened o fill t opened k.0) earlier)
          k.1)
        (
          omega (arith, opened, k.0),
          match_fills-IsForward u (insert fill.instrument (close_by o fill) positions) fills
              (All-insert (OpenedBy u) fill.instrument (close_by o fill) positions
                (close_by-opened o fill t opened k.0) earlier)
              k.1,
        )

  -- When the fills of a journal are in the order of their times, no round trip is closed before it
  -- was opened.
  pub match_trades-IsForward :
      (j : Journal D) → IsFrom 0 j.fills → All IsForward (match_trades j).trades
  unfolding match_trades
  match_trades-IsForward j h = match_fills-IsForward 0 [] j.fills tt h
