-- ===== src/Market/Source/Sessions/Order.antt =====
-- That `with_session_events` of src/market/source.cpp keeps a stream in order.
use predictive_trading_lab.Prelude.{
  ◌≤◌, ◌≡◌, sym, ap, ◌∙◌, inl, inr, ◌==◌, Option, none, some, List, [], ◌∷◌, ok, arith, Bool-cases,
}
use mathlib.Core.Path.{subst}
use predictive_trading_lab.Core.Types.{Timestamp}
use predictive_trading_lab.Market.Event.{MarketEvent, exchange_time_of, time_of}
use predictive_trading_lab.Market.Session.{Session}
use predictive_trading_lab.Market.Source.{close_current, enter_session, session_after, session_loop}
use predictive_trading_lab.Market.Source.Merge.Order.{IsInOrder}
use predictive_trading_lab.Market.Source.Merge.Sorted.{IsChronological}
use predictive_trading_lab.Market.Source.Sessions.Marks.{IsCalendar, session_after-some, loop-cons}

module _ {D : Type 0} where
  -- One round keeps the order: `p` is the event before, in session `c`.
  pub enter_session-order :
      (cal : Timestamp → Option Session) (c s : Session) (p e : MarketEvent D)
      (rest : List (MarketEvent D))
      → IsCalendar cal
      → cal (exchange_time_of p) ≡ some c
      → cal (exchange_time_of e) ≡ some s
      → exchange_time_of p ≤ exchange_time_of e
      → IsChronological (e ∷ rest)
      → IsChronological (p ∷ enter_session (some c) s (e ∷ rest))
  unfolding enter_session close_current IsInOrder exchange_time_of time_of
  enter_session-order cal c s p e rest k at_p at_e in_order chronological =
      let closes = k.closes (exchange_time_of p) c at_p in
      let opens = k.opens (exchange_time_of e) s at_e in
      let dated = k.dated (exchange_time_of p) c at_p in
      elim (Bool-cases (s.date == c.date)) [
        | inl same ↦ ground (arith, chronological)
        | inr other ↦
            let between =
              k.apart (exchange_time_of p) (exchange_time_of e) c s at_p at_e other in_order in
            ground (arith, chronological, between)
      ]

  pub session_loop-order :
      (cal : Timestamp → Option Session) (c : Session) (p : MarketEvent D)
      (events out : List (MarketEvent D))
      → IsCalendar cal
      → cal (exchange_time_of p) ≡ some c
      → IsChronological (p ∷ events)
      → session_loop cal (some c) events ≡ ok out
      → IsChronological (p ∷ out)
  unfolding session_loop IsInOrder close_current exchange_time_of time_of
  session_loop-order cal c p [] out k at_p h l =
      let same : close_current (some c) [] ≡ out = cc in
      let closes = k.closes (exchange_time_of p) c at_p in
      subst (λ rest. IsChronological (p ∷ rest)) same (ground arith)
  session_loop-order cal c p (e ∷ events) out k at_p h l =
      let (s, rest, found, later, entered) = loop-cons cal (some c) e events out l in
      let kept =
        session_after-some c s
          (k.one_a_day (exchange_time_of p) (exchange_time_of e) c s at_p found) in
      let continued = ap (λ c'. session_loop cal c' events) (sym kept) ∙ later in
      subst (λ rest. IsChronological (p ∷ rest)) entered
        (enter_session-order cal c s p e rest k at_p found h.0
          (session_loop-order cal s e events rest k found h.1 continued))

  pub session_loop-start :
      (cal : Timestamp → Option Session) (e : MarketEvent D) (events out : List (MarketEvent D))
      → IsCalendar cal
      → IsChronological (e ∷ events)
      → session_loop cal none (e ∷ events) ≡ ok out
      → IsChronological out
  unfolding enter_session close_current IsInOrder exchange_time_of time_of
  session_loop-start cal e events out k h l =
      let (s, rest, found, later, entered) = loop-cons cal none e events out l in
      let dated = k.dated (exchange_time_of e) s found in
      let opens = k.opens (exchange_time_of e) s found in
      let kept : session_after none s ≡ some s = ground arith in
      let continued = ap (λ c. session_loop cal c events) (sym kept) ∙ later in
      let in_order = session_loop-order cal s e events rest k found h continued in
      subst IsChronological entered (ground (arith, in_order))
