-- ===== src/Market/Source/Sessions.antt =====
-- The session events that `with_session_events` of src/market/source.cpp puts into a stream.
pub mod Marks
mod Order
use predictive_trading_lab.Prelude.{
  ◌≤◌, ◌<◌, ◌≡◌, refl, sym, ap, ◌∙◌, inl, inr, Bool, not, ◌&&◌, ◌==◌, if◌then◌else◌, Option, none,
  some, List, [], ◌∷◌, err, Result-cases, arith, Option-cases, Bool-cases,
}
use mathlib.Core.Path.{subst}
use predictive_trading_lab.Core.Types.{Timestamp, is_set}
use predictive_trading_lab.Market.Event.{
  MarketEvent, bar_event, quote_event, trade_event, action_event, session_event, timer_event,
  session_open, session_close, exchange_time_of, time_of,
}
use predictive_trading_lab.Market.Session.{Session}
use predictive_trading_lab.Market.Source.{
  outside_session, session_after, session_loop, with_session_events,
}
use predictive_trading_lab.Market.Source.Sessions.Marks.{
  IsDated, is_inside, session_after-IsDated, session_after-some, is_session, loop-cons,
  drop-enter_session, drop-close_current, drop-market, bracketed-close_current, bracketed-market,
  bracketed-enter_session,
}
use predictive_trading_lab.Market.Source.Sessions.Order.{enter_session-order, session_loop-order}

module _ {D : Type 0} where
  -- The first instant of an event for which the calendar has no session.
  unfoldable pub first_outside :
      (Timestamp → Option Session) → List (MarketEvent D) → Option Timestamp
  first_outside cal [] = none
  first_outside cal (e ∷ events) = elim (cal (exchange_time_of e)) [
    | none ↦ some (exchange_time_of e)
    | some s ↦ first_outside cal events
  ]

  session_loop-outside :
      (cal : Timestamp → Option Session) (current : Option Session) (events : List (MarketEvent D))
      (t : Timestamp)
      → first_outside cal events ≡ some t
      → session_loop cal current events ≡ err (outside_session t)
  unfolding session_loop first_outside
  session_loop-outside cal current [] t h = cc
  session_loop-outside cal current (e ∷ events) t h =
      elim (Option-cases (cal (exchange_time_of e))) [
        | inl p ↦ ground arith
        | inr (s, p) ↦
            let q = session_loop-outside cal (session_after current s) events t (ground arith) in
            rw (p, q, session_loop) refl
      ]

  -- An event outside the sessions of the calendar fails the stream, with the instant of the first.
  pub with_session_events-outside :
      (cal : Timestamp → Option Session) (events : List (MarketEvent D)) (t : Timestamp)
      → first_outside cal events ≡ some t
      → with_session_events events cal ≡ err (outside_session t)
  unfolding with_session_events first_outside
  with_session_events-outside cal [] t h = cc
  with_session_events-outside cal (e ∷ events) t h = session_loop-outside cal none (e ∷ events) t h
