-- ===== src/Market/Source.antt =====
-- The replay of a materialised stream, the merge of streams and the session events:
-- include/ptl/market/source.hpp and src/market/source.cpp. The clock is borrowed by the source, so
-- a method that moves it returns it beside what it leaves of the source.
pub mod Replay
pub mod Merge
pub mod Sessions
use predictive_trading_lab.Prelude.{
  ℕ, zero, suc, ◌+◌, ◌-◌, ◌^◌, Bool, true, false, not, ◌&&◌, ◌||◌, ◌==◌, ltb, leb, if◌then◌else◌,
  Option, none, some, List, [], ◌∷◌, length, get_elem?, Result, ok, err, ◌>>=◌,
}
use predictive_trading_lab.Core.Types.{Timestamp, no_timestamp, is_set}
use predictive_trading_lab.Core.Clock.{SimulatedClock, ClockError, advance_to, reset}
use predictive_trading_lab.Market.Event.{
  MarketEvent, exchange_time_of, receive_time_of, instrument_of, session_event, session_open,
  session_close, SessionEventKind,
}
use predictive_trading_lab.Market.Session.{Session}

abbrev pub max_timestamp : Timestamp
max_timestamp = 2 ^ 64 - 1

-- The errors carry the index or the instant of their message.
pub data SourceError : Type 0 where
  no_clock : SourceError
  not_chronological : ℕ → SourceError
  received_early : ℕ → SourceError
  outside_session : Timestamp → SourceError
  unordered_merge : SourceError

pub record ReplaySource (D : Type 0) : Type 0 where
  pub events : List (MarketEvent D)
  pub consumed : ℕ
  pub first : Timestamp

-- `if (is_set(first)) clock->reset(first)`.
unfoldable pub rewind : Timestamp → SimulatedClock → SimulatedClock
rewind first clock = if is_set first then reset clock first else clock

abbrev pub current_date : Option Session → Timestamp
current_date none = no_timestamp
current_date (some current) = current.date

abbrev pub session_after : Option Session → Session → Option Session
session_after current s = if s.date == current_date current then current else some s

module _ {D : Type 0} where
  -- The first loop of `create`: the first index `i` or later whose event is before `prev`.
  unfoldable pub unordered_from : ℕ → MarketEvent D → List (MarketEvent D) → Option ℕ
  unordered_from i prev [] = none
  unordered_from i prev (cur ∷ rest) =
      if ltb (exchange_time_of cur) (exchange_time_of prev)
      then some i
      else unordered_from (suc i) cur rest

  unfoldable pub first_unordered : List (MarketEvent D) → Option ℕ
  first_unordered [] = none
  first_unordered (e ∷ rest) = unordered_from 1 e rest

  -- The second loop.
  unfoldable pub first_early : ℕ → List (MarketEvent D) → Option ℕ
  first_early i [] = none
  first_early i (e ∷ rest) =
      if ltb (receive_time_of e) (exchange_time_of e) then some i else first_early (suc i) rest

  unfoldable pub first_time : List (MarketEvent D) → Timestamp
  first_time [] = no_timestamp
  first_time (e ∷ rest) = receive_time_of e

  -- `none` is the null pointer.
  unfoldable pub create_replay :
      List (MarketEvent D)
      → Option SimulatedClock
      → Result SourceError (ReplaySource D × SimulatedClock)
  create_replay events none = err no_clock
  create_replay events (some clock) = elim (first_unordered events) [
    | some i ↦ err (not_chronological i)
    | none ↦ elim (first_early 0 events) [
      | some i ↦ err (received_early i)
      | none ↦ ok (
        record { events = events; consumed = 0; first = first_time events },
        rewind (first_time events) clock,
      )
    ]
  ]

  unfoldable pub exhausted : ReplaySource D → Bool
  exhausted s = leb (length s.events) s.consumed

  -- A throw of the clock leaves the event consumed.
  unfoldable pub next :
      ReplaySource D
      → SimulatedClock
      → Result ClockError (Option (MarketEvent D)) × ReplaySource D × SimulatedClock
  next s clock = elim (get_elem? s.events s.consumed) [
    | none ↦ (ok none, s, clock)
    | some e ↦
        let moved = record s { consumed = suc s.consumed } in
        elim (advance_to clock (receive_time_of e)) [
          | err thrown ↦ (err thrown, moved, clock)
          | ok advanced ↦ (ok (some e), moved, advanced)
        ]
  ]

  unfoldable pub peek_time : ReplaySource D → Timestamp
  peek_time s = elim (get_elem? s.events s.consumed) [
    | none ↦ max_timestamp
    | some e ↦ exchange_time_of e
  ]

  unfoldable pub reset_replay : ReplaySource D → SimulatedClock → ReplaySource D × SimulatedClock
  reset_replay s clock = (record s { consumed = 0 }, rewind s.first clock)

  -- For `merge_sorted`, a stream is what its cursor has left of it.
  unfoldable pub goes_first : MarketEvent D → MarketEvent D → Bool
  goes_first a b =
      ltb (exchange_time_of a) (exchange_time_of b)
      || ((exchange_time_of a == exchange_time_of b) && ltb (instrument_of a) (instrument_of b))

  -- The inner loop from stream `i` on: the best stream so far and its event.
  unfoldable pub best_stream :
      ℕ → Option (ℕ × MarketEvent D) → List (List (MarketEvent D)) → Option (ℕ × MarketEvent D)
  best_stream i best [] = best
  best_stream i best ([] ∷ streams) = best_stream (suc i) best streams
  best_stream i none ((e ∷ rest) ∷ streams) = best_stream (suc i) (some (i, e)) streams
  best_stream i (some best) ((e ∷ rest) ∷ streams) =
      best_stream (suc i) (some (if goes_first e best.1 then (i, e) else best)) streams

  -- `++cursor[i]`.
  unfoldable pub advance : ℕ → List (List (MarketEvent D)) → List (List (MarketEvent D))
  advance i [] = []
  advance zero ([] ∷ streams) = [] ∷ streams
  advance zero ((e ∷ rest) ∷ streams) = rest ∷ streams
  advance (suc i) (stream ∷ streams) = stream ∷ advance i streams

  unfoldable pub total : List (List (MarketEvent D)) → ℕ
  total [] = 0
  total (stream ∷ streams) = length stream + total streams

  -- The outer loop, for `n` rounds.
  unfoldable pub merge_rounds : ℕ → List (List (MarketEvent D)) → List (MarketEvent D)
  merge_rounds zero streams = []
  merge_rounds (suc n) streams = elim (best_stream 0 none streams) [
    | none ↦ []
    | some best ↦ best.1 ∷ merge_rounds n (advance best.0 streams)
  ]

  unfoldable pub merge_sorted :
      List (List (MarketEvent D)) → Result SourceError (List (MarketEvent D))
  merge_sorted streams =
      let out = merge_rounds (total streams) streams in
      elim (first_unordered out) [ none ↦ ok out | some i ↦ err unordered_merge ]

  abbrev session_mark : Timestamp → SessionEventKind → MarketEvent D
  session_mark ts kind =
      session_event
        (record { time = record { exchange_time = ts; receive_time = ts }; kind = kind })

  -- `if (is_set(current_session_date))`, the close of the session that ends.
  unfoldable pub close_current : Option Session → List (MarketEvent D) → List (MarketEvent D)
  close_current none rest = rest
  close_current (some current) rest =
      if is_set current.date then session_mark current.close_time session_close ∷ rest else rest

  -- What is put before an event of session `s`.
  unfoldable pub enter_session :
      Option Session → Session → List (MarketEvent D) → List (MarketEvent D)
  enter_session current s rest =
      if s.date == current_date current
      then rest
      else close_current current (session_mark s.open_time session_open ∷ rest)

  -- The loop of `with_session_events`, with the session it is in and the lookup of the calendar.
  unfoldable pub session_loop :
      (Timestamp → Option Session)
      → Option Session
      → List (MarketEvent D)
      → Result SourceError (List (MarketEvent D))
  session_loop session_containing current [] = ok (close_current current [])
  session_loop session_containing current (e ∷ events) =
      elim (session_containing (exchange_time_of e)) [
        | none ↦ err (outside_session (exchange_time_of e))
        | some s ↦ session_loop session_containing (session_after current s) events >>= λ out.
            ok (enter_session current s (e ∷ out))
      ]

  unfoldable pub with_session_events :
      List (MarketEvent D)
      → (Timestamp → Option Session)
      → Result SourceError (List (MarketEvent D))
  with_session_events [] session_containing = ok []
  with_session_events (e ∷ events) session_containing =
      session_loop session_containing none (e ∷ events)
