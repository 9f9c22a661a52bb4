-- ===== src/Market/Examples.antt =====
-- The theorems of the market modules at concrete inputs, for src/market/source.cpp.
use predictive_trading_lab.Prelude.{
  ltb, leb, ◌&&◌, if◌then◌else◌, ◌≡◌, Option, none, some, List, [], ◌∷◌, ok, arith, map,
}
use mathlib.Core.List.{Perm}
use predictive_trading_lab.Prelude.Double.{Fixed}
use predictive_trading_lab.Core.Types.{Timestamp}
use predictive_trading_lab.Core.Clock.{SimulatedClock, backwards}
use predictive_trading_lab.Market.Event.{
  MarketEvent, timer_event, time_of, exchange_time_of, receive_time_of,
}
use predictive_trading_lab.Market.Session.{Session, regular}
use predictive_trading_lab.Market.Source.{ReplaySource, create_replay, merge_sorted}
use predictive_trading_lab.Market.Source.Merge.{concat}
use predictive_trading_lab.Market.Source.Merge.Order.{IsInOrder}
use predictive_trading_lab.Market.Source.Merge.Sorted.{IsChronological, merge_sorted_lem}
use predictive_trading_lab.Market.Source.Replay.{drain, replay_delivers, shrinking_latency_throws}

abbrev tick : Timestamp → Timestamp → MarketEvent Fixed
tick exchange receive =
    timer_event
      (record { time = record { exchange_time = exchange; receive_time = receive }; id = 7 })

abbrev feed : List (MarketEvent Fixed)
feed = tick 10 12 ∷ tick 20 23 ∷ []

abbrev clock : SimulatedClock
clock = record { now = 5 }

merge_sorted_lem_example :
    (out : List (MarketEvent Fixed)) × (merge_sorted
        ((tick 10 12 ∷ tick 30 31 ∷ []) ∷ (tick 20 21 ∷ []) ∷ [])
      ≡ ok out)
    × Perm out (concat ((tick 10 12 ∷ tick 30 31 ∷ []) ∷ (tick 20 21 ∷ []) ∷ []))
    × IsChronological out
unfolding IsInOrder exchange_time_of receive_time_of time_of
merge_sorted_lem_example =
    merge_sorted_lem ((tick 10 12 ∷ tick 30 31 ∷ []) ∷ (tick 20 21 ∷ []) ∷ [])
      ((ground arith, tt), (tt, tt))

replay_delivers_example :
    (s : ReplaySource Fixed) × (started : SimulatedClock) × (create_replay feed (some clock)
      ≡ ok (s, started))
    × (drain 9 s started ≡ (map (λ e. (e, receive_time_of e)) feed, none))
unfolding IsInOrder exchange_time_of receive_time_of time_of
replay_delivers_example =
    replay_delivers feed clock 9 (ground arith, tt) (ground arith, (ground arith, tt))
      (ground arith, (ground arith, tt)) (ground arith, tt) (ground arith)

shrinking_latency_throws_example :
    (s : ReplaySource Fixed) × (started : SimulatedClock) × (create_replay
        (tick 10 100 ∷ tick 20 30 ∷ [])
        (some clock)
      ≡ ok (s, started))
    × (drain 3 s started ≡ (
      (tick 10 100, receive_time_of (tick 10 100)) ∷ [],
      some (backwards (receive_time_of (tick 10 100)) (receive_time_of (tick 20 30))),
    ))
unfolding exchange_time_of receive_time_of time_of
shrinking_latency_throws_example =
    shrinking_latency_throws (tick 10 100) (tick 20 30) clock (ground arith, (ground arith, tt))
      (ground arith, (ground arith, tt)) (ground arith) (ground arith)

abbrev accepted : ReplaySource Fixed
accepted = record { events = feed; consumed = 0; first = 12 }

-- One session, from 100 on until 200.
abbrev day : Session
day = record { date = 50; open_time = 100; close_time = 200; kind = regular }

abbrev calendar : Timestamp → Option Session
calendar t = if leb 100 t && ltb t 200 then some day else none
