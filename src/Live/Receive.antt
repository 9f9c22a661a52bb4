-- ===== src/Live/Receive.antt =====
-- `LiveConnection::poll` of src/live/connection.cpp: which messages are delivered.
use predictive_trading_lab.Prelude.{
  ℕ, suc, ◌+◌, Bool, false, not, ◌&&◌, ◌||◌, ◌==◌, ltb, leb, if◌then◌else◌, Option, none, some,
  List, [], ◌∷◌, ◌++◌, Text, length, text_eq,
}
use predictive_trading_lab.Core.Types.{Timestamp, is_set, seconds}
use predictive_trading_lab.Live.Heartbeat.{record_heartbeat, record_activity}
use predictive_trading_lab.Live.Connection.{
  MessageKind, heartbeat, unknown, BrokerMessage, LiveConnection,
}

abbrev pub recent_id_capacity : ℕ
recent_id_capacity = 4096

-- `std::find` on the remembered ids.
unfoldable pub remembered : Text → List Text → Bool
remembered id [] = false
remembered id (seen ∷ rest) = text_eq seen id || remembered id rest

abbrev pub pop_front : List Text → List Text
pop_front [] = []
pop_front (id ∷ rest) = rest

-- `push_back`, then `pop_front` above the capacity.
unfoldable pub remember : Text → List Text → List Text
remember id ids =
    let longer = ids ++ id ∷ [] in
    if ltb recent_id_capacity (length longer) then pop_front longer else longer

module _ {D : Type 0} where
  abbrev pub count_duplicate : LiveConnection D → LiveConnection D
  count_duplicate c = record c {
    stats = record (c.stats) { duplicates_dropped = suc c.stats.duplicates_dropped };
  }

  -- The last check of the loop body: a venue stamp more than five seconds ahead of receipt.
  unfoldable pub accept_in_time :
      LiveConnection D → BrokerMessage D → LiveConnection D × Option (BrokerMessage D)
  accept_in_time c m =
      if is_set m.venue_time
        && is_set m.received_time
        && ltb (m.received_time + seconds 5) m.venue_time
      then (
        record c {
          stats = record (c.stats) { out_of_order_dropped = suc c.stats.out_of_order_dropped };
        },
        none,
      )
      else (c, some m)

  -- The checks against duplicates, by the venue's sequence or by its fill ids.
  unfoldable pub filter_message :
      LiveConnection D → BrokerMessage D → LiveConnection D × Option (BrokerMessage D)
  unfolding accept_in_time remember remembered
  filter_message c m =
      if not (m.sequence == 0)
      then if leb m.sequence c.last_sequence
        then (count_duplicate c, none)
        else accept_in_time (record c { last_sequence = m.sequence }) m
      else if text_eq m.venue_fill_id []
      then accept_in_time c m
      else if remembered m.venue_fill_id c.recent_ids
      then (count_duplicate c, none)
      else accept_in_time (record c { recent_ids = remember m.venue_fill_id c.recent_ids }) m

  unfoldable pub dispatch :
      MessageKind → LiveConnection D → BrokerMessage D → LiveConnection D × Option (BrokerMessage D)
  unfolding filter_message
  dispatch heartbeat c m =
      (record c { heartbeat_monitor = record_heartbeat c.heartbeat_monitor m.received_time }, none)
  dispatch unknown c m = (
    record c { stats = record (c.stats) { unknown_messages = suc c.stats.unknown_messages } },
    none,
  )
  dispatch _ c m = filter_message c m

  -- The body of the loop of `poll`: a message, read at the time `now`.
  unfoldable pub receive :
      LiveConnection D → BrokerMessage D → Timestamp → LiveConnection D × Option (BrokerMessage D)
  unfolding dispatch
  receive c m now =
      dispatch m.kind
        (record c {
          stats = record (c.stats) { messages_received = suc c.stats.messages_received };
          heartbeat_monitor = record_activity c.heartbeat_monitor now;
        })
        (record m { received_time = now })

  abbrev pub keep : Option (BrokerMessage D) → List (BrokerMessage D) → List (BrokerMessage D)
  keep none ms = ms
  keep (some m) ms = m ∷ ms

  unfoldable pub receive_all :
      LiveConnection D
      → List (BrokerMessage D × Timestamp)
      → LiveConnection D × List (BrokerMessage D)
  unfolding receive
  receive_all c [] = (c, [])
  receive_all c ((m, now) ∷ ms) =
      let (c', got) = receive c m now in let (c'', rest) = receive_all c' ms in (c'', keep got rest)

  -- Of an open transport all messages are read, each at the time that stands with it.
  unfoldable pub poll :
      LiveConnection D
      → Bool
      → List (BrokerMessage D × Timestamp)
      → LiveConnection D × List (BrokerMessage D)
  unfolding receive_all
  poll c is_open ms = if is_open then receive_all c ms else (c, [])
