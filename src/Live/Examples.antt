-- ===== src/Live/Examples.antt =====
-- Tests of the live connection, and its theorems at inputs.
use predictive_trading_lab.Prelude.{
  ℕ, ◌≡◌, refl, Bool, true, List, [], ◌∷◌, ok, err, Result, text_eq, ◌≢◌, All,
}
use predictive_trading_lab.Prelude.Int.{pos}
use predictive_trading_lab.Prelude.Double.{Fixed, fin, fixed}
use predictive_trading_lab.Core.Types.{Timestamp, buy}
use predictive_trading_lab.Live.Heartbeat.{
  HeartbeatConfig, heartbeat_monitor, record_activity, healthy, dead, degraded, heard_grades,
}
use predictive_trading_lab.Live.Heartbeat
use predictive_trading_lab.Live.Supervisor.{SupervisorConfig, connection_supervisor, exhausted}
use predictive_trading_lab.Live.Connection.{
  disconnected, ready, BrokerMessage, MessageKind, fill, heartbeat, LiveConnection, maybe_reconnect,
  mark_synchronized, tick, send, refuses_to_send,
}
use predictive_trading_lab.Live.Receive.{poll}
use predictive_trading_lab.Live.Connection.Trace.{Call, polls, ticks, synchronizes, reconnects, run}
use predictive_trading_lab.Live.Connection.Sync.{no_send_before_sync}

abbrev quick : HeartbeatConfig
quick = record { interval = 10; degraded_after = 20; dead_after = 45 }

abbrev doubling : SupervisorConfig Fixed
doubling = record {
  initial_backoff = 4;
  max_backoff = 60;
  backoff_multiplier = fin (pos 2000);
  max_attempts = 3;
}

abbrev zero : Fixed
zero = fin (pos 0)

-- A message with this sequence number and fill id.
abbrev message : MessageKind → ℕ → List ℕ → BrokerMessage Fixed
message kind sequence id = record {
  kind = kind;
  sequence = sequence;
  venue_time = 0;
  received_time = 0;
  venue_order_id = [];
  venue_fill_id = id;
  client_order_id = [];
  instrument = 1;
  side = buy;
  quantity = zero;
  price = zero;
  commission = zero;
  exchange_fee = zero;
  bid = zero;
  ask = zero;
  bid_size = zero;
  ask_size = zero;
  text = [];
}

abbrev fresh : LiveConnection Fixed
fresh = record {
  heartbeat_monitor = heartbeat_monitor quick;
  supervisor = connection_supervisor doubling;
  state = disconnected;
  stats = record {
    connects = 0;
    disconnects = 0;
    reconnects = 0;
    messages_received = 0;
    duplicates_dropped = 0;
    out_of_order_dropped = 0;
    unknown_messages = 0;
  };
  last_sequence = 0;
  recent_ids = [];
}

abbrev opens : Result ℕ Bool
opens = ok true

-- Fill 5 is sent again after a reconnect, with a heartbeat and a fill without a number before it.
abbrev replayed : List (Call Fixed ℕ)
replayed =
    polls true ((message fill 5 [], 10) ∷ [])
    ∷ reconnects 20 20 opens 21 22
    ∷ polls true (
        (message heartbeat 0 [], 23)
        ∷ (message fill 0 (7 ∷ []), 24)
        ∷ (message fill 5 [], 25)
        ∷ (message fill 0 (7 ∷ []), 26)
        ∷ (message fill 6 [], 27)
        ∷ [])
    ∷ []

abbrev delivered_sequences : List (BrokerMessage Fixed) → List ℕ
delivered_sequences [] = []
delivered_sequences (m ∷ ms) = m.sequence ∷ delivered_sequences ms

replay_test : delivered_sequences (run fresh replayed).1 ≡ 5 ∷ 0 ∷ 6 ∷ []
unfolding run poll text_eq maybe_reconnect
replay_test = refl

duplicates_test : (run fresh replayed).0.stats.duplicates_dropped ≡ 2
unfolding run poll text_eq maybe_reconnect
duplicates_test = refl

abbrev reopened : LiveConnection Fixed
reopened = (maybe_reconnect {E = ℕ} fresh 5 5 opens 6 7).0

abbrev after_sync : List (Call Fixed ℕ)
after_sync = synchronizes ∷ ticks 12 ∷ []

abbrev unsynced : List (Call Fixed ℕ)
unsynced = ticks 12 ∷ polls true ((message fill 5 [], 13) ∷ []) ∷ []

sync_test : (run reopened after_sync).0.state ≡ ready
unfolding run tick mark_synchronized maybe_reconnect dead Heartbeat.reset degraded
sync_test = refl

opened_test : (maybe_reconnect {E = ℕ} fresh 5 5 opens 6 7).1 ≡ ok true
unfolding maybe_reconnect
opened_test = refl

none_synchronize : All (λ call. call ≢ synchronizes) unsynced
none_synchronize = (λ e. cc, (λ e. cc, tt))

no_send_before_sync_example :
    send (run (maybe_reconnect {E = ℕ} fresh 5 5 opens 6 7).0 unsynced).0 opens
    ≡ err refuses_to_send
no_send_before_sync_example =
    no_send_before_sync fresh 5 5 opens 6 7 unsynced opens opened_test none_synchronize

-- A connection that used its three attempts.
abbrev used_up : LiveConnection Fixed
used_up = record fresh { supervisor = record (fresh.supervisor) { attempts = 3 } }

used_up_test : exhausted used_up.supervisor ≡ true
unfolding exhausted
used_up_test = refl

abbrev arriving : List (BrokerMessage Fixed × Timestamp)
arriving = (message fill 3 [], 10) ∷ (message fill 5 [], 11) ∷ []
