-- ===== src/Live/Heartbeat.antt =====
-- `HeartbeatMonitor` of include/ptl/live/connection.hpp and src/live/connection.cpp.
use predictive_trading_lab.Prelude.{
  ℕ, suc, ◌-◌, ◌≤◌, ◌<◌, ◌≡◌, ◌≢◌, ◌⊎◌, Bool, true, false, not, ◌&&◌, ◌||◌, ltb, leb, if◌then◌else◌,
  arith,
}
use predictive_trading_lab.Core.Types.{Timestamp, no_timestamp, is_set, Duration}

pub record HeartbeatConfig : Type 0 where
  pub interval : Duration
  pub degraded_after : Duration
  pub dead_after : Duration

pub record HeartbeatMonitor : Type 0 where
  pub config : HeartbeatConfig
  pub last_heartbeat : Timestamp
  pub last_activity : Timestamp
  pub beats : ℕ
  pub misses : ℕ

-- A new monitor.
abbrev pub heartbeat_monitor : HeartbeatConfig → HeartbeatMonitor
heartbeat_monitor config = record {
  config = config;
  last_heartbeat = no_timestamp;
  last_activity = no_timestamp;
  beats = 0;
  misses = 0;
}

unfoldable pub record_heartbeat : HeartbeatMonitor → Timestamp → HeartbeatMonitor
record_heartbeat h now = record h { last_heartbeat = now; last_activity = now; beats = suc h.beats }

unfoldable pub record_activity : HeartbeatMonitor → Timestamp → HeartbeatMonitor
record_activity h now = record h {
  last_activity = now;
  last_heartbeat = if is_set h.last_heartbeat then h.last_heartbeat else now;
}

abbrev pub reference : HeartbeatMonitor → Timestamp
reference h = if is_set h.last_activity then h.last_activity else h.last_heartbeat

unfoldable pub since_last : HeartbeatMonitor → Timestamp → Duration
since_last h now =
    if not (is_set (reference h)) || not (is_set now) || ltb now (reference h)
    then 0
    else now - reference h

-- Nothing was heard of the venue so far.
abbrev pub silent : HeartbeatMonitor → Bool
silent h = not (is_set h.last_activity) && not (is_set h.last_heartbeat)

unfoldable pub healthy : HeartbeatMonitor → Timestamp → Bool
unfolding since_last
healthy h now = if silent h then false else leb (since_last h now) h.config.degraded_after

unfoldable pub degraded : HeartbeatMonitor → Timestamp → Bool
unfolding since_last
degraded h now =
    ltb h.config.degraded_after (since_last h now) && leb (since_last h now) h.config.dead_after

unfoldable pub dead : HeartbeatMonitor → Timestamp → Bool
unfolding since_last
dead h now = if silent h then false else ltb h.config.dead_after (since_last h now)

unfoldable pub note_miss : HeartbeatMonitor → HeartbeatMonitor
note_miss h = record h { misses = suc h.misses }

unfoldable pub reset : HeartbeatMonitor → Timestamp → HeartbeatMonitor
reset h now = record h { last_heartbeat = now; last_activity = now }

-- Of a venue that was heard at `t`, the three answers at a later time are those of the silence
-- since then: healthy up to the first limit, degraded up to the second, dead beyond. With the
-- limits in order exactly one of the three holds.
pub heard_grades :
    (h : HeartbeatMonitor) (heard later : Timestamp)
    → heard ≢ no_timestamp
    → heard ≤ later
    → h.config.degraded_after ≤ h.config.dead_after
    → let g = record_activity h heard in
      let silence = later - heard in
      ((silence ≤ h.config.degraded_after)
        × (healthy g later ≡ true)
        × (degraded g later ≡ false)
        × (dead g later ≡ false))
      ⊎ ((h.config.degraded_after < silence)
          × (silence ≤ h.config.dead_after)
          × (healthy g later ≡ false)
          × (degraded g later ≡ true)
          × (dead g later ≡ false))
      ⊎ ((h.config.dead_after < silence)
          × (healthy g later ≡ false)
          × (degraded g later ≡ false)
          × (dead g later ≡ true))
unfolding record_activity healthy degraded dead
heard_grades h heard later set le limits = ground arith
