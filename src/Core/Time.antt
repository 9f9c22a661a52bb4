-- ===== src/Core/Time.antt =====
-- include/ptl/core/time.hpp and src/core/time.cpp: the chain of timestamps from the venue's stamp
-- to the acknowledgement, its validation, and the label intervals of an observation.
pub mod Chain
use predictive_trading_lab.Prelude.{
  ℕ, ◌+◌, Bool, true, false, ◌&&◌, ltb, leb, u64, if◌then◌else◌, Option, none, some, List, [], ◌∷◌,
}
use predictive_trading_lab.Core.Types.{Timestamp, no_timestamp, is_set}

pub data Stage : Type 0 where
  exchange_time receive_time feature_end_time decision_time : Stage
  submitted_time arrival_time fill_time ack_time count : Stage

-- The stages that are not reached hold `no_timestamp`.
pub record LifecycleTimes : Type 0 where
  pub exchange_time : Timestamp
  pub receive_time : Timestamp
  pub feature_end_time : Timestamp
  pub decision_time : Timestamp
  pub submitted_time : Timestamp
  pub arrival_time : Timestamp
  pub fill_time : Timestamp
  pub ack_time : Timestamp

abbrev pub no_times : LifecycleTimes
no_times = record {
  exchange_time = no_timestamp;
  receive_time = no_timestamp;
  feature_end_time = no_timestamp;
  decision_time = no_timestamp;
  submitted_time = no_timestamp;
  arrival_time = no_timestamp;
  fill_time = no_timestamp;
  ack_time = no_timestamp;
}

unfoldable pub at : LifecycleTimes → Stage → Timestamp
at t Stage.exchange_time = t.exchange_time
at t Stage.receive_time = t.receive_time
at t Stage.feature_end_time = t.feature_end_time
at t Stage.decision_time = t.decision_time
at t Stage.submitted_time = t.submitted_time
at t Stage.arrival_time = t.arrival_time
at t Stage.fill_time = t.fill_time
at t Stage.ack_time = t.ack_time
at t Stage.count = no_timestamp

unfoldable pub set : LifecycleTimes → Stage → Timestamp → LifecycleTimes
set t Stage.exchange_time ts = record t { exchange_time = ts }
set t Stage.receive_time ts = record t { receive_time = ts }
set t Stage.feature_end_time ts = record t { feature_end_time = ts }
set t Stage.decision_time ts = record t { decision_time = ts }
set t Stage.submitted_time ts = record t { submitted_time = ts }
set t Stage.arrival_time ts = record t { arrival_time = ts }
set t Stage.fill_time ts = record t { fill_time = ts }
set t Stage.ack_time ts = record t { ack_time = ts }
set t Stage.count ts = t

pub data ChainRule : Type 0 where
  monotonic strictly_after : ChainRule

pub record ChainViolation : Type 0 where
  pub earlier : Stage
  pub later : Stage
  pub earlier_ts : Timestamp
  pub later_ts : Timestamp
  pub rule : ChainRule

pub record Edge : Type 0 where
  pub source : Stage
  pub target : Stage
  pub rule : ChainRule

abbrev edge : Stage → Stage → Edge
edge a b = record { source = a; target = b; rule = monotonic }

-- `kEdges`.
unfoldable pub edges : List Edge
edges =
    edge Stage.exchange_time Stage.receive_time
    ∷ edge Stage.receive_time Stage.feature_end_time
    ∷ edge Stage.feature_end_time Stage.decision_time
    ∷ edge Stage.decision_time Stage.submitted_time
    ∷ edge Stage.submitted_time Stage.arrival_time
    ∷ edge Stage.arrival_time Stage.fill_time
    ∷ edge Stage.fill_time Stage.ack_time
    ∷ []

-- The body of the loop over `kEdges`; `rest` is what the later rounds return.
unfoldable pub check_edge : LifecycleTimes → Edge → Option ChainViolation → Option ChainViolation
check_edge t e rest =
    let a = at t e.source in
    let b = at t e.target in
    if is_set a && is_set b && ltb b a
    then some (record {
      earlier = e.source;
      later = e.target;
      earlier_ts = a;
      later_ts = b;
      rule = e.rule;
    })
    else rest

unfoldable pub check_edges : LifecycleTimes → List Edge → Option ChainViolation
check_edges t [] = none
check_edges t (e ∷ es) = check_edge t e (check_edges t es)

unfoldable pub validate_chain : LifecycleTimes → Option ChainViolation
validate_chain t =
    if is_set t.decision_time && is_set t.arrival_time && leb t.arrival_time t.decision_time
    then some (record {
      earlier = Stage.decision_time;
      later = Stage.arrival_time;
      earlier_ts = t.decision_time;
      later_ts = t.arrival_time;
      rule = strictly_after;
    })
    else check_edges t edges

-- `check_chain` in a release build (`NDEBUG`) returns; in a debug build a violation throws.
pub data Build : Type 0 where
  release debug : Build

pub data Checked : Type 0 where
  returned : Bool → Checked
  thrown : ChainViolation → Checked

unfoldable pub on_violation : Build → ChainViolation → Checked
on_violation release v = returned false
on_violation debug v = thrown v

-- The number is `g_chain_violations`, before and after the call.
unfoldable pub check_chain : Build → LifecycleTimes → ℕ → Checked × ℕ
unfolding on_violation
check_chain b t violations = elim (validate_chain t) [
  | none ↦ (returned true, violations)
  | some v ↦ (on_violation b v, u64 (violations + 1))
]

pub record EventTime : Type 0 where
  pub exchange_time : Timestamp
  pub receive_time : Timestamp

unfoldable pub event_time_ok : EventTime → Bool
event_time_ok t =
    is_set t.exchange_time && is_set t.receive_time && leb t.exchange_time t.receive_time

pub record ObservationInterval : Type 0 where
  pub sample_start_time : Timestamp
  pub feature_end_time : Timestamp
  pub label_start_time : Timestamp
  pub label_end_time : Timestamp

unfoldable pub interval_ok : ObservationInterval → Bool
interval_ok o =
    leb o.sample_start_time o.feature_end_time
    && leb o.feature_end_time o.label_start_time
    && ltb o.label_start_time o.label_end_time

-- Half-open overlap with [begin, end).
unfoldable pub label_overlaps : ObservationInterval → Timestamp → Timestamp → Bool
label_overlaps o start finish = ltb o.label_start_time finish && ltb start o.label_end_time
