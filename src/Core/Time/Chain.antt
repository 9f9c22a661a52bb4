-- ===== src/Core/Time/Chain.antt =====
-- What `validate_chain` and `check_chain` of src/core/time.cpp decide.
use predictive_trading_lab.Prelude.{
  ℕ, ◌+◌, ◌≤◌, ◌<◌, ◌≡◌, ◌∙◌, ◌≢◌, ◌↔◌, ◌⊎◌, inl, inr, refl, true, false, u64, Option, none, some,
  List, [], ◌∷◌, arith, All, Option-cases,
}
use predictive_trading_lab.Core.Types.{Timestamp, no_timestamp}
use predictive_trading_lab.Core.Time.{
  Stage, LifecycleTimes, no_times, at, set, monotonic, ChainViolation, Edge, edges, check_edge,
  check_edges, validate_chain, Build, release, debug, returned, thrown, on_violation, check_chain,
}

-- Two stamps are in order if both are reached.
abbrev pub InOrder : Timestamp → Timestamp → Type 0
InOrder a b = a ≢ no_timestamp → b ≢ no_timestamp → a ≤ b

abbrev pub InStrictOrder : Timestamp → Timestamp → Type 0
InStrictOrder a b = a ≢ no_timestamp → b ≢ no_timestamp → a < b

-- The rules of the chain, written out.
pub record IsOrderly (t : LifecycleTimes) : Type 0 where
  pub not_same_bar : InStrictOrder t.decision_time t.arrival_time
  pub received : InOrder t.exchange_time t.receive_time
  pub featured : InOrder t.receive_time t.feature_end_time
  pub decided : InOrder t.feature_end_time t.decision_time
  pub submitted : InOrder t.decision_time t.submitted_time
  pub arrived : InOrder t.submitted_time t.arrival_time
  pub filled : InOrder t.arrival_time t.fill_time
  pub acknowledged : InOrder t.fill_time t.ack_time

EdgeHolds : LifecycleTimes → Edge → Type 0
EdgeHolds t e = InOrder (at t e.source) (at t e.target)

check_edge-none :
    (t : LifecycleTimes) (e : Edge) (rest : Option ChainViolation)
    → check_edge t e rest ≡ none
    → EdgeHolds t e × (rest ≡ none)
unfolding check_edge EdgeHolds
check_edge-none t e rest h = ground arith

check_edge-holds :
    (t : LifecycleTimes) (e : Edge) (rest : Option ChainViolation)
    → EdgeHolds t e
    → check_edge t e rest ≡ rest
unfolding check_edge EdgeHolds
check_edge-holds t e rest h = ground arith

check_edges-none :
    (t : LifecycleTimes) (es : List Edge) → check_edges t es ≡ none → All (EdgeHolds t) es
unfolding check_edges
check_edges-none t [] h = tt
check_edges-none t (e ∷ es) h =
    let (holds, rest) = check_edge-none t e (check_edges t es) h in
    (holds, check_edges-none t es rest)

check_edges-holds :
    (t : LifecycleTimes) (es : List Edge) → All (EdgeHolds t) es → check_edges t es ≡ none
unfolding check_edges
check_edges-holds t [] h = refl
check_edges-holds t (e ∷ es) h =
    check_edge-holds t e (check_edges t es) h.0 ∙ check_edges-holds t es h.1

IsOrderly-edges : (t : LifecycleTimes) → IsOrderly t → All (EdgeHolds t) edges
unfolding edges EdgeHolds at
IsOrderly-edges t v = (
  v.received,
  (v.featured, (v.decided, (v.submitted, (v.arrived, (v.filled, (v.acknowledged, tt)))))),
)

edges-IsOrderly :
    (t : LifecycleTimes)
    → InStrictOrder t.decision_time t.arrival_time
    → All (EdgeHolds t) edges
    → IsOrderly t
unfolding edges EdgeHolds at
edges-IsOrderly t s h = record {
  not_same_bar = s;
  received = h.0;
  featured = h.1.0;
  decided = h.1.1.0;
  submitted = h.1.1.1.0;
  arrived = h.1.1.1.1.0;
  filled = h.1.1.1.1.1.0;
  acknowledged = h.1.1.1.1.1.1.0;
}

validate_chain-same_bar :
    (t : LifecycleTimes)
    → validate_chain t ≡ none
    → InStrictOrder t.decision_time t.arrival_time × (check_edges t edges ≡ none)
unfolding validate_chain
validate_chain-same_bar t h = ground arith

validate_chain-later :
    (t : LifecycleTimes)
    → InStrictOrder t.decision_time t.arrival_time
    → validate_chain t ≡ check_edges t edges
unfolding validate_chain
validate_chain-later t h = ground arith

-- `validate_chain` reports no violation exactly when every rule of the chain holds: of each of
-- the seven pairs of neighbouring stages, if both are reached, the later is not before the
-- earlier, and an arrival is strictly after its decision.
pub validate_chain-IsOrderly : (t : LifecycleTimes) → (validate_chain t ≡ none) ↔ IsOrderly t
validate_chain-IsOrderly t = (
  λ h.
      let (strict, none_left) = validate_chain-same_bar t h in
      edges-IsOrderly t strict (check_edges-none t edges none_left),
  λ v. validate_chain-later t v.not_same_bar ∙ check_edges-holds t edges (IsOrderly-edges t v),
)

-- All eight stages are reached.
pub record IsComplete (t : LifecycleTimes) : Type 0 where
  pub exchange : t.exchange_time ≢ no_timestamp
  pub receive : t.receive_time ≢ no_timestamp
  pub feature : t.feature_end_time ≢ no_timestamp
  pub decision : t.decision_time ≢ no_timestamp
  pub submission : t.submitted_time ≢ no_timestamp
  pub arrival : t.arrival_time ≢ no_timestamp
  pub fill : t.fill_time ≢ no_timestamp
  pub ack : t.ack_time ≢ no_timestamp

-- Of a chain with all eight stages reached that passes validation: the information that a
-- decision rests on was received by its time, and the fill is strictly after the decision, so
-- after every stamp of that information.
pub complete_chain_causal :
    (t : LifecycleTimes)
    → IsComplete t
    → validate_chain t ≡ none
    → (t.exchange_time ≤ t.receive_time)
      × (t.receive_time ≤ t.feature_end_time)
      × (t.feature_end_time ≤ t.decision_time)
      × (t.decision_time < t.fill_time)
      × (t.fill_time ≤ t.ack_time)
complete_chain_causal t c h = ground (arith, (validate_chain-IsOrderly t).0 h)

-- What a reported violation says of the chain that it was found in.
abbrev pub Explains : LifecycleTimes → ChainViolation → Type 0
Explains t v =
    (at t v.earlier ≡ v.earlier_ts)
    × (at t v.later ≡ v.later_ts)
    × (v.earlier_ts ≢ no_timestamp)
    × (v.later_ts ≢ no_timestamp)
    × (v.later_ts ≤ v.earlier_ts)
    × (v.rule ≡ monotonic → v.later_ts < v.earlier_ts)

check_edge-Explains :
    (t : LifecycleTimes) (e : Edge) (rest : Option ChainViolation) (v : ChainViolation)
    → ((w : ChainViolation) → rest ≡ some w → Explains t w)
    → check_edge t e rest ≡ some v
    → Explains t v
unfolding check_edge
check_edge-Explains t e rest v f h = ground (arith, f v)

check_edges-Explains :
    (t : LifecycleTimes) (es : List Edge) (v : ChainViolation)
    → check_edges t es ≡ some v
    → Explains t v
unfolding check_edges
check_edges-Explains t [] v h = cc
check_edges-Explains t (e ∷ es) v h =
    check_edge-Explains t e (check_edges t es) v (check_edges-Explains t es) h

-- A violation that `validate_chain` reports is real: it names two reached stages with the stamps
-- that they hold, and the later stage is at or before the earlier one, strictly before it under
-- the monotonic rule. Where the arrival is not after the decision, that pair is the one named.
pub validate_chain-Explains :
    (t : LifecycleTimes) (v : ChainViolation)
    → validate_chain t ≡ some v
    → Explains t v
      × (((v.earlier ≡ Stage.decision_time) × (v.later ≡ Stage.arrival_time))
          ⊎ (t.decision_time ≡ no_timestamp)
          ⊎ (t.arrival_time ≡ no_timestamp)
          ⊎ (t.decision_time < t.arrival_time))
unfolding validate_chain at
validate_chain-Explains t v h = ground (arith, check_edges-Explains t edges v)

-- Stamping one stage changes that stage and no other; `count` is no stage.
at-set :
    (t : LifecycleTimes) (s : Stage) (ts : Timestamp)
    → s ≢ Stage.count
    → (at (set t s ts) s ≡ ts) × ((r : Stage) → r ≢ s → at (set t s ts) r ≡ at t r)
unfolding at set
at-set t s ts h = (at-set_self s h, at-set_ne s)
  where
    at-set_self : (s : Stage) → s ≢ Stage.count → at (set t s ts) s ≡ ts
    at-set_self s h = ground arith

    at-set_ne : (s r : Stage) → r ≢ s → at (set t s ts) r ≡ at t r
    at-set_ne s r h = ground arith

-- The chain is checked between neighbours only: whatever the two stamps are, a chain whose one
-- stage between them is not reached passes, also where its features end before the event that
-- they are built from.
pub gap_unchecked :
    (exchange feature_end : Timestamp)
    → validate_chain (record no_times { exchange_time = exchange; feature_end_time = feature_end })
      ≡ none
unfolding validate_chain edges check_edges check_edge at
gap_unchecked exchange feature_end = ground arith

check_chain-answer :
    (b : Build) (t : LifecycleTimes) (n : ℕ) (v : ChainViolation)
    → validate_chain t ≡ some v
    → ((b ≡ release) × ((check_chain b t n).0 ≡ returned false))
      ⊎ ((b ≡ debug) × ((check_chain b t n).0 ≡ thrown v))
unfolding check_chain on_violation
check_chain-answer release t n v e = inl (refl, rw (e, check_chain))
check_chain-answer debug t n v e = inr (refl, rw (e, check_chain))

-- `check_chain` accepts exactly an orderly chain and then leaves the count alone; any other is
-- counted in both builds, and the debug build throws it while the release build returns false.
pub check_chain-IsOrderly :
    (b : Build) (t : LifecycleTimes) (n : ℕ)
    → (IsOrderly t × (check_chain b t n ≡ (returned true, n)))
      ⊎ ((v : ChainViolation) × (validate_chain t ≡ some v)
          × (¬ IsOrderly t)
          × ((check_chain b t n).1 ≡ u64 (n + 1))
          × (((b ≡ release) × ((check_chain b t n).0 ≡ returned false))
              ⊎ ((b ≡ debug) × ((check_chain b t n).0 ≡ thrown v))))
unfolding check_chain on_violation
check_chain-IsOrderly b t n = elim (Option-cases (validate_chain t)) [
  | inl e ↦ inl ((validate_chain-IsOrderly t).0 e, rw (e, check_chain))
  | inr (v, e) ↦ inr (
    v,
    e,
    λ o. cc (e, (validate_chain-IsOrderly t).1 o),
    rw (e, check_chain),
    check_chain-answer b t n v e,
  )
]
