-- ===== src/Market/Source/Replay.antt =====
-- The replay of src/market/source.cpp: what `create` accepts, and what a run of `next` delivers.
use predictive_trading_lab.Prelude.{
  ℕ, zero, suc, ◌≤◌, ◌<◌, ◌≡◌, ◌↔◌, refl, inl, inr, Bool, true, false, ltb, if◌then◌else◌, Option,
  none, some, List, [], ◌∷◌, map, ap, ◌∙◌, length, get_elem?, All, Result, ok, err, arith,
  Option-cases, Bool-cases,
}
use predictive_trading_lab.Core.Types.{Timestamp, is_set}
use predictive_trading_lab.Core.Clock.{SimulatedClock, ClockError, backwards, advance_to, reset}
use predictive_trading_lab.Market.Event.{MarketEvent, exchange_time_of, receive_time_of}
use predictive_trading_lab.Market.Source.{
  ReplaySource, first_unordered, first_early, first_time, rewind, create_replay, next, reset_replay,
}
use predictive_trading_lab.Market.Source.Merge.Order.{IsInOrder}
use predictive_trading_lab.Market.Source.Merge.Sorted.{
  IsChronological, first_unordered-IsChronological,
}

-- The events that a consumer gets, with the time that its clock shows then, and what is thrown.
abbrev pub Delivery : Type 0 → Type 0
Delivery D = List (MarketEvent D × Timestamp) × Option ClockError

module _ {D : Type 0} where
  abbrev IsReceived : MarketEvent D → Type 0
  IsReceived e = exchange_time_of e ≤ receive_time_of e

  first_early-All :
      (i : ℕ) (events : List (MarketEvent D))
      → (first_early i events ≡ none) ↔ All IsReceived events
  unfolding first_early
  first_early-All i [] = (λ h. tt, λ h. refl)
  first_early-All i (e ∷ events) =
      let (sound, complete) = first_early-All (suc i) events in
      (λ h. ground (arith, sound), λ h. ground (arith, complete))

  -- `create` accepts a stream with a clock exactly where the stream is chronological and none of
  -- its events is received before it is stamped; it starts at the first event with the clock at
  -- the time at which that event is received.
  pub create_replay_lem :
      (events : List (MarketEvent D)) (clock : SimulatedClock)
      → (create_replay events (some clock)
          ≡ ok (
            record { events = events; consumed = 0; first = first_time events },
            rewind (first_time events) clock,
          ))
        ↔ (IsChronological events × All IsReceived events)
  unfolding create_replay
  create_replay_lem events clock =
      let (chronological, in_order) = first_unordered-IsChronological events in
      let (received, in_time) = first_early-All 0 events in
      (
        λ h. elim (Option-cases (first_unordered events)) [
          | inl p ↦ elim (Option-cases (first_early 0 events)) [
            | inl q ↦ (chronological p, received q)
            | inr (i, q) ↦ ground arith
          ]
          | inr (i, p) ↦ ground arith
        ],
        λ h. rw (in_order h.0, in_time h.1, create_replay) refl,
      )

  abbrev on_next : Result ClockError (Option (MarketEvent D)) → Timestamp → Delivery D → Delivery D
  on_next (err e) now later = ([], some e)
  on_next (ok none) now later = ([], none)
  on_next (ok (some e)) now later = ((e, now) ∷ later.0, later.1)

  -- A consumer that calls `next` up to `n` times: the events that it gets with the time that its
  -- clock shows, and what was thrown.
  unfoldable pub drain : ℕ → ReplaySource D → SimulatedClock → Delivery D
  drain zero s clock = ([], none)
  drain (suc n) s clock =
      let called = next s clock in on_next called.0 called.2.now (drain n called.1 called.2)

  -- The same, from the list of events and the time of the clock.
  unfoldable pub deliver : Timestamp → List (MarketEvent D) → Delivery D
  deliver now [] = ([], none)
  deliver now (e ∷ events) =
      let later = deliver (receive_time_of e) events in
      if ltb (receive_time_of e) now
      then ([], some (backwards now (receive_time_of e)))
      else ((e, receive_time_of e) ∷ later.0, later.1)

  -- The events that a source has still to deliver.
  unfoldable pub left : ℕ → List (MarketEvent D) → List (MarketEvent D)
  left zero events = events
  left (suc k) [] = []
  left (suc k) (e ∷ events) = left k events

  left-some :
      (k : ℕ) (events : List (MarketEvent D)) (e : MarketEvent D) (rest : List (MarketEvent D))
      → left k events ≡ e ∷ rest
      → (get_elem? events k ≡ some e) × (left (suc k) events ≡ rest)
  unfolding left
  left-some zero [] e rest h = cc
  left-some zero (f ∷ events) e rest h = (cc, cc)
  left-some (suc k) [] e rest h = cc
  left-some (suc k) (f ∷ events) e rest h = left-some k events e rest h

  left-none :
      (k : ℕ) (events : List (MarketEvent D)) → left k events ≡ [] → get_elem? events k ≡ none
  unfolding left
  left-none zero [] h = refl
  left-none zero (f ∷ events) h = cc
  left-none (suc k) [] h = refl
  left-none (suc k) (f ∷ events) h = left-none k events h

  next-none :
      (s : ReplaySource D) (clock : SimulatedClock)
      → left s.consumed s.events ≡ []
      → next s clock ≡ (ok none, s, clock)
  unfolding next
  next-none s clock h = rw (left-none s.consumed s.events h, next) refl

  abbrev consumed_one : ReplaySource D → ReplaySource D
  consumed_one s = record s { consumed = suc s.consumed }

  abbrev after_next :
      ReplaySource D
      → SimulatedClock
      → MarketEvent D
      → Bool
      → Result ClockError (Option (MarketEvent D)) × ReplaySource D × SimulatedClock
  after_next s clock e true = (err (backwards clock.now (receive_time_of e)), consumed_one s, clock)
  after_next s clock e false =
      (ok (some e), consumed_one s, record clock { now = receive_time_of e })

  next-some :
      (s : ReplaySource D) (clock : SimulatedClock) (e : MarketEvent D)
      (rest : List (MarketEvent D)) (b : Bool)
      → left s.consumed s.events ≡ e ∷ rest
      → ltb (receive_time_of e) clock.now ≡ b
      → next s clock ≡ after_next s clock e b
  unfolding next advance_to
  next-some s clock e rest true h k =
      rw ((left-some s.consumed s.events e rest h).0, next) (ground arith)
  next-some s clock e rest false h k =
      rw ((left-some s.consumed s.events e rest h).0, next) (ground arith)

  drain-deliver :
      (n : ℕ) (s : ReplaySource D) (clock : SimulatedClock) (rest : List (MarketEvent D))
      → left s.consumed s.events ≡ rest
      → length rest < n
      → drain n s clock ≡ deliver clock.now rest
  unfolding drain deliver
  drain-deliver zero s clock rest h k = ground (arith, k)
  drain-deliver (suc n) s clock [] h k = rw (next-none s clock h, drain) refl
  drain-deliver (suc n) s clock (e ∷ rest) h k =
      let r = receive_time_of e in
      let (_, left_later) = left-some s.consumed s.events e rest h in
      let later =
        drain-deliver n (consumed_one s) (record clock { now = r }) rest left_later
          (omega (arith, k)) in
      elim (Bool-cases (ltb r clock.now)) [
        | inl b ↦
            ap (λ t. on_next t.0 t.2.now (drain n t.1 t.2)) (next-some s clock e rest true h b)
            ∙ ground arith
        | inr b ↦
            ap (λ t. on_next t.0 t.2.now (drain n t.1 t.2)) (next-some s clock e rest false h b)
            ∙ (ap (on_next (ok (some e)) r) later ∙ ground arith)
      ]

  -- Received no earlier than the event before.
  abbrev pub ReceivedInOrder : MarketEvent D → MarketEvent D → Type 0
  ReceivedInOrder a b = receive_time_of a ≤ receive_time_of b

  abbrev first_received : Timestamp → List (MarketEvent D) → Timestamp
  first_received now [] = now
  first_received now (e ∷ rest) = receive_time_of e

  first_received_idem :
      (now : Timestamp) (events : List (MarketEvent D))
      → first_received now events ≤ first_received (first_received now events) events
  first_received_idem now [] = omega arith
  first_received_idem now (e ∷ events) = omega arith

  deliver-all :
      (now : Timestamp) (events : List (MarketEvent D))
      → now ≤ first_received now events
      → IsInOrder ReceivedInOrder events
      → deliver now events ≡ (map (λ e. (e, receive_time_of e)) events, none)
  unfolding deliver IsInOrder
  deliver-all now [] h k = refl
  deliver-all now (e ∷ []) h k = ground arith
  deliver-all now (e ∷ f ∷ rest) h k =
      ground (arith, deliver-all (receive_time_of e) (f ∷ rest) k.0 k.1)

  abbrev IsStamped : MarketEvent D → Type 0
  IsStamped e = is_set (exchange_time_of e) ≡ true

  abbrev created : List (MarketEvent D) → ReplaySource D
  created events = record { events = events; consumed = 0; first = first_time events }

  rewind-first :
      (events : List (MarketEvent D)) (clock : SimulatedClock)
      → All IsReceived events
      → All IsStamped events
      → (rewind (first_time events) clock).now ≡ first_received clock.now events
  unfolding rewind first_time reset
  rewind-first [] clock h k = refl
  rewind-first (e ∷ events) clock h k = ground arith

  -- A chronological stream of stamped events, each received no earlier than it is stamped and no
  -- earlier than the event before, is accepted; whoever asks often enough gets each event once, in
  -- order and with the clock at the time at which it is received, and nothing is thrown.
  pub replay_delivers :
      (events : List (MarketEvent D)) (clock : SimulatedClock) (n : ℕ)
      → IsChronological events
      → All IsReceived events
      → All IsStamped events
      → IsInOrder ReceivedInOrder events
      → length events < n
      → (s : ReplaySource D) × (started : SimulatedClock) × (create_replay events (some clock)
          ≡ ok (s, started))
        × (drain n s started ≡ (map (λ e. (e, receive_time_of e)) events, none))
  unfolding left
  replay_delivers events clock n chronological received stamped in_order enough =
      let started = rewind (first_time events) clock in
      let at_first = rewind-first events clock received stamped in
      (
        created events,
        started,
        (create_replay_lem events clock).1 (chronological, received),
        drain-deliver n (created events) started events refl enough
            ∙ (ap (λ now. deliver now events) at_first
                ∙ deliver-all (first_received clock.now events) events
                    (first_received_idem clock.now events) in_order),
      )

  -- A feed whose latency shrinks: its stamps are in order and it is accepted, but the second event
  -- is received before the first, so the second call of `next` throws.
  pub shrinking_latency_throws :
      (e f : MarketEvent D) (clock : SimulatedClock)
      → All IsReceived (e ∷ f ∷ [])
      → All IsStamped (e ∷ f ∷ [])
      → exchange_time_of e ≤ exchange_time_of f
      → receive_time_of f < receive_time_of e
      → (s : ReplaySource D) × (started : SimulatedClock) × (create_replay (e ∷ f ∷ []) (some clock)
          ≡ ok (s, started))
        × (drain 3 s started ≡ (
          (e, receive_time_of e) ∷ [],
          some (backwards (receive_time_of e) (receive_time_of f)),
        ))
  unfolding left IsInOrder deliver
  shrinking_latency_throws e f clock received stamped in_order shrinks =
      let started = rewind (first_time (e ∷ f ∷ [])) clock in
      let at_first = rewind-first (e ∷ f ∷ []) clock received stamped in
      (
        created (e ∷ f ∷ []),
        started,
        (create_replay_lem (e ∷ f ∷ []) clock).1 ((in_order, tt), received),
        drain-deliver 3 (created (e ∷ f ∷ [])) started (e ∷ f ∷ []) refl (omega arith)
            ∙ (ap (λ now. deliver now (e ∷ f ∷ [])) at_first ∙ ground arith),
      )

  -- Calls of `next` whose results are not looked at.
  unfoldable pub next_times : ℕ → ReplaySource D → SimulatedClock → ReplaySource D × SimulatedClock
  next_times zero s clock = (s, clock)
  next_times (suc n) s clock = let called = next s clock in next_times n called.1 called.2

  next-keeps :
      (s : ReplaySource D) (clock : SimulatedClock)
      → ((next s clock).1.events ≡ s.events) × ((next s clock).1.first ≡ s.first)
  unfolding next
  next-keeps s clock = (ground arith, ground arith)

  next_times-keeps :
      (n : ℕ) (s : ReplaySource D) (clock : SimulatedClock)
      → ((next_times n s clock).0.events ≡ s.events) × ((next_times n s clock).0.first ≡ s.first)
  unfolding next_times
  next_times-keeps zero s clock = (refl, refl)
  next_times-keeps (suc n) s clock =
      let called = next s clock in
      let (events, first) = next-keeps s clock in
      let (same_events, same_first) = next_times-keeps n called.1 called.2 in
      (same_events ∙ events, same_first ∙ first)

  create_replay-created :
      (events : List (MarketEvent D)) (clock started : SimulatedClock) (s : ReplaySource D)
      → create_replay events (some clock) ≡ ok (s, started)
      → (s ≡ created events) × (started ≡ rewind (first_time events) clock)
  unfolding create_replay
  create_replay-created events clock started s h = (ground arith, ground arith)

  -- However often `next` was called and whatever it threw, `reset` restores the source and the
  -- clock of an accepted stream of stamped events to what `create` made, so a second pass is the
  -- same as the first.
  pub reset_replay-create :
      (events : List (MarketEvent D)) (clock started : SimulatedClock) (s : ReplaySource D) (n : ℕ)
      → create_replay events (some clock) ≡ ok (s, started)
      → is_set s.first ≡ true
      → reset_replay (next_times n s started).0 (next_times n s started).1 ≡ (s, started)
  unfolding reset_replay rewind reset
  reset_replay-create events clock started s n h k =
      let (same_events, same_first) = next_times-keeps n s started in
      let (made, rewound) = create_replay-created events clock started s h in ground arith
