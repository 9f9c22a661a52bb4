-- ===== src/Engine/Loop/Ends.antt =====
-- A run of src/engine/engine.cpp ends: it asks for no more chunks than there are events, and one.
use predictive_trading_lab.Prelude.{
  ℕ, zero, suc, ◌+◌, ◌≤◌, ◌<◌, ◌≡◌, refl, sym, ap, ◌∙◌, ◌⊎◌, inl, inr, Bool, true, false, Option,
  none, some, List, [], ◌∷◌, length, get_elem?, Result, ok, err, arith, Result-cases, Bool-cases,
  Option-cases,
}
use mathlib.Core.Path.{subst}
use predictive_trading_lab.Prelude.Double.{Double}
use predictive_trading_lab.Core.Clock.{ClockError, SimulatedClock}
use predictive_trading_lab.Market.Event.{MarketEvent}
use predictive_trading_lab.Market.Source.{ReplaySource, next}
use predictive_trading_lab.Engine.{Engine, Setup, Answer, RunSummary}
use predictive_trading_lab.Engine.Callbacks.{not_started}
use predictive_trading_lab.Engine.Gated.{on_pulled-Follows}
use predictive_trading_lab.Engine.Loop.{
  step_event, step_loop, step, run_loop, run, begin, on_event, on_pulled, pulled, then_finish,
}
use predictive_trading_lab.Engine.Loop.Chunks.{step_event-exhausted}

get_elem?-lt : {A : Type 0} (xs : List A) (k : ℕ) (a : A) → get_elem? xs k ≡ some a → k < length xs
get_elem?-lt [] k a h = cc
get_elem?-lt (x ∷ xs) zero a h = omega arith
get_elem?-lt (x ∷ xs) (suc k) a h = omega (arith, get_elem?-lt xs k a h)

too_few : (a b : ℕ) → a ≤ b → ¬ (b < a + 0)
too_few a b h k = omega (arith, h, k)

module _ {D : Type 0} where
  -- The source after `n` events.
  abbrev Advanced : ReplaySource D → ReplaySource D → ℕ → Type 0
  Advanced s t n =
      (t.events ≡ s.events)
      × (t.consumed ≡ s.consumed + n)
      × ((n ≡ 0) ⊎ (t.consumed ≤ length s.events))

  next-Advanced :
      (s : ReplaySource D) (clock : SimulatedClock) (e : MarketEvent D)
      → (next s clock).0 ≡ ok (some e)
      → Advanced s (next s clock).1 1
  unfolding next
  next-Advanced s clock e h = elim (Option-cases (get_elem? s.events s.consumed)) [
    | inl p ↦ ground arith
    | inr (f, p) ↦
        let below = get_elem?-lt s.events s.consumed f p in
        (ground arith, ground arith, inr (ground arith))
  ]

  Advanced-trans :
      (s t u : ReplaySource D) (n : ℕ) → Advanced s t 1 → Advanced t u n → Advanced s u (suc n)
  Advanced-trans s t u n (same, one, below) (same', more, below') =
      let lengths : length t.events ≡ length s.events = ap length same in
      (
        same' ∙ same,
        omega (arith, one, more),
        inr (ground (arith, one, more, below, below', lengths)),
      )

  Advanced-none : (s : ReplaySource D) (k : ℕ) → k ≡ 0 → Advanced s s k
  Advanced-none s k h = (refl, omega (arith, h), inl h)

module _ {D : Type 0} ⦃F : Double D⦄ {R S : Type 0} (setup : Setup D R S) where
  on_pulled-true :
      (e : Engine D R S) (r : Result ClockError (Option (MarketEvent D)))
      → (on_pulled setup e r).1 ≡ ok true
      → (event : MarketEvent D) × (r ≡ ok (some event))
  on_pulled-true e (err w) h = cc
  on_pulled-true e (ok none) h = cc
  on_pulled-true e (ok (some event)) h = (event, refl)

  step_event-Advanced :
      (e : Engine D R S)
      → (step_event setup e).1 ≡ ok true
      → Advanced e.source (step_event setup e).0.source 1
  unfolding step_event
  step_event-Advanced e h =
      let called = next e.source e.clock in
      let pulled_one = pulled setup e called.1 called.2 in
      let (event, found) = on_pulled-true pulled_one called.0 h in
      let (kept, _, _) = on_pulled-Follows setup pulled_one called.0 in
      subst (λ t. Advanced e.source t 1) (sym kept) (next-Advanced e.source e.clock event found)

  on_event-ok :
      (one : Answer D R S Bool) (later : Answer D R S ℕ) (k : ℕ)
      → (on_event setup one later).1 ≡ ok k
      → ((one.1 ≡ ok false) × (k ≡ 0) × ((on_event setup one later).0 ≡ one.0))
        ⊎ ((one.1 ≡ ok true)
            × ((n : ℕ) × (later.1 ≡ ok n) × (k ≡ suc n) × ((on_event setup one later).0 ≡ later.0)))
  on_event-ok (e, err w) later k h = cc
  on_event-ok (e, ok false) later k h = inl (refl, cc, refl)
  on_event-ok (e, ok true) (f, ok n) k h = inr (refl, (n, refl, cc, refl))
  on_event-ok (e, ok true) (f, err w) k h = cc

  step_loop-Advanced :
      (n : ℕ) (e : Engine D R S) (k : ℕ)
      → (step_loop setup n e).1 ≡ ok k
      → Advanced e.source (step_loop setup n e).0.source k
  unfolding step_loop
  step_loop-Advanced zero e k h = Advanced-none e.source k (ground (arith, h))
  step_loop-Advanced (suc n) e k h =
      let one = step_event setup e in
      let later = step_loop setup n one.0 in
      elim (on_event-ok one later k h) [
        | inl (stopped, none_left, same) ↦
            let kept = same ∙ step_event-exhausted setup e stopped in
            subst (λ f. Advanced e.source f.source k) (sym kept)
              (Advanced-none e.source k none_left)
        | inr (went, (m, ended, more, same)) ↦
            let further = step_loop-Advanced n one.0 m ended in
            let all =
              Advanced-trans e.source one.0.source later.0.source m (step_event-Advanced e went)
                further in
            subst (λ f. Advanced e.source f.source k) (sym same)
              (subst (Advanced e.source later.0.source) (sym more) all)
      ]

  abbrev Ended : Option (Answer D R S (RunSummary D)) → Type 0
  Ended o = (a : Answer D R S (RunSummary D)) × (o ≡ some a)

  run_loop-next :
      (fuel n : ℕ) (e : Engine D R S)
      → e.started ≡ true
      → (step_loop setup 1024 e).1 ≡ ok (suc n)
      → run_loop setup (suc fuel) e ≡ run_loop setup fuel (step_loop setup 1024 e).0
  unfolding run_loop step
  run_loop-next fuel n e h k = ground arith

  run_loop-Ended :
      (fuel : ℕ) (e : Engine D R S)
      → e.source.consumed ≤ length e.source.events
      → length e.source.events < e.source.consumed + fuel
      → Ended (run_loop setup fuel e)
  unfolding run_loop step
  run_loop-Ended zero e b h = elim (too_few e.source.consumed (length e.source.events) b h) [ ]
  run_loop-Ended (suc fuel) e b h = elim (Bool-cases e.started) [
    | inr idle ↦ ((e, err not_started), ground arith)
    | inl going ↦ elim (Result-cases (step_loop setup 1024 e).1) [
      | inr (w, p) ↦ (((step_loop setup 1024 e).0, err w), ground arith)
      | inl (zero, p) ↦ (then_finish setup (step_loop setup 1024 e).0, ground arith)
      | inl (suc n, p) ↦
          let f = (step_loop setup 1024 e).0 in
          let (same, more, below) = step_loop-Advanced 1024 e (suc n) p in
          let lengths : length f.source.events ≡ length e.source.events = ap length same in
          let (a, q) =
            run_loop-Ended fuel f (ground (arith, below, lengths))
              (omega (arith, h, more, lengths)) in
          (a, run_loop-next fuel n e going p ∙ q)
    ]
  ]

  begin-source : (e : Engine D R S) → (begin setup e).0.source ≡ e.source
  unfolding begin
  begin-source e = ground arith

  -- A run of a source that has delivered nothing yet ends after at most one chunk more than there
  -- are events, with a summary or with an error; it is never out of chunks.
  pub run-Ended :
      (e : Engine D R S) (fuel : ℕ)
      → e.source.consumed ≡ 0
      → length e.source.events < fuel
      → (a : Answer D R S (RunSummary D)) × (run setup fuel e ≡ some a)
  unfolding run
  run-Ended e fuel h k =
      let begun = begin setup e in
      let same = begin-source e in
      elim (Result-cases begun.1) [
        | inr (w, p) ↦ ((begun.0, err w), rw (p, run) refl)
        | inl (b, p) ↦
            let (a, q) =
              run_loop-Ended fuel begun.0 (ground (arith, same, h)) (ground (arith, same, h, k)) in
            (a, rw (p, run) q)
      ]
