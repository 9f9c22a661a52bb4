-- ===== src/Engine/Loop/Chunks.antt =====
-- The promise of include/ptl/engine/engine.hpp that neither the events nor their order depend on
-- the size of the chunks in which a run is stepped, and the end of a run.
use predictive_trading_lab.Prelude.{
  ℕ, zero, suc, ◌+◌, ◌≡◌, ◌≢◌, refl, sym, ap, ◌∙◌, Bool, true, false, Option, none, some, Result,
  ok, err, arith,
}
use predictive_trading_lab.Prelude.Double.{Double}
use predictive_trading_lab.Core.Clock.{ClockError}
use predictive_trading_lab.Market.Event.{MarketEvent}
use predictive_trading_lab.Market.Source.{next}
use predictive_trading_lab.Engine.{Engine, Setup, Answer}
use predictive_trading_lab.Engine.Handlers.{handle_event}
use predictive_trading_lab.Engine.Loop.{
  after_handler, pulled, on_pulled, step_event, step_loop, on_event, add_one, count_event,
}

zero_add : (m : ℕ) → 0 + m ≡ m
zero_add m = omega arith

suc_add : (n m : ℕ) → suc n + m ≡ suc (n + m)
suc_add n m = omega arith

module _ {D : Type 0} ⦃F : Double D⦄ {R S : Type 0} (setup : Setup D R S) where
  -- A second chunk after a first: an error of the first ends it, else the events add up.
  abbrev add_count : ℕ → Answer D R S ℕ → Answer D R S ℕ
  add_count k (e, ok n) = (e, ok (k + n))
  add_count k (e, err w) = (e, err w)

  abbrev pub then_step : Answer D R S ℕ → (Engine D R S → Answer D R S ℕ) → Answer D R S ℕ
  then_step (e, ok k) f = add_count k (f e)
  then_step (e, err w) f = (e, err w)

  add_count-zero : (a : Answer D R S ℕ) → add_count 0 a ≡ a
  add_count-zero (e, ok n) = ap (λ k. (e, ok k)) (omega arith)
  add_count-zero (e, err w) = refl

  add_count-suc : (k : ℕ) (a : Answer D R S ℕ) → add_count (suc k) a ≡ add_one setup (add_count k a)
  add_count-suc k (e, ok n) = ap (λ k. (e, ok k)) (omega arith)
  add_count-suc k (e, err w) = refl

  add_one-then :
      (a : Answer D R S ℕ) (f : Engine D R S → Answer D R S ℕ)
      → then_step (add_one setup a) f ≡ add_one setup (then_step a f)
  add_one-then (e, ok k) f = add_count-suc k (f e)
  add_one-then (e, err w) f = refl

  after_handler-true : (a : Answer D R S Bool) → (after_handler setup a).1 ≢ ok false
  after_handler-true (e, ok b) h = cc
  after_handler-true (e, err w) h = cc

  on_pulled-none :
      (e : Engine D R S) (r : Result ClockError (Option (MarketEvent D)))
      → (on_pulled setup e r).1 ≡ ok false
      → (r ≡ ok none) × ((on_pulled setup e r).0 ≡ e)
  on_pulled-none e (err w) h = cc
  on_pulled-none e (ok none) h = (refl, refl)
  on_pulled-none e (ok (some event)) h =
      elim (after_handler-true (handle_event setup (count_event setup e event) event) h) [ ]

  next-none :
      (e : Engine D R S)
      → (next e.source e.clock).0 ≡ ok none
      → ((next e.source e.clock).1 ≡ e.source) × ((next e.source e.clock).2 ≡ e.clock)
  unfolding next
  next-none e h = (ground arith, ground arith)

  pub step_event-exhausted :
      (e : Engine D R S) → (step_event setup e).1 ≡ ok false → (step_event setup e).0 ≡ e
  unfolding step_event
  step_event-exhausted e h =
      let called = next e.source e.clock in
      let (nothing, same) = on_pulled-none (pulled setup e called.1 called.2) called.0 h in
      let (source, clock) = next-none e nothing in
      same
      ∙ (ap (λ s. pulled setup e s called.2) source ∙ ap (λ c. pulled setup e e.source c) clock)

  on_event-false :
      (one : Answer D R S Bool) (later : Answer D R S ℕ)
      → one.1 ≡ ok false
      → on_event setup one later ≡ (one.0, ok 0)
  on_event-false (e, ok false) later h = refl
  on_event-false (e, ok true) later h = cc
  on_event-false (e, err w) later h = cc

  exhausted-step :
      (e : Engine D R S) (m : ℕ)
      → (step_event setup e).1 ≡ ok false
      → step_loop setup m e ≡ (e, ok 0)
  unfolding step_loop
  exhausted-step e zero h = refl
  exhausted-step e (suc m) h =
      let one = step_event setup e in
      on_event-false one (step_loop setup m one.0) h
      ∙ ap (λ x. (x, ok 0)) (step_event-exhausted e h)

  on_event-then :
      (one : Answer D R S Bool) (later : Answer D R S ℕ) (m : ℕ)
      → (one.1 ≡ ok false → step_loop setup m one.0 ≡ (one.0, ok 0))
      → then_step (on_event setup one later) (step_loop setup m)
        ≡ on_event setup one (then_step later (step_loop setup m))
  on_event-then (e, err w) later m h = refl
  on_event-then (e, ok false) later m h = ap (add_count 0) (h refl)
  on_event-then (e, ok true) later m h = add_one-then later (step_loop setup m)

  -- A chunk of `n` events and then one of `m` are one of `n + m`: the same state, the same events
  -- and the same error.
  pub step_loop-chunks :
      (n m : ℕ) (e : Engine D R S)
      → step_loop setup (n + m) e ≡ then_step (step_loop setup n e) (step_loop setup m)
  unfolding step_loop
  step_loop-chunks zero m e =
      ap (λ k. step_loop setup k e) (zero_add m) ∙ sym (add_count-zero (step_loop setup m e))
  step_loop-chunks (suc n) m e =
      let one = step_event setup e in
      let exhausted = λ (h : one.1 ≡ ok false).
        let same = step_event-exhausted e h in
        ap (step_loop setup m) same ∙ (exhausted-step e m h ∙ ap (λ x. (x, ok 0)) (sym same)) in
      ap (λ k. step_loop setup k e) (suc_add n m)
      ∙ (ap (on_event setup one) (step_loop-chunks n m one.0)
          ∙ sym (on_event-then one (step_loop setup n one.0) m exhausted))
