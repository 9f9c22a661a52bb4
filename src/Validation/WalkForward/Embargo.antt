-- ===== src/Validation/WalkForward/Embargo.antt =====
-- What the embargo of src/validation/walk_forward.cpp changes.
use mathlib.Core.Option
use predictive_trading_lab.Prelude.{
  ℕ, zero, suc, ◌+◌, ◌≡◌, refl, Option, List, [], ◌∷◌, Result, ok, err, map, arith, length,
}
use predictive_trading_lab.Core.Time.{ObservationInterval}
use predictive_trading_lab.Validation.WalkForward.{
  Fold, WalkForwardConfig, SplitError, make_fold, emit, folds_from, split, train_start,
}

-- A fold with its embargoed rows left out.
abbrev pub forget_embargo : Fold → Fold
forget_embargo f = record f { embargoed_rows = [] }

abbrev pub forget : Option (List Fold) → Option (List Fold)
forget = Option.map (map forget_embargo)

abbrev pub forget_result :
    Result SplitError (Option (List Fold)) → Result SplitError (Option (List Fold))
forget_result (ok r) = ok (forget r)
forget_result (err e) = err e

module _ (c : WalkForwardConfig) (embargo : ℕ) where
  abbrev other : WalkForwardConfig
  other = record c { embargo = embargo }

  fold-forgets :
      (os : List ObservationInterval) (id t : ℕ)
      → forget_embargo (make_fold other os id t) ≡ forget_embargo (make_fold c os id t)
  unfolding make_fold train_start
  fold-forgets os id t = refl

  emit-forgets :
      (f g : Fold) (fs gs : List Fold)
      → forget_embargo f ≡ forget_embargo g
      → map forget_embargo fs ≡ map forget_embargo gs
      → map forget_embargo (emit other f fs) ≡ map forget_embargo (emit c g gs)
  emit-forgets f g fs gs h k = ground arith

  folds_from-forgets :
      (fuel : ℕ) (os : List ObservationInterval) (id t : ℕ)
      → forget (folds_from fuel other os id t) ≡ forget (folds_from fuel c os id t)
  unfolding folds_from
  folds_from-forgets zero os id t = refl
  folds_from-forgets (suc fuel) os id t =
      ground (arith, folds_from-forgets fuel os (suc id) (t + c.step), fold-forgets os id t)

  -- Changing the embargo changes nothing but the lists of embargoed rows themselves: no
  -- training, validation or test set, and no error.
  pub embargo_only_recorded :
      (os : List ObservationInterval) → forget_result (split other os) ≡ forget_result (split c os)
  unfolding split
  embargo_only_recorded [] = refl
  embargo_only_recorded (o ∷ os) =
      ground
        (arith, folds_from-forgets (suc (length (o ∷ os))) (o ∷ os) 0 (c.warmup + c.train_size))
