-- ===== src/Validation/Examples.antt =====
-- Tests of walk-forward validation and the holdout, and their theorems at inputs.
use predictive_trading_lab.Prelude.{
  ℕ, ◌+◌, ◌<◌, ◌≡◌, refl, true, false, List, [], ◌∷◌, length, All, arith, range,
}
use mathlib.Core.List.{Memᴰ}
use predictive_trading_lab.Core.Time.{ObservationInterval, label_overlaps}
use predictive_trading_lab.Validation.WalkForward.{Fold, WalkForwardConfig, rolling, make_fold, row}
use predictive_trading_lab.Validation.Holdout.{HoldoutGuard, filter}
use predictive_trading_lab.Validation.Holdout.Locked.{IsLocked, IsBefore, filter-IsBefore}

-- An observation decided at `t` with a label from `t` to `t` + 2.
abbrev observed : ℕ → ObservationInterval
observed t = record {
  sample_start_time = t;
  feature_end_time = t;
  label_start_time = t;
  label_end_time = t + 2;
}

abbrev first : ObservationInterval
first = observed 1

abbrev others : List ObservationInterval
others = observed 2 ∷ observed 3 ∷ observed 4 ∷ observed 5 ∷ observed 6 ∷ []

abbrev config : WalkForwardConfig
config = record {
  mode = rolling;
  train_size = 3;
  validation_size = 1;
  test_size = 1;
  step = 1;
  warmup = 0;
  embargo = 1;
  min_train_rows = 1;
  purge = true;
}

abbrev folds : List Fold
folds = make_fold config (first ∷ others) 0 3 ∷ make_fold config (first ∷ others) 1 4 ∷ []

-- The third row is purged, since its label reaches into the validation window.
purged : (make_fold config (first ∷ others) 0 3).purged_rows ≡ 2 ∷ []
unfolding make_fold label_overlaps range
purged = refl

abbrev guard : HoldoutGuard
guard = record { boundary = 6; unlocked = false; justification = [] }

guard-IsLocked : IsLocked guard
guard-IsLocked = record { bounded = omega arith; locked = refl }

abbrev series : List ObservationInterval
series = first ∷ others

filter-IsBefore_example :
    All (λ i. IsBefore 6 (row series i)) (filter guard series).allowed_rows
    × (length (filter guard series).allowed_rows + (filter guard series).withheld ≡ length series)
    × ((i : ℕ)
        → i < length series
        → IsBefore 6 (row series i)
        → Memᴰ i (filter guard series).allowed_rows)
filter-IsBefore_example = filter-IsBefore guard series guard-IsLocked

abbrev fold : Fold
fold = make_fold config series 0 3
