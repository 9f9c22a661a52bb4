-- ===== src/Validation/WalkForward/Folds.antt =====
-- The promises of `WalkForwardValidator::split` (src/validation/walk_forward.cpp) for every fold
-- that it returns.
use mathlib.Core.List.{Perm}
use predictive_trading_lab.Prelude.{
  ℕ, ◌+◌, ◌≤◌, ◌≡◌, true, some, List, ◌∷◌, ◌++◌, ok, length, All, arith, range,
}
use predictive_trading_lab.Core.Time.{ObservationInterval}
use predictive_trading_lab.Validation.WalkForward.{Fold, WalkForwardConfig, split, disjoint}
use predictive_trading_lab.Validation.WalkForward.Loop.{Makes, split-ok, folds_from-All}
use predictive_trading_lab.Validation.WalkForward.Separation.{make_fold-disjoint}

module _ (c : WalkForwardConfig) (os : List ObservationInterval) where
  -- Contiguous windows that follow one another inside the observations: each row of the training
  -- window is in the training set or purged, once, and none of the other windows is thinned out.
  pub record IsCovering (f : Fold) : Type 0 where
    pub start : ℕ
    pub count : ℕ
    pub whole_window : Perm (f.train_rows ++ f.purged_rows) (range start count)
    pub validation : f.validation_rows ≡ range (start + count) c.validation_size
    pub test : f.test_rows ≡ range (start + count + c.validation_size) c.test_size
    pub inside : start + count + c.validation_size + c.test_size ≤ length os

split_folds :
    (c : WalkForwardConfig) (o : ObservationInterval) (os : List ObservationInterval)
    (P : Fold → Type 0) (fs : List Fold)
    → Makes c (o ∷ os) P
    → split c (o ∷ os) ≡ ok (some fs)
    → All P fs
split_folds c o os P fs makes e =
    folds_from-All c (o ∷ os) P makes _ 0 _ fs (omega arith) (split-ok c o os e).3

-- No index is in two of the three sets of a fold, or twice in one: the test `Fold::disjoint`
-- holds of every fold that a split returns.
pub split-disjoint :
    (c : WalkForwardConfig) (o : ObservationInterval) (os : List ObservationInterval)
    (fs : List Fold)
    → split c (o ∷ os) ≡ ok (some fs)
    → All (λ f. disjoint f ≡ true) fs
split-disjoint c o os fs e = split_folds c o os _ fs (make_fold-disjoint c (o ∷ os)) e
