-- ===== src/Validation/WalkForward/Loop.antt =====
-- The loop of `split` in src/validation/walk_forward.cpp: it ends, and what holds of every fold
-- that a round makes holds of all that are returned.
use mathlib.Core.Path.{subst}
use predictive_trading_lab.Prelude.{
  ℕ, zero, suc, ◌+◌, ◌≤◌, ◌<◌, ◌≡◌, inl, inr, false, Option, none, some, List, ◌∷◌, ok, length, All,
  arith, Bool-cases, Option-cases,
}
use predictive_trading_lab.Core.Time.{ObservationInterval}
use predictive_trading_lab.Validation.WalkForward.{
  Fold, WalkForwardConfig, make_fold, past_end, emit, folds_from, split, disorder_of,
}

-- What a split that returns folds has checked, and where it starts.
pub split-ok :
    (c : WalkForwardConfig) (o : ObservationInterval) (os : List ObservationInterval)
    {r : Option (List Fold)}
    → split c (o ∷ os) ≡ ok r
    → (0 < c.train_size)
      × (0 < c.test_size)
      × (disorder_of (o ∷ os) ≡ none)
      × (folds_from (suc (length (o ∷ os))) c (o ∷ os) 0 (c.warmup + c.train_size) ≡ r)
unfolding split
split-ok c o os h = ground arith

module _ (c : WalkForwardConfig) (os : List ObservationInterval) (P : Fold → Type 0) where
  -- Every round past the first windows that fits into the observations makes a good fold.
  abbrev pub Makes : Type 0
  Makes =
      (id t : ℕ) → c.warmup + c.train_size ≤ t → past_end c os t ≡ false → P (make_fold c os id t)

  emit-All : (f : Fold) (rest : List Fold) → P f → All P rest → All P (emit c f rest)
  emit-All f rest p h = ground arith

  folds_from-emits :
      (fuel id t : ℕ) (rest fs : List Fold)
      → past_end c os t ≡ false
      → folds_from fuel c os (suc id) (t + c.step) ≡ some rest
      → folds_from (suc fuel) c os id t ≡ some fs
      → emit c (make_fold c os id t) rest ≡ fs
  unfolding folds_from
  folds_from-emits fuel id t rest fs more r e = ground arith

  pub folds_from-All :
      Makes
      → (fuel id t : ℕ) (fs : List Fold) → c.warmup + c.train_size ≤ t
      → folds_from fuel c os id t ≡ some fs
      → All P fs
  unfolding folds_from
  folds_from-All makes zero id t fs late e = cc
  folds_from-All makes (suc fuel) id t fs late e = elim (Bool-cases (past_end c os t)) [
    | inl done ↦ ground arith
    | inr more ↦ elim (Option-cases (folds_from fuel c os (suc id) (t + c.step))) [
      | inl out ↦ ground arith
      | inr (rest, r) ↦
          let emitted =
            emit-All (make_fold c os id t) rest (makes id t late more)
              (folds_from-All makes fuel (suc id) (t + c.step) rest (omega arith) r) in
          subst (All P) (folds_from-emits fuel id t rest fs more r e) emitted
    ]
  ]
