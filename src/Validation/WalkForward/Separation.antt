-- ===== src/Validation/WalkForward/Separation.antt =====
-- What the folds of `split` (src/validation/walk_forward.cpp) promise: purged training rows keep
-- clear of validation and test, the sets are disjoint, and no row of a window is lost.
use mathlib.Core.Path.{subst}
use predictive_trading_lab.Prelude.{
  ℕ, zero, suc, ◌+◌, ◌-◌, ◌≤◌, ◌<◌, ◌≡◌, ◌∙◌, sym, ◌⊎◌, inl, inr, true, false, none, List, [], ◌∷◌,
  length, All, All-map, arith, range,
}
use predictive_trading_lab.Core.Types.{Timestamp}
use predictive_trading_lab.Core.Time.{ObservationInterval, label_overlaps}
use predictive_trading_lab.Validation.WalkForward.{
  Fold, WalkForwardConfig, Windows, leaks, train_split, train_start, windows, make_fold, row,
  disorder_of, disjoint,
}
use predictive_trading_lab.Validation.WalkForward.Window.{
  Rises, Rises-below, Rises-range, Rises-append, Rises-no_repeat, train_split-Rises,
  train_split-clean, disorder_of-chronological,
}
use predictive_trading_lab.Validation.WalkForward.Loop.{Makes}

-- The last index of a list of rows.
abbrev pub last : List ℕ → ℕ
last [] = 0
last (i ∷ []) = i
last (i ∷ j ∷ is) = last (j ∷ is)

-- Row `i` comes before row `j`, and its label is over when `j` decides or starts after the last
-- of the rows that `j` belongs to has its label.
abbrev pub Apart : List ObservationInterval → List ℕ → ℕ → ℕ → Type 0
Apart os rows i j =
    (i < j)
    × (((row os i).label_end_time ≤ (row os j).feature_end_time)
        ⊎ ((row os (last rows)).label_end_time ≤ (row os i).label_start_time))

abbrev pub KeptApart : List ObservationInterval → List ℕ → List ℕ → Type 0
KeptApart os train rows = All (λ i. All (Apart os rows i) rows) train

last-range : (lo n : ℕ) → last (range lo (suc n)) ≡ lo + n
unfolding range
last-range lo zero = omega arith
last-range lo (suc n) = last-range (suc lo) n ∙ omega arith

no_overlap :
    (o : ObservationInterval) (a b : Timestamp)
    → label_overlaps o a b ≡ false
    → (o.label_end_time ≤ a) ⊎ (b ≤ o.label_start_time)
unfolding label_overlaps
no_overlap o a b h = ground arith

module _ (os : List ObservationInterval) (i lo n : ℕ) (ordered : disorder_of os ≡ none)
    (before : i < lo) (fits : lo + suc n ≤ length os)
    (clear : label_overlaps (row os i) (row os lo).feature_end_time (row os (lo + n)).label_end_time
      ≡ false) where
  row-Apart : (j : ℕ) → lo ≤ j → j < lo + suc n → Apart os (range lo (suc n)) i j
  row-Apart j le end = (
    omega arith,
    elim (no_overlap (row os i) _ _ clear) [
      | inl over ↦ inl (omega (arith, disorder_of-chronological os ordered lo j le (omega arith)))
      | inr late ↦ inr (
          subst (λ k. (row os k).label_end_time ≤ (row os i).label_start_time)
            (sym (last-range lo n)) late)
    ],
  )

  rows-Apart :
      (m j : ℕ) → lo ≤ j → j + m ≤ lo + suc n → All (Apart os (range lo (suc n)) i) (range j m)
  unfolding range
  rows-Apart zero j le end = tt
  rows-Apart (suc m) j le end =
      (row-Apart j le (omega arith), rows-Apart m (suc j) (omega arith) (omega arith))

-- The training rows against one window, which may be empty.
train-KeptApart :
    (os : List ObservationInterval) (lo n : ℕ) (train : List ℕ)
    → disorder_of os ≡ none
    → lo + n ≤ length os
    → All (λ i. i < lo) train
    → All
        (λ i.
          label_overlaps
            (row os i)
            (row os lo).feature_end_time
            (row os (lo + n - 1)).label_end_time
          ≡ false)
        train
    → KeptApart os train (range lo n)
train-KeptApart os lo n [] ordered fits below clear = tt
train-KeptApart os lo zero (i ∷ is) ordered fits below clear =
    (nothing, train-KeptApart os lo zero is ordered fits below.1 clear.1)
  where
    nothing : All (Apart os (range lo zero) i) (range lo zero)
    nothing = unfold range in tt
train-KeptApart os lo (suc n) (i ∷ is) ordered fits below clear = (
  rows-Apart os i lo n ordered below.0 fits
      (subst
        (λ k.
          label_overlaps (row os i) (row os lo).feature_end_time (row os k).label_end_time ≡ false)
        (omega arith) clear.0)
      (suc n) lo (omega arith) (omega arith),
  train-KeptApart os lo (suc n) is ordered fits below.1 clear.1,
)

leaks-clear :
    (w : Windows) (o : ObservationInterval)
    → leaks w o ≡ false
    → (label_overlaps o w.val_from w.val_to ≡ false)
      × (label_overlaps o w.test_from w.test_to ≡ false)
unfolding leaks
leaks-clear w o h = ground arith

-- The training window of a round lies before its validation window.
pub train_start-le :
    (c : WalkForwardConfig) (t : ℕ) → c.warmup + c.train_size ≤ t → train_start c t ≤ t
unfolding train_start
train_start-le c t late = ground arith

window-Rises :
    (c : WalkForwardConfig) (t : ℕ)
    → c.warmup + c.train_size ≤ t
    → Rises (train_start c t) t (range (train_start c t) (t - train_start c t))
window-Rises c t late =
    subst (λ k. Rises (train_start c t) k (range (train_start c t) (t - train_start c t)))
      (omega (arith, train_start-le c t late)) (Rises-range (train_start c t) (t - train_start c t))

module _ (c : WalkForwardConfig) (os : List ObservationInterval) where
  kept : ℕ → List ℕ
  kept t =
      (train_split c.purge (windows c os t) os (range (train_start c t) (t - train_start c t))).0

  kept-Rises : (t : ℕ) → c.warmup + c.train_size ≤ t → Rises (train_start c t) t (kept t)
  unfolding kept
  kept-Rises t late = train_split-Rises c.purge _ os _ t _ (window-Rises c t late)

  -- What a fold of a purging split keeps apart.
  abbrev pub IsSeparated : Fold → Type 0
  IsSeparated f =
      KeptApart os f.train_rows f.validation_rows × KeptApart os f.train_rows f.test_rows

  pub make_fold-IsSeparated : c.purge ≡ true → disorder_of os ≡ none → Makes c os IsSeparated
  unfolding make_fold windows kept
  make_fold-IsSeparated purge ordered id t late fits =
      let below = Rises-below _ t (kept t) (kept-Rises t late) in
      let clean =
        train_split-clean c.purge (windows c os t) os purge
          (range (train_start c t) (t - train_start c t)) in
      (
        train-KeptApart os t c.validation_size (kept t) ordered (ground arith) below
            (All-map _ _ _ (λ i h. (leaks-clear (windows c os t) (row os i) h).0) clean),
        train-KeptApart os (t + c.validation_size) c.test_size (kept t) ordered (ground arith)
            (All-map _ _ _ (λ i h. omega arith) below)
            (All-map _ _ _ (λ i h. (leaks-clear (windows c os t) (row os i) h).1) clean),
      )

  pub make_fold-disjoint : Makes c os (λ f. disjoint f ≡ true)
  unfolding make_fold disjoint kept
  make_fold-disjoint id t late fits =
      Rises-no_repeat (train_start c t) (t + c.validation_size + c.test_size) [] _ tt (
        Rises-append _ t _ (kept t) _ (omega arith) (kept-Rises t late)
          (Rises-append t (t + c.validation_size) _ (range t c.validation_size) _ (omega arith)
            (Rises-range t c.validation_size) (Rises-range (t + c.validation_size) c.test_size)
            (omega arith))
          (train_start-le c t late))
