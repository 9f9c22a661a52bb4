-- ===== src/Validation/WalkForward/Window.antt =====
-- One fold of src/validation/walk_forward.cpp: its rows, and what purging keeps out of training.
use mathlib.Core.Path.{subst}
use mathlib.Core.List.{Perm}
use mathlib.Core.List.Perm
use mathlib.Core.List.{perm_middle}
use predictive_trading_lab.Prelude.{
  ℕ, zero, suc, ◌+◌, ◌≤◌, ◌<◌, ◌≡◌, inl, inr, refl, Bool, true, false, ◌&&◌, none, List, [], ◌∷◌,
  ◌++◌, length, All, All-map, arith, Bool-cases, range,
}
use predictive_trading_lab.Core.Types.{Timestamp}
use predictive_trading_lab.Core.Time.{ObservationInterval}
use predictive_trading_lab.Validation.WalkForward.{
  Windows, leaks, keep_row, train_split, row, disorder, disorder_of, no_repeat, seen,
}

-- Indices that rise from `lo` on and stay below `hi`.
abbrev pub Rises : ℕ → ℕ → List ℕ → Type 0
Rises lo hi [] = Unit {0}
Rises lo hi (i ∷ is) = (lo ≤ i) × (i < hi) × Rises (suc i) hi is

Rises-mono : (lo lo' hi : ℕ) (is : List ℕ) → lo' ≤ lo → Rises lo hi is → Rises lo' hi is
Rises-mono lo lo' hi [] h r = tt
Rises-mono lo lo' hi (i ∷ is) h r = (omega arith, r.1, r.2)

pub Rises-range : (lo n : ℕ) → Rises lo (lo + n) (range lo n)
unfolding range
Rises-range lo zero = tt
Rises-range lo (suc n) = (
  omega arith,
  omega arith,
  subst (λ k. Rises (suc lo) k (range (suc lo) n)) (omega arith) (Rises-range (suc lo) n),
)

module _ (purge : Bool) (w : Windows) (os : List ObservationInterval) where
  pub train_split-Rises :
      (lo hi : ℕ) (is : List ℕ) → Rises lo hi is → Rises lo hi (train_split purge w os is).0
  unfolding train_split keep_row
  train_split-Rises lo hi [] r = tt
  train_split-Rises lo hi (i ∷ is) r = elim (Bool-cases (purge && leaks w (row os i))) [
    | inl out ↦
        rw out (Rises-mono (suc i) lo hi _ (omega arith) (train_split-Rises (suc i) hi is r.2))
    | inr kept ↦ rw kept (r.0, r.1, train_split-Rises (suc i) hi is r.2)
  ]

  -- Every row of the training window is kept or purged, once.
  pub train_split-perm :
      (is : List ℕ) → Perm ((train_split purge w os is).0 ++ (train_split purge w os is).1) is
  unfolding train_split keep_row
  train_split-perm [] = Perm.nil
  train_split-perm (i ∷ is) = elim (Bool-cases (purge && leaks w (row os i))) [
    | inl out ↦ rw out (
        Perm.trans (perm_middle (train_split purge w os is).0 (train_split purge w os is).1)
          (Perm.cons i (train_split-perm is)))
    | inr kept ↦ rw kept (Perm.cons i (train_split-perm is))
  ]

  pub train_split-clean :
      purge ≡ true
      → (is : List ℕ) → All (λ i. leaks w (row os i) ≡ false) (train_split purge w os is).0
  unfolding train_split keep_row
  train_split-clean p [] = tt
  train_split-clean p (i ∷ is) = elim (Bool-cases (purge && leaks w (row os i))) [
    | inl out ↦ rw out (train_split-clean p is)
    | inr kept ↦ rw kept (ground arith, train_split-clean p is)
  ]

-- The stamps by which the observations are ordered do not fall.
disorder-Chronological :
    (k : ℕ) (previous : Timestamp) (os : List ObservationInterval)
    → disorder k previous os ≡ none
    → (i : ℕ) → i < length os
    → previous ≤ (row os i).feature_end_time
unfolding disorder row
disorder-Chronological k previous [] h i l = elim l [ ]
disorder-Chronological k previous (o ∷ os) h zero l = ground arith
disorder-Chronological k previous (o ∷ os) h (suc i) l =
    ground (arith, disorder-Chronological (suc k) o.feature_end_time os (ground arith) i)

chronological_from :
    (k : ℕ) (previous : Timestamp) (os : List ObservationInterval)
    → disorder k previous os ≡ none
    → (i j : ℕ) → i ≤ j
    → j < length os
    → (row os i).feature_end_time ≤ (row os j).feature_end_time
unfolding disorder row
chronological_from k previous [] h i j le l = elim l [ ]
chronological_from k previous (o ∷ os) h zero zero le l = omega arith
chronological_from k previous (o ∷ os) h zero (suc j) le l =
    ground (arith, disorder-Chronological (suc k) o.feature_end_time os (ground arith) j)
chronological_from k previous (o ∷ os) h (suc i) zero le l = absurd (omega arith)
chronological_from k previous (o ∷ os) h (suc i) (suc j) le l =
    ground (arith, chronological_from (suc k) o.feature_end_time os (ground arith) i j)

-- Rows that a split accepts come in the order of their stamps.
pub disorder_of-chronological :
    (os : List ObservationInterval)
    → disorder_of os ≡ none
    → (i j : ℕ) → i ≤ j
    → j < length os
    → (row os i).feature_end_time ≤ (row os j).feature_end_time
unfolding disorder row
disorder_of-chronological [] h i j le l = elim l [ ]
disorder_of-chronological (o ∷ os) h zero zero le l = omega arith
disorder_of-chronological (o ∷ os) h zero (suc j) le l =
    ground (arith, disorder-Chronological 1 o.feature_end_time os h j)
disorder_of-chronological (o ∷ os) h (suc i) zero le l = absurd (omega arith)
disorder_of-chronological (o ∷ os) h (suc i) (suc j) le l =
    ground (arith, chronological_from 1 o.feature_end_time os h i j)

-- Rising indices show no repeat, after others that are all smaller.
seen-above : (i : ℕ) (js : List ℕ) → All (λ j. j < i) js → seen i js ≡ false
unfolding seen
seen-above i [] h = refl
seen-above i (j ∷ js) h = ground (arith, seen-above i js h.1)

pub Rises-no_repeat :
    (lo hi : ℕ) (before is : List ℕ)
    → All (λ j. j < lo) before
    → Rises lo hi is
    → no_repeat before is ≡ true
unfolding no_repeat
Rises-no_repeat lo hi before [] b r = refl
Rises-no_repeat lo hi before (i ∷ is) b r =
    rw (seen-above i before (All-map _ _ before (λ j l. omega arith) b)) (
      Rises-no_repeat (suc i) hi (i ∷ before) is
        (omega arith, All-map _ _ before (λ j l. omega arith) b) r.2)

pub Rises-append :
    (lo mid hi : ℕ) (is js : List ℕ)
    → mid ≤ hi
    → Rises lo mid is
    → Rises mid hi js
    → lo ≤ mid
    → Rises lo hi (is ++ js)
Rises-append lo mid hi [] js m r s l = Rises-mono mid lo hi js l s
Rises-append lo mid hi (i ∷ is) js m r s l =
    (r.0, omega arith, Rises-append (suc i) mid hi is js m r.2 s (omega arith))

pub Rises-below : (lo hi : ℕ) (is : List ℕ) → Rises lo hi is → All (λ i. i < hi) is
Rises-below lo hi [] r = tt
Rises-below lo hi (i ∷ is) r = (r.1, Rises-below (suc i) hi is r.2)
