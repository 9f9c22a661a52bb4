-- ===== src/Validation/Holdout/Locked.antt =====
-- What a locked `HoldoutGuard` (src/validation/walk_forward.cpp) keeps out of research.
use mathlib.Core.Path.{subst}
use mathlib.Core.List.{Memᴰ}
use predictive_trading_lab.Prelude.{
  ℕ, zero, suc, ◌+◌, ◌-◌, ◌≤◌, ◌<◌, ◌≡◌, ◌≢◌, ◌↔◌, inl, inr, refl, Bool, true, false, not, ◌&&◌,
  List, [], ◌∷◌, ok, err, length, All, All-map, arith, Bool-cases, Text, is_ok,
}
use predictive_trading_lab.Core.Types.{Timestamp, no_timestamp}
use predictive_trading_lab.Core.Time.{ObservationInterval}
use predictive_trading_lab.Validation.WalkForward.{Fold, row}
use predictive_trading_lab.Validation.Holdout.{
  HoldoutGuard, HoldoutError, train_reaches, validation_reaches, test_reaches, unlock, is_holdout,
  check, touches, admit, filter_from, filter, scan, check_fold,
}

-- The guard has a boundary and was not unlocked.
pub record IsLocked (g : HoldoutGuard) : Type 0 where
  pub bounded : g.boundary ≢ no_timestamp
  pub locked : g.unlocked ≡ false

-- Both the decision and the end of the label of an observation lie before the boundary.
abbrev pub IsBefore : Timestamp → ObservationInterval → Type 0
IsBefore boundary o = (o.feature_end_time < boundary) × (o.label_end_time < boundary)

touches-IsBefore :
    (g : HoldoutGuard) (o : ObservationInterval)
    → IsLocked g
    → (touches g o ≡ false) ↔ IsBefore g.boundary o
unfolding touches is_holdout
touches-IsBefore g o l = (λ h. ground arith, λ h. ground arith)

not_withheld : (t u : Bool) → (t && not u) ≡ false → u ≡ false → t ≡ false
not_withheld t u h k = ground arith

module _ (g : HoldoutGuard) (l : IsLocked g) where
  -- Row `i`, counted from `k`, is before the boundary.
  abbrev Clear : ℕ → List ObservationInterval → ℕ → Type 0
  Clear k os i = (k ≤ i) × IsBefore g.boundary (row os (i - k))

  Clear-cons :
      (k : ℕ) (o : ObservationInterval) (os : List ObservationInterval) (i : ℕ)
      → Clear (suc k) os i
      → Clear k (o ∷ os) i
  unfolding row
  Clear-cons k o os i (le, before) =
      (omega arith, subst (λ n. IsBefore g.boundary (row (o ∷ os) n)) back before)
    where
      back : suc (i - suc k) ≡ i - k
      back = omega arith

  Clear-head :
      (k : ℕ) (o : ObservationInterval) (os : List ObservationInterval)
      → touches g o ≡ false
      → Clear k (o ∷ os) k
  unfolding row
  Clear-head k o os h = (
    omega arith,
    subst (λ n. IsBefore g.boundary (row (o ∷ os) n)) same ((touches-IsBefore g o l).0 h),
  )
    where
      same : 0 ≡ k - k
      same = omega arith

  filter_from-Clear :
      (k : ℕ) (os : List ObservationInterval)
      → All (Clear k os) (filter_from g k os).allowed_rows
        × (length (filter_from g k os).allowed_rows + (filter_from g k os).withheld ≡ length os)
  unfolding filter_from admit
  filter_from-Clear k [] = (tt, refl)
  filter_from-Clear k (o ∷ os) =
      let (clear, counted) = filter_from-Clear (suc k) os in
      let shifted = All-map _ _ (filter_from g (suc k) os).allowed_rows (Clear-cons k o os) clear in
      elim (Bool-cases (touches g o && not g.unlocked)) [
        | inl out ↦ rw out (shifted, omega arith)
        | inr kept ↦ rw kept (
          (Clear-head k o os (not_withheld (touches g o) g.unlocked kept l.locked), shifted),
          omega arith,
        )
      ]

  filter_from-keeps :
      (k i : ℕ) (os : List ObservationInterval)
      → i < length os
      → IsBefore g.boundary (row os i)
      → Memᴰ (k + i) (filter_from g k os).allowed_rows
  unfolding filter_from admit row
  filter_from-keeps k i [] lt h = elim lt [ ]
  filter_from-keeps k zero (o ∷ os) lt h =
      rw ((touches-IsBefore g o l).1 h) (Memᴰ.head (omega arith))
  filter_from-keeps k (suc i) (o ∷ os) lt h =
      let later =
        subst (λ n. Memᴰ n (filter_from g (suc k) os).allowed_rows) (shift k i)
          (filter_from-keeps (suc k) i os (omega arith) h) in
      elim (Bool-cases (touches g o && not g.unlocked)) [
        | inl out ↦ rw out later
        | inr kept ↦ rw kept (Memᴰ.tail later)
      ]
    where
      shift : (k i : ℕ) → suc k + i ≡ k + suc i
      shift k i = omega arith

-- While the guard is locked, filtering allows exactly the rows whose decision and whole label lie
-- before the boundary, and counts all others as withheld.
pub filter-IsBefore :
    (g : HoldoutGuard) (os : List ObservationInterval)
    → IsLocked g
    → All (λ i. IsBefore g.boundary (row os i)) (filter g os).allowed_rows
      × (length (filter g os).allowed_rows + (filter g os).withheld ≡ length os)
      × ((i : ℕ)
          → i < length os
          → IsBefore g.boundary (row os i)
          → Memᴰ i (filter g os).allowed_rows)
unfolding filter
filter-IsBefore g os l =
    let (clear, counted) = filter_from-Clear g l 0 os in
    (
      All-map _ _ _ (λ i c. subst (λ n. IsBefore g.boundary (row os n)) (omega arith) c.1) clear,
      counted,
      λ i lt h.
          subst (λ n. Memᴰ n (filter_from g 0 os).allowed_rows) (omega arith)
            (filter_from-keeps g l 0 i os lt h),
    )

-- Every row of a set that the series has lies before the boundary.
abbrev pub SetIsBefore : HoldoutGuard → List ObservationInterval → List ℕ → Type 0
SetIsBefore g os is = All (λ i. i < length os → IsBefore g.boundary (row os i)) is

module _ (g : HoldoutGuard) (os : List ObservationInterval) (l : IsLocked g) where
  scan-IsBefore :
      (e : HoldoutError) (is : List ℕ) → (is_ok (scan g os e is) ≡ true) ↔ SetIsBefore g os is
  unfolding scan
  scan-IsBefore e [] = (λ h. tt, λ h. refl)
  scan-IsBefore e (i ∷ is) =
      let (sound, complete) = scan-IsBefore e is in
      let (clear, passes) = touches-IsBefore g (row os i) l in
      (λ h. ground arith, λ h. ground arith)

-- While the guard is locked, a fold passes exactly when no row of its training, validation or
-- test set reaches the boundary, with its decision or with its label.
pub check_fold-IsBefore :
    (g : HoldoutGuard) (f : Fold) (os : List ObservationInterval)
    → IsLocked g
    → (is_ok (check_fold g f os) ≡ true) ↔ (
        SetIsBefore g os f.train_rows
        × SetIsBefore g os f.validation_rows
        × SetIsBefore g os f.test_rows)
unfolding check_fold
check_fold-IsBefore g f os l =
    let (train, train') = scan-IsBefore g os l train_reaches f.train_rows in
    let (val, val') = scan-IsBefore g os l validation_reaches f.validation_rows in
    let (test, test') = scan-IsBefore g os l test_reaches f.test_rows in
    (λ h. ground arith, λ h. ground arith)

-- Unlocking takes a written reason: without one the guard stays as it is. With one every check
-- passes from then on, also after a later call with any reason or none: nothing locks it again.
unlock-Permanent :
    (g : HoldoutGuard) (c : ℕ) (reason later : Text) (ts : Timestamp)
    → (unlock g [] ≡ (g, err HoldoutError.no_justification))
      × ((unlock g (c ∷ reason)).0.justification ≡ c ∷ reason)
      × ((unlock g (c ∷ reason)).0.boundary ≡ g.boundary)
      × (check (unlock g (c ∷ reason)).0 ts ≡ ok true)
      × (check (unlock (unlock g (c ∷ reason)).0 later).0 ts ≡ ok true)
unfolding unlock check
unlock-Permanent g c reason [] ts = ground arith
unlock-Permanent g c reason (d ∷ later) ts = ground arith
