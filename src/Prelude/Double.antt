-- ===== src/Prelude/Double.antt =====
-- `double`: the operations of the language on it, as an interface over an abstract carrier.
-- Nothing is assumed of them here; a theorem that needs a fact of IEEE arithmetic takes it as a
-- hypothesis. `Fixed` is a carrier that computes, for tests.
use Prim.Native.Nat.{ℕ, ◌*◌, ◌/◌}
use mathlib.Core.Bool.{Bool, true, false, not, ◌&&◌, ◌||◌}
use mathlib.Core.Path.{◌≡◌}
use native.Mathlib.Omega.{arith}
use predictive_trading_lab.Prelude.Tests.{if◌then◌else◌}
use predictive_trading_lab.Prelude.Int.{ℤ, pos, ◌+ℤ◌, ◌-ℤ◌, ◌*ℤ◌, quot_ℤ, ltb_ℤ, eqb_ℤ}

pub record Double (D : Type 0) : Type 0 where
  pub add : D → D → D
  pub sub : D → D → D
  pub mul : D → D → D
  pub div : D → D → D
  pub neg : D → D
  pub abs : D → D
  pub lt : D → D → Bool
  pub le : D → D → Bool
  pub eq : D → D → Bool
  pub inf : D
  -- The double that the decimal literal n / d denotes.
  pub lit : ℕ → ℕ → D
  -- The conversion of an integer.
  pub of_ℤ : ℤ → D
  -- The conversion to an integer, which drops the fraction.
  pub trunc : D → ℤ

module _ {D : Type 0} ⦃F : Double D⦄ where
  infixl 65 ◌⊕◌ ◌⊖◌
  infixl 70 ◌⊗◌ ◌⊘◌
  infix 50 ◌<?◌ ◌≤?◌ ◌=?◌
  abbrev pub ◌⊕◌ : D → D → D
  ◌⊕◌ = F.add

  abbrev pub ◌⊖◌ : D → D → D
  ◌⊖◌ = F.sub

  abbrev pub ◌⊗◌ : D → D → D
  ◌⊗◌ = F.mul

  abbrev pub ◌⊘◌ : D → D → D
  ◌⊘◌ = F.div

  abbrev pub ◌<?◌ : D → D → Bool
  ◌<?◌ = F.lt

  abbrev pub ◌≤?◌ : D → D → Bool
  ◌≤?◌ = F.le

  abbrev pub ◌=?◌ : D → D → Bool
  ◌=?◌ = F.eq

  abbrev pub negate : D → D
  negate = F.neg

  abbrev pub abs : D → D
  abs = F.abs

  abbrev pub lit : ℕ → ℕ → D
  lit = F.lit

  -- 0.0 and 1.0.
  abbrev pub d0 : D
  d0 = F.lit 0 1

  abbrev pub d1 : D
  d1 = F.lit 1 1

  -- `is_finite` of include/ptl/core/types.hpp.
  unfoldable pub is_finite : D → Bool
  is_finite x = (x =? x) && not (x =? F.inf) && not (x =? negate F.inf)

  -- `std::max` and `std::min` on doubles.
  abbrev pub fmax : D → D → D
  fmax a b = if a <? b then b else a

  abbrev pub fmin : D → D → D
  fmin a b = if b <? a then b else a

-- What IEEE 754 promises of the comparisons, NaN included.
pub record IsOrdered {D : Type 0} (F : Double D) : Type 0 where
  pub lt_irrefl : (x : D) → F.lt x x ≡ false
  pub lt_trans : (x y z : D) → F.lt x y ≡ true → F.lt y z ≡ true → F.lt x z ≡ true
  pub lt_le : (x y : D) → F.lt x y ≡ true → F.le x y ≡ true
  pub le_not_lt : (x y : D) → F.le x y ≡ true → F.lt y x ≡ false
  pub le_trans : (x y z : D) → F.le x y ≡ true → F.le y z ≡ true → F.le x z ≡ true

-- Decimal numbers with nine places, and what is not a finite number.
pub data Fixed : Type 0 where
  nan : Fixed
  pinf : Fixed
  ninf : Fixed
  fin : ℤ → Fixed

abbrev unit : ℕ
unit = 1_000_000_000

abbrev lift₂ : (ℤ → ℤ → ℤ) → Fixed → Fixed → Fixed
lift₂ f (fin a) (fin b) = fin (f a b)
lift₂ f _ _ = nan

abbrev fixed_div : Fixed → Fixed → Fixed
fixed_div (fin a) (fin b) = if eqb_ℤ b (pos 0) then nan else fin (quot_ℤ (a *ℤ pos unit) b)
fixed_div _ _ = nan

abbrev fixed_neg : Fixed → Fixed
fixed_neg nan = nan
fixed_neg pinf = ninf
fixed_neg ninf = pinf
fixed_neg (fin a) = fin (pos 0 -ℤ a)

abbrev fixed_lt : Fixed → Fixed → Bool
fixed_lt (fin a) (fin b) = ltb_ℤ a b
fixed_lt (fin a) pinf = true
fixed_lt ninf (fin b) = true
fixed_lt ninf pinf = true
fixed_lt _ _ = false

abbrev fixed_eq : Fixed → Fixed → Bool
fixed_eq (fin a) (fin b) = eqb_ℤ a b
fixed_eq pinf pinf = true
fixed_eq ninf ninf = true
fixed_eq _ _ = false

abbrev fixed_abs : Fixed → Fixed
fixed_abs a = if fixed_lt a (fin (pos 0)) then fixed_neg a else a

abbrev fixed_trunc : Fixed → ℤ
fixed_trunc (fin a) = quot_ℤ a (pos unit)
fixed_trunc _ = pos 0

instance abbrev pub fixed : Double Fixed
fixed = record {
  add = lift₂ ◌+ℤ◌;
  sub = lift₂ ◌-ℤ◌;
  mul = lift₂ (λ a b. quot_ℤ (a *ℤ b) (pos unit));
  div = fixed_div;
  neg = fixed_neg;
  abs = fixed_abs;
  lt = fixed_lt;
  le = λ a b. fixed_lt a b || fixed_eq a b;
  eq = fixed_eq;
  inf = pinf;
  lit = λ n d. fin (pos (n * unit / d));
  of_ℤ = λ n. fin (n *ℤ pos unit);
  trunc = fixed_trunc;
}

fixed_lt_irrefl : (x : Fixed) → fixed_lt x x ≡ false
fixed_lt_irrefl x = ground arith

fixed_lt_trans : (x y z : Fixed) → fixed_lt x y ≡ true → fixed_lt y z ≡ true → fixed_lt x z ≡ true
fixed_lt_trans x y z h k = ground arith

fixed_le_trans : (x y z : Fixed) → fixed.le x y ≡ true → fixed.le y z ≡ true → fixed.le x z ≡ true
fixed_le_trans x y z h k = ground arith

fixed_lt_le : (x y : Fixed) → fixed_lt x y ≡ true → fixed.le x y ≡ true
fixed_lt_le x y h = ground arith

fixed_le_not_lt : (x y : Fixed) → fixed.le x y ≡ true → fixed_lt y x ≡ false
fixed_le_not_lt x y h = ground arith

pub fixed-IsOrdered : IsOrdered fixed
fixed-IsOrdered = record {
  lt_irrefl = fixed_lt_irrefl;
  lt_trans = fixed_lt_trans;
  lt_le = fixed_lt_le;
  le_not_lt = fixed_le_not_lt;
  le_trans = fixed_le_trans;
}
