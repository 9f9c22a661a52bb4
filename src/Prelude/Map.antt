-- ===== src/Prelude/Map.antt =====
-- `std::map` with unsigned keys: the entries in the order in which it iterates.
use predictive_trading_lab.Prelude.Tests.{ltb, ◌==◌, if◌then◌else◌}
use Prim.Native.Nat.{ℕ}
use mathlib.Core.Path.{◌≡◌}
use mathlib.Core.Bool.{Bool, true, false}
use mathlib.Core.Option.{Option, none, some}
use mathlib.Core.List.{List, [], ◌∷◌}
use native.Mathlib.Omega.{arith}
use predictive_trading_lab.Prelude.Lists.{All}

abbrev pub Map {ℓ} : Type ℓ → Type ℓ
Map V = List (ℕ × V)

module _ {ℓ} {V : Type ℓ} where
  unfoldable pub lookup : ℕ → Map V → Option V
  lookup key [] = none
  lookup key (entry ∷ rest) = if key == entry.0 then some entry.1 else lookup key rest

  -- `m[key] = value`; also `m.emplace(key, value)` where `key` is absent.
  unfoldable pub insert : ℕ → V → Map V → Map V
  insert key value [] = (key, value) ∷ []
  insert key value (entry ∷ rest) =
      if ltb key entry.0
      then (key, value) ∷ entry ∷ rest
      else if key == entry.0
      then (key, value) ∷ rest
      else entry ∷ insert key value rest

  abbrev pub contains : ℕ → Map V → Bool
  contains key m = elim (lookup key m) [ none ↦ false | some v ↦ true ]

  pub lookup-insert :
      (key other : ℕ) (value : V) (m : Map V)
      → lookup other (insert key value m) ≡ (if key == other then some value else lookup other m)
  unfolding lookup insert
  lookup-insert key other value [] = ground arith
  lookup-insert key other value (entry ∷ rest) = ground (arith, lookup-insert key other value rest)

  pub lookup-insert_self :
      (key : ℕ) (value : V) (m : Map V) → lookup key (insert key value m) ≡ some value
  lookup-insert_self key value m = ground (arith, lookup-insert key key value m)

  -- A predicate on every entry, and on the entry that is found.
  pub All-insert {κ} :
      (P : ℕ × V → Type κ) (key : ℕ) (value : V) (m : Map V)
      → P (key, value)
      → All P m
      → All P (insert key value m)
  unfolding insert
  All-insert P key value [] p h = (p, tt)
  All-insert P key value (entry ∷ rest) p h = ground (arith, All-insert P key value rest p h.1)

  pub All-lookup {κ} :
      (P : ℕ × V → Type κ) (key : ℕ) (value : V) (m : Map V)
      → All P m
      → lookup key m ≡ some value
      → P (key, value)
  unfolding lookup
  All-lookup P key value [] h e = cc
  All-lookup P key value (entry ∷ rest) h e = ground (arith, All-lookup P key value rest h.1)
