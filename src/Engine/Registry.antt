-- ===== src/Engine/Registry.antt =====
-- StrategyRegistry of include/ptl/engine/strategy.hpp and src/engine/strategy.cpp. A factory is a
-- function of the configuration text, and null is the absent one; what a factory returns is any
-- type.
pub mod First
mod Examples
use predictive_trading_lab.Prelude.{
  ℕ, Bool, true, false, ◌||◌, ◌&&◌, ◌==◌, if◌then◌else◌, ltb, Option, none, some, List, [], ◌∷◌,
  map, length, text_eq, Text, Result, ok, err,
}

pub data RegistryError : Type 0 where
  empty_name null_factory already_registered unknown_strategy : RegistryError

-- The order of the keys of `std::map`, byte by byte.
unfoldable pub text_lt : Text → Text → Bool
text_lt [] [] = false
text_lt [] (y ∷ ys) = true
text_lt (x ∷ xs) [] = false
text_lt (x ∷ xs) (y ∷ ys) = ltb x y || ((x == y) && text_lt xs ys)

-- `factories_`, in the order of the map.
abbrev pub Factories : Type 0 → Type 0
Factories A = List (Text × (Text → A))

module _ {A : Type 0} where
  unfoldable pub find_factory : Text → Factories A → Option (Text → A)
  find_factory name [] = none
  find_factory name (entry ∷ rest) =
      if text_eq name entry.0 then some entry.1 else find_factory name rest

  -- `emplace` of a name that is absent.
  unfoldable pub emplace : Text → (Text → A) → Factories A → Factories A
  emplace name factory [] = (name, factory) ∷ []
  emplace name factory (entry ∷ rest) =
      if text_lt name entry.0
      then (name, factory) ∷ entry ∷ rest
      else entry ∷ emplace name factory rest

  unfoldable pub register_strategy :
      Factories A → Text → Option (Text → A) → Factories A × Result RegistryError Bool
  register_strategy factories name none =
      (factories, err (if text_eq name [] then empty_name else null_factory))
  register_strategy factories name (some factory) =
      if text_eq name [] then (factories, err empty_name) else elim (find_factory name factories) [
        | some known ↦ (factories, err already_registered)
        | none ↦ (emplace name factory factories, ok true)
      ]

  unfoldable pub create : Factories A → Text → Text → Result RegistryError A
  create factories name config = elim (find_factory name factories) [
    | none ↦ err unknown_strategy
    | some factory ↦ ok (factory config)
  ]

  unfoldable pub contains : Factories A → Text → Bool
  contains factories name = elim (find_factory name factories) [
    | none ↦ false
    | some factory ↦ true
  ]

  unfoldable pub names : Factories A → List Text
  names factories = map (λ entry. entry.0) factories
