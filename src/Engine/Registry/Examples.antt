-- ===== src/Engine/Registry/Examples.antt =====
-- The registry of strategies at concrete names, for src/engine/strategy.cpp.
use predictive_trading_lab.Prelude.{ℕ, ◌≡◌, refl, Option, some, List, [], ◌∷◌, text_eq, Text}
use predictive_trading_lab.Engine.Registry.{
  text_lt, find_factory, emplace, register_strategy, create, names,
}
use predictive_trading_lab.Engine.Registry.First.{run, first_given, made_by, create-first}

abbrev momentum : Text
momentum = 109 ∷ 111 ∷ []

abbrev carry : Text
carry = 99 ∷ 97 ∷ []

-- The second registration of `momentum` is refused.
abbrev calls : List (Text × Option (Text → ℕ))
calls =
    (momentum, some (λ config. 1))
    ∷ (carry, some (λ config. 2))
    ∷ (momentum, some (λ config. 3))
    ∷ []

create-first_example : create (run calls []) momentum [] ≡ made_by [] (first_given momentum calls)
unfolding text_eq
create-first_example = create-first calls momentum [] refl

registered_names : names (run calls []) ≡ carry ∷ momentum ∷ []
unfolding run register_strategy find_factory emplace text_lt names text_eq
registered_names = refl
