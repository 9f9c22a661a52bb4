-- ===== src/Core/Instruments.antt =====
-- include/ptl/core/instrument_table.hpp and src/core/instrument_table.cpp: symbols and their ids.
pub mod Naming
use predictive_trading_lab.Prelude.{
  ℕ, ◌+◌, ◌%◌, ◌^◌, ◌<◌, ◌≤◌, ◌≡◌, refl, sym, ap, inl, inr, Bool, true, false, if◌then◌else◌, ltb,
  Option, none, some, List, [], ◌∷◌, ◌++◌, length, get_elem?, length-append, text_eq, text_eq_iff,
  Option-cases, Bool-cases, Text, arith,
}
use predictive_trading_lab.Core.Types.{InstrumentId}

-- `index_` and `by_id_`; the storage behind their views is not modelled.
pub record InstrumentTable : Type 0 where
  pub index : List (Text × InstrumentId)
  pub by_id : List Text

abbrev pub empty_table : InstrumentTable
empty_table = record { index = []; by_id = [] }

unfoldable pub find_in : Text → List (Text × InstrumentId) → Option InstrumentId
find_in symbol [] = none
find_in symbol (entry ∷ index) =
    if text_eq entry.0 symbol then some entry.1 else find_in symbol index

unfoldable pub find : InstrumentTable → Text → Option InstrumentId
find t symbol = find_in symbol t.index

-- The id is the size as a 32-bit number.
unfoldable pub intern : InstrumentTable → Text → InstrumentTable × InstrumentId
intern t symbol =
    let id = length t.by_id % 2 ^ 32 in
    elim (find t symbol) [
      | some known ↦ (t, known)
      | none ↦ (record { index = (symbol, id) ∷ t.index; by_id = t.by_id ++ symbol ∷ [] }, id)
    ]

unfoldable pub symbol_of : InstrumentTable → InstrumentId → Text
symbol_of t id = elim (get_elem? t.by_id id) [ none ↦ [] | some symbol ↦ symbol ]

unfoldable pub knows : InstrumentTable → InstrumentId → Bool
knows t id = ltb id (length t.by_id)

unfoldable pub clear : InstrumentTable → InstrumentTable
clear t = empty_table
