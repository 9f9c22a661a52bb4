-- ===== src/Market/Symbols.antt =====
-- include/ptl/market/symbol_mapper.hpp and src/market/symbol_mapper.cpp: which instrument a vendor's
-- symbol or number means at an instant, and the quotes that are made with it.
pub mod Unique
pub mod Normaliser
mod Tally
mod Examples
use predictive_trading_lab.Prelude.{
  ℕ, ◌+◌, ◌≡◌, Bool, true, false, not, ◌&&◌, ◌==◌, if◌then◌else◌, ltb, leb, Option, none, some,
  List, [], ◌∷◌, ◌++◌, text_eq, Text, Result, ok, err,
}
use predictive_trading_lab.Core.Types.{Timestamp, InstrumentId, is_set, epoch, invalid_instrument}
use predictive_trading_lab.Core.Instruments.{InstrumentTable, intern}
use predictive_trading_lab.Market.Source.{max_timestamp}

pub record SymbolMapping : Type 0 where
  pub raw_symbol : Text
  pub instrument : InstrumentId
  pub vendor_id : ℕ
  pub valid_from : Timestamp
  pub valid_to : Timestamp

pub data SymbolError : Type 0 where
  no_raw_symbol no_valid_from empty_window overlapping : SymbolError

-- The table of instruments, which is shared, is an argument.
pub record SymbolMapper : Type 0 where
  pub mappings : List SymbolMapping

abbrev pub empty_mapper : SymbolMapper
empty_mapper = record { mappings = [] }

unfoldable pub covers : SymbolMapping → Timestamp → Bool
covers m ts = leb m.valid_from ts && ltb ts m.valid_to

-- Two mappings of one symbol whose windows overlap.
unfoldable pub clashes : SymbolMapping → SymbolMapping → Bool
clashes m existing =
    text_eq existing.raw_symbol m.raw_symbol
    && ltb m.valid_from existing.valid_to
    && ltb existing.valid_from m.valid_to

unfoldable pub clashes_any : SymbolMapping → List SymbolMapping → Bool
clashes_any m [] = false
clashes_any m (existing ∷ rest) = if clashes m existing then true else clashes_any m rest

unfoldable pub add :
    InstrumentTable
    → SymbolMapper
    → SymbolMapping
    → InstrumentTable × SymbolMapper × Result SymbolError InstrumentId
add table s m =
    let interned = intern table m.raw_symbol in
    if text_eq m.raw_symbol []
    then (table, s, err no_raw_symbol)
    else if not (is_set m.valid_from)
    then (table, s, err no_valid_from)
    else if leb m.valid_to m.valid_from
    then (table, s, err empty_window)
    else if clashes_any m s.mappings
    then (table, s, err overlapping)
    else (
      interned.0,
      record { mappings = s.mappings ++ record m { instrument = interned.1 } ∷ [] },
      ok interned.1,
    )

-- From the epoch on, open-ended.
abbrev pub static_mapping : Text → ℕ → SymbolMapping
static_mapping raw_symbol vendor_id = record {
  raw_symbol = raw_symbol;
  instrument = invalid_instrument;
  vendor_id = vendor_id;
  valid_from = epoch;
  valid_to = max_timestamp;
}

unfoldable pub add_static :
    InstrumentTable
    → SymbolMapper
    → Text
    → ℕ
    → InstrumentTable × SymbolMapper × Result SymbolError InstrumentId
add_static table s raw_symbol vendor_id = add table s (static_mapping raw_symbol vendor_id)

unfoldable pub resolve_in : Text → Timestamp → List SymbolMapping → Option InstrumentId
resolve_in raw_symbol as_of [] = none
resolve_in raw_symbol as_of (m ∷ mappings) =
    if text_eq m.raw_symbol raw_symbol && covers m as_of
    then some m.instrument
    else resolve_in raw_symbol as_of mappings

unfoldable pub resolve : SymbolMapper → Text → Timestamp → Option InstrumentId
resolve s raw_symbol as_of = resolve_in raw_symbol as_of s.mappings

unfoldable pub resolve_vendor_in : ℕ → Timestamp → List SymbolMapping → Option InstrumentId
resolve_vendor_in vendor_id as_of [] = none
resolve_vendor_in vendor_id as_of (m ∷ mappings) =
    if (m.vendor_id == vendor_id) && covers m as_of
    then some m.instrument
    else resolve_vendor_in vendor_id as_of mappings

unfoldable pub resolve_vendor_id : SymbolMapper → ℕ → Timestamp → Option InstrumentId
resolve_vendor_id s vendor_id as_of =
    if vendor_id == 0 then none else resolve_vendor_in vendor_id as_of s.mappings

unfoldable pub raw_symbol_in : InstrumentId → Timestamp → List SymbolMapping → Option Text
raw_symbol_in instrument as_of [] = none
raw_symbol_in instrument as_of (m ∷ mappings) =
    if (m.instrument == instrument) && covers m as_of
    then some m.raw_symbol
    else raw_symbol_in instrument as_of mappings

unfoldable pub raw_symbol_of : SymbolMapper → InstrumentId → Timestamp → Option Text
raw_symbol_of s instrument as_of = raw_symbol_in instrument as_of s.mappings

unfoldable pub reset : SymbolMapper → SymbolMapper
reset s = empty_mapper
