-- ===== src/Market/Symbols/Unique.antt =====
-- At any instant a symbol means one instrument, for src/market/symbol_mapper.cpp.
use predictive_trading_lab.Prelude.{
  ℕ, zero, suc, ◌≡◌, refl, inl, inr, true, false, not, ◌&&◌, if◌then◌else◌, if_intro, Result, ok,
  err, leb, some, List, [], ◌∷◌, ◌++◌, All, All-append, All-get_elem?, get_elem?, text_eq,
  text_eq_iff, Bool-cases, &&-true, Text, arith,
}
use mathlib.Core.Path.{subst}
use predictive_trading_lab.Core.Types.{Timestamp, InstrumentId, is_set}
use predictive_trading_lab.Core.Instruments.{InstrumentTable, intern, clear}
use predictive_trading_lab.Market.Symbols.{
  SymbolMapping, SymbolMapper, SymbolError, overlapping, static_mapping, empty_mapper, covers,
  clashes, clashes_any, add, add_static, resolve_in, resolve, reset,
}

-- A call of the mapper; others may intern in the table at any time, or clear it.
pub data Call : Type 0 where
  call_add : SymbolMapping → Call
  call_add_static : Text → ℕ → Call
  call_reset : Call
  call_intern : Text → Call
  call_clear : Call

unfoldable pub step : Call → InstrumentTable → SymbolMapper → InstrumentTable × SymbolMapper
step (call_add m) table s = let added = add table s m in (added.0, added.1)
step (call_add_static raw_symbol vendor_id) table s =
    let added = add_static table s raw_symbol vendor_id in (added.0, added.1)
step call_reset table s = (table, reset s)
step (call_intern raw_symbol) table s = ((intern table raw_symbol).0, s)
step call_clear table s = (clear table, s)

unfoldable pub run : List Call → InstrumentTable → SymbolMapper → SymbolMapper
run [] table s = s
run (c ∷ calls) table s = let next = step c table s in run calls next.0 next.1

-- No mapping clashes with one before it.
unfoldable IsExclusive : List SymbolMapping → Type 0
IsExclusive [] = Unit
IsExclusive (k ∷ mappings) = All (λ m. clashes m k ≡ false) mappings × IsExclusive mappings

clashes_any-All :
    (m : SymbolMapping) (mappings : List SymbolMapping)
    → clashes_any m mappings ≡ false
    → All (λ k. clashes m k ≡ false) mappings
unfolding clashes_any
clashes_any-All m [] h = tt
clashes_any-All m (k ∷ mappings) h = ground (arith, clashes_any-All m mappings)

IsExclusive-append :
    (m : SymbolMapping) (mappings : List SymbolMapping)
    → All (λ k. clashes m k ≡ false) mappings
    → IsExclusive mappings
    → IsExclusive (mappings ++ m ∷ [])
unfolding IsExclusive
IsExclusive-append m [] new h = (tt, tt)
IsExclusive-append m (k ∷ mappings) new h = (
  All-append (λ n. clashes n k ≡ false) mappings (m ∷ []) h.0 (new.0, tt),
  IsExclusive-append m mappings new.1 h.1,
)

stored-IsExclusive :
    (m : SymbolMapping) (id : InstrumentId) (mappings : List SymbolMapping)
    → clashes_any m mappings ≡ false
    → IsExclusive mappings
    → IsExclusive (mappings ++ record m { instrument = id } ∷ [])
unfolding clashes
stored-IsExclusive m id mappings free h =
    IsExclusive-append (record m { instrument = id }) mappings (clashes_any-All m mappings free) h

add-IsExclusive :
    (table : InstrumentTable) (s : SymbolMapper) (m : SymbolMapping)
    → IsExclusive s.mappings
    → IsExclusive (add table s m).1.mappings
unfolding add
add-IsExclusive table s m h =
    let interned = intern table m.raw_symbol in
    let stored = record m { instrument = interned.1 } in
    let Fits : InstrumentTable × SymbolMapper × Result SymbolError InstrumentId → Type 0 =
      λ r. IsExclusive r.1.mappings in
    let kept : InstrumentTable × SymbolMapper × Result SymbolError InstrumentId =
      (interned.0, record { mappings = s.mappings ++ stored ∷ [] }, ok interned.1) in
    let checked : Fits (if clashes_any m s.mappings then (table, s, err overlapping) else kept) =
      elim (Bool-cases (clashes_any m s.mappings)) [
        | inl clash ↦ rw (clash) h
        | inr free ↦ rw (free) (stored-IsExclusive m interned.1 s.mappings free h)
      ] in
    if_intro Fits (text_eq m.raw_symbol []) _ _ h (
      if_intro Fits (not (is_set m.valid_from)) _ _ h
        (if_intro Fits (leb m.valid_to m.valid_from) _ _ h checked))

run-IsExclusive :
    (calls : List Call) (table : InstrumentTable) (s : SymbolMapper)
    → IsExclusive s.mappings
    → IsExclusive (run calls table s).mappings
unfolding run step add_static reset IsExclusive
run-IsExclusive [] table s h = h
run-IsExclusive (call_add m ∷ calls) table s h =
    run-IsExclusive calls (add table s m).0 (add table s m).1 (add-IsExclusive table s m h)
run-IsExclusive (call_add_static raw_symbol vendor_id ∷ calls) table s h =
    let m : SymbolMapping = static_mapping raw_symbol vendor_id in
    run-IsExclusive calls (add table s m).0 (add table s m).1 (add-IsExclusive table s m h)
run-IsExclusive (call_reset ∷ calls) table s h = run-IsExclusive calls table empty_mapper tt
run-IsExclusive (call_intern raw_symbol ∷ calls) table s h =
    run-IsExclusive calls (intern table raw_symbol).0 s h
run-IsExclusive (call_clear ∷ calls) table s h = run-IsExclusive calls (clear table) s h

-- Two mappings of a symbol that cover one instant clash.
covers-clashes :
    (m k : SymbolMapping) (ts : Timestamp)
    → text_eq k.raw_symbol m.raw_symbol ≡ true
    → covers m ts ≡ true
    → covers k ts ≡ true
    → clashes m k ≡ true
unfolding covers clashes
covers-clashes m k ts same h l = ground arith

resolve_in-covers :
    (mappings : List SymbolMapping) (n : ℕ) (m : SymbolMapping) (ts : Timestamp)
    → IsExclusive mappings
    → get_elem? mappings n ≡ some m
    → covers m ts ≡ true
    → resolve_in m.raw_symbol ts mappings ≡ some m.instrument
unfolding resolve_in IsExclusive
resolve_in-covers [] n m ts h e l = cc
resolve_in-covers (k ∷ mappings) zero m ts h e l =
    let it : k ≡ m = cc in
    subst
      (λ x.
        covers x ts ≡ true
        → (if text_eq k.raw_symbol x.raw_symbol && covers k ts
            then some k.instrument
            else resolve_in x.raw_symbol ts mappings)
          ≡ some x.instrument)
      it (λ live. rw ((text_eq_iff k.raw_symbol k.raw_symbol).1 refl, live) refl) l
resolve_in-covers (k ∷ mappings) (suc n) m ts h e l =
    let apart : clashes m k ≡ false = All-get_elem? (λ x. clashes x k ≡ false) mappings n m h.0 e in
    elim (Bool-cases (text_eq k.raw_symbol m.raw_symbol && covers k ts)) [
      | inl both ↦
          let (same, live) = &&-true (text_eq k.raw_symbol m.raw_symbol) (covers k ts) both in
          let clash = covers-clashes m k ts same l live in cc (apart, clash)
      | inr other ↦ rw (other) (resolve_in-covers mappings n m ts h.1 e l)
    ]

-- After any calls, on the mapper or on the table that it shares: whichever mapping covers an
-- instant is the one that its symbol resolves to at that instant, so the order in which the
-- mappings were added decides nothing.
pub resolve-covers :
    (calls : List Call) (table : InstrumentTable) (n : ℕ) (m : SymbolMapping) (ts : Timestamp)
    → get_elem? (run calls table empty_mapper).mappings n ≡ some m
    → covers m ts ≡ true
    → resolve (run calls table empty_mapper) m.raw_symbol ts ≡ some m.instrument
unfolding resolve IsExclusive
resolve-covers calls table n m ts e l =
    resolve_in-covers (run calls table empty_mapper).mappings n m ts
      (run-IsExclusive calls table empty_mapper tt) e l
