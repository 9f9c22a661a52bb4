-- ===== src/Core/Instruments/Naming.antt =====
-- What the ids of the table of src/core/instrument_table.cpp name.
use predictive_trading_lab.Prelude.{
  ℕ, zero, suc, ◌+◌, ◌%◌, ◌^◌, ◌<◌, ◌≤◌, ◌≡◌, refl, sym, inl, inr, if◌then◌else◌, some, List, [],
  ◌∷◌, ◌++◌, length, get_elem?, length-append, text_eq, text_eq_iff, Option-cases, Bool-cases, Text,
  arith,
}
use mathlib.Core.Path.{subst}
use predictive_trading_lab.Core.Types.{InstrumentId}
use predictive_trading_lab.Core.Instruments.{
  InstrumentTable, empty_table, find_in, find, intern, symbol_of, clear,
}

pub data Call : Type 0 where
  call_intern : Text → Call
  call_clear : Call

unfoldable pub step : Call → InstrumentTable → InstrumentTable
step (call_intern symbol) t = (intern t symbol).0
step call_clear t = clear t

unfoldable pub run : List Call → InstrumentTable → InstrumentTable
run [] t = t
run (c ∷ calls) t = run calls (step c t)

-- The id that is found for a symbol is its place in the list.
record IsConsistent (t : InstrumentTable) : Type 0 where
  placed : (s : Text) (id : InstrumentId) → find t s ≡ some id → get_elem? t.by_id id ≡ some s

get_elem?-keeps :
    (xs : List Text) (y s : Text) (i : ℕ)
    → get_elem? xs i ≡ some s
    → get_elem? (xs ++ y ∷ []) i ≡ some s
get_elem?-keeps [] y s i h = cc
get_elem?-keeps (x ∷ xs) y s zero h = h
get_elem?-keeps (x ∷ xs) y s (suc i) h = get_elem?-keeps xs y s i h

get_elem?-last : (xs : List Text) (y : Text) → get_elem? (xs ++ y ∷ []) (length xs) ≡ some y
get_elem?-last [] y = refl
get_elem?-last (x ∷ xs) y = get_elem?-last xs y

added-place :
    (xs : List Text) (s : Text)
    → length xs < 2 ^ 32
    → get_elem? (xs ++ s ∷ []) (length xs % 2 ^ 32) ≡ some s
added-place xs s h =
    let whole : length xs % 2 ^ 32 ≡ length xs = omega arith in
    subst (λ i. get_elem? (xs ++ s ∷ []) i ≡ some s) (sym whole) (get_elem?-last xs s)

-- The index with one entry more still holds places.
entry-placed :
    (index : List (Text × InstrumentId)) (xs : List Text) (s r : Text) (id i : InstrumentId)
    → get_elem? (xs ++ s ∷ []) id ≡ some s
    → (find_in r index ≡ some i → get_elem? xs i ≡ some r)
    → find_in r ((s, id) ∷ index) ≡ some i
    → get_elem? (xs ++ s ∷ []) i ≡ some r
unfolding find_in
entry-placed index xs s r id i place old found = elim (Bool-cases (text_eq s r)) [
  | inl same ↦
      let here : some id ≡ some i =
        subst (λ b. (if b then some id else find_in r index) ≡ some i) same found in
      let it : s ≡ r = (text_eq_iff s r).0 same in cc (here, it, place)
  | inr other ↦
      get_elem?-keeps xs s r i
        (old (subst (λ b. (if b then some id else find_in r index) ≡ some i) other found))
]

intern-IsConsistent :
    (t : InstrumentTable) (s : Text)
    → length t.by_id < 2 ^ 32
    → IsConsistent t
    → IsConsistent (intern t s).0 × (length (intern t s).0.by_id ≤ suc (length t.by_id))
unfolding intern find
intern-IsConsistent t s small h = elim (Option-cases (find t s)) [
  | inl new ↦
      rw (new, intern)
        (
          record {
            placed = λ r i.
                entry-placed t.index t.by_id s r (length t.by_id % 2 ^ 32) i
                  (added-place t.by_id s small) (h.placed r i);
          },
          omega (arith, length-append t.by_id (s ∷ [])),
        )
  | inr (id, known) ↦ rw (known, intern) (h, omega arith)
]

run-IsConsistent :
    (calls : List Call) (t : InstrumentTable)
    → length t.by_id + length calls < 2 ^ 32
    → IsConsistent t
    → IsConsistent (run calls t) × (length (run calls t).by_id < 2 ^ 32)
unfolding run step clear find find_in
run-IsConsistent [] t small h = (h, omega arith)
run-IsConsistent (call_intern s ∷ calls) t small h =
    let (kept, grown) = intern-IsConsistent t s (omega arith) h in
    run-IsConsistent calls (intern t s).0 (omega arith) kept
run-IsConsistent (call_clear ∷ calls) t small h =
    run-IsConsistent calls empty_table (omega arith) (record { placed = λ s id e. cc })

-- After fewer than 2 ^ 32 calls on an empty table, `intern` gives an id that names the symbol and
-- is then found for it; every other symbol is found as before.
pub intern_lem :
    (calls : List Call) (s r : Text)
    → length calls < 2 ^ 32
    → (symbol_of (intern (run calls empty_table) s).0 (intern (run calls empty_table) s).1 ≡ s)
      × (find (intern (run calls empty_table) s).0 r ≡ (
          if text_eq s r
          then some (intern (run calls empty_table) s).1
          else find (run calls empty_table) r))
unfolding intern symbol_of find find_in
intern_lem calls s r small =
    let t = run calls empty_table in
    let (h, bound) =
      run-IsConsistent calls empty_table (omega arith) (record { placed = λ s id e. cc }) in
    elim (Option-cases (find t s)) [
      | inl new ↦
          let place = added-place t.by_id s bound in
          rw (new, intern) (rw (place, symbol_of) refl, refl)
      | inr (id, known) ↦
          let place = h.placed s id known in
          rw (known, intern)
            (
              rw (place, symbol_of) refl,
              elim (Bool-cases (text_eq s r)) [
                | inl same ↦
                    rw (same) (subst (λ x. find t x ≡ some id) ((text_eq_iff s r).0 same) known)
                | inr other ↦ rw (other) refl
              ],
            )
    ]
