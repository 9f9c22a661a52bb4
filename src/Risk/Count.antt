-- ===== src/Risk/Count.antt =====
-- The counts of decisions that a `RiskManager` keeps (src/risk/risk_manager.cpp).
use mathlib.Core.Path.{subst}
use predictive_trading_lab.Prelude.{
  ℕ, suc, ◌+◌, ◌<◌, ◌≡◌, ◌≢◌, refl, Bool, true, false, ◌==◌, ltb, if◌then◌else◌, none, some, List,
  [], ◌∷◌, All, arith, ==_iff, inl, inr, sym, ap, ◌∙◌, ◌⊎◌,
}
use predictive_trading_lab.Prelude.Map.{Map, lookup, insert, lookup-insert, All-insert}
use predictive_trading_lab.Risk.{
  RejectCode, approved, code_number, counted, or_zero, record_code, rejection_count,
  rejection_count_of,
}

-- The codes recorded one after another.
unfoldable pub record_codes : List RejectCode → Map ℕ → Map ℕ
record_codes [] counts = counts
record_codes (code ∷ codes) counts = record_codes codes (record_code code counts)

-- How many of the codes have the number.
abbrev pub occurrences : ℕ → List RejectCode → ℕ
occurrences number [] = 0
occurrences number (code ∷ codes) =
    (if code_number code == number then 1 else 0) + occurrences number codes

-- How many of the codes are rejections.
abbrev pub rejections : List RejectCode → ℕ
rejections [] = 0
rejections (code ∷ codes) =
    (if code_number code == code_number approved then 0 else 1) + rejections codes

-- The keys rise.
abbrev IsRising : Map ℕ → Type 0
IsRising [] = Unit
IsRising (entry ∷ rest) = All (λ e. entry.0 < e.0) rest × IsRising rest

-- One more for the key `key`.
abbrev bump : ℕ → Map ℕ → Map ℕ
bump key counts = insert key (suc (counted key counts)) counts

bumped :
    (key number : ℕ) (counts : Map ℕ) (same : Bool)
    → (same ≡ true → key ≡ number)
    → or_zero (if same then some (suc (counted key counts)) else lookup number counts)
      ≡ (if same then 1 else 0) + counted number counts
bumped key number counts true h =
    subst (λ k. suc (counted k counts) ≡ 1 + counted number counts) (sym (h refl)) (omega arith)
bumped key number counts false h = omega arith

counted-bump :
    (key number : ℕ) (counts : Map ℕ)
    → counted number (bump key counts) ≡ (if key == number then 1 else 0) + counted number counts
counted-bump key number counts =
    ap or_zero (lookup-insert key number (suc (counted key counts)) counts)
    ∙ bumped key number counts (key == number) ((==_iff key number).0)

counted-record_code :
    (code : RejectCode) (number : ℕ) (counts : Map ℕ)
    → counted number (record_code code counts)
      ≡ (if code_number code == number then 1 else 0) + counted number counts
unfolding record_code
counted-record_code code number counts = counted-bump (code_number code) number counts

counted-record_codes :
    (codes : List RejectCode) (number : ℕ) (counts : Map ℕ)
    → counted number (record_codes codes counts) ≡ occurrences number codes + counted number counts
unfolding record_codes
counted-record_codes [] number counts = omega arith
counted-record_codes (code ∷ codes) number counts = omega (
  arith,
  counted-record_codes codes number (record_code code counts),
  counted-record_code code number counts,
)

-- A key below all others is not found.
lookup-below : (key : ℕ) (m : Map ℕ) → All (λ e. key < e.0) m → lookup key m ≡ none
unfolding lookup
lookup-below key [] h = refl
lookup-below key (entry ∷ rest) h = ground (arith, lookup-below key rest h.1)

All-mono :
    (low high : ℕ) (m : Map ℕ) → low < high → All (λ e. high < e.0) m → All (λ e. low < e.0) m
All-mono low high [] h all = tt
All-mono low high (entry ∷ rest) h all = (omega (arith, all.0), All-mono low high rest h all.1)

bump-All :
    (low key : ℕ) (m : Map ℕ)
    → low < key
    → All (λ e. low < e.0) m
    → All (λ e. low < e.0) (bump key m)
bump-All low key m above h = All-insert (λ e. low < e.0) key _ m above h

test_below : (a b : ℕ) → a < b → (ltb a b ≡ true) × ((a == b) ≡ false)
test_below a b h = ground arith

test_same : (a b : ℕ) → a ≡ b → (ltb a b ≡ false) × ((a == b) ≡ true)
test_same a b h = ground arith

test_above : (a b : ℕ) → b < a → (ltb a b ≡ false) × ((a == b) ≡ false)
test_above a b h = ground arith

compare_cases : (a b : ℕ) → (a < b) ⊎ (a ≡ b) ⊎ (b < a)
compare_cases a b = omega arith

lookup-skip :
    (key : ℕ) (entry : ℕ × ℕ) (rest : Map ℕ)
    → (key == entry.0) ≡ false
    → lookup key (entry ∷ rest) ≡ lookup key rest
unfolding lookup
lookup-skip key entry rest e = rw e refl

-- The three cases of `insert` at the head, with what `lookup` finds.
insert_cases :
    (key : ℕ) (entry : ℕ × ℕ) (rest : Map ℕ)
    → ((key < entry.0) × (bump key (entry ∷ rest) ≡ (key, suc (counted key rest)) ∷ entry ∷ rest))
      ⊎ ((key ≡ entry.0) × (bump key (entry ∷ rest) ≡ (key, suc entry.1) ∷ rest))
      ⊎ ((entry.0 < key) × (bump key (entry ∷ rest) ≡ entry ∷ bump key rest))
unfolding insert lookup
insert_cases key entry rest = elim (compare_cases key entry.0) [
  | inl below ↦ inl (below, let t = test_below key entry.0 below in rw (t.0, t.1) refl)
  | inr (inl same) ↦ inr (inl (same, let t = test_same key entry.0 same in rw (t.0, t.1) refl))
  | inr (inr above) ↦ inr (
      inr (
        above,
        let t = test_above key entry.0 above in
            rw (t.0, t.1)
              (ap (λ o. entry ∷ insert key (suc (or_zero o)) rest)
                (lookup-skip key entry rest t.1)),
      ))
]

bump-IsRising : (key : ℕ) (m : Map ℕ) → IsRising m → IsRising (bump key m)
unfolding insert
bump-IsRising key [] h = (tt, tt)
bump-IsRising key (entry ∷ rest) h = elim (insert_cases key entry rest) [
  | inl (below, e) ↦ subst IsRising (sym e) ((below, All-mono key entry.0 rest below h.0), h)
  | inr (inl (same, e)) ↦
      subst IsRising (sym e) (subst (λ k. All (λ x. k < x.0) rest) (sym same) h.0, h.1)
  | inr (inr (above, e)) ↦
      subst IsRising (sym e) (bump-All entry.0 key rest above h.0, bump-IsRising key rest h.1)
]

abbrev weight : ℕ → ℕ
weight number = if number == code_number approved then 0 else 1

rejection_count-bump :
    (key : ℕ) (m : Map ℕ)
    → IsRising m
    → rejection_count (bump key m) ≡ weight key + rejection_count m
unfolding insert lookup rejection_count
rejection_count-bump key [] h = ground arith
rejection_count-bump key (entry ∷ rest) h = elim (insert_cases key entry rest) [
  | inl (below, e) ↦
      ap rejection_count e
      ∙ ground (arith, ap or_zero (lookup-below key rest (All-mono key entry.0 rest below h.0)))
  | inr (inl (same, e)) ↦ ap rejection_count e ∙ ground arith
  | inr (inr (above, e)) ↦ ap rejection_count e ∙ omega (arith, rejection_count-bump key rest h.1)
]

record_codes-rejections :
    (codes : List RejectCode) (counts : Map ℕ)
    → IsRising counts
    → rejection_count (record_codes codes counts) ≡ rejections codes + rejection_count counts
unfolding record_codes record_code
record_codes-rejections [] counts h = omega arith
record_codes-rejections (code ∷ codes) counts h =
    let key = code_number code in
    omega (
      arith,
      record_codes-rejections codes (bump key counts) (bump-IsRising key counts h),
      rejection_count-bump key counts h,
    )

code_number-injective : (a b : RejectCode) → code_number a ≡ code_number b → a ≡ b
unfolding code_number
code_number-injective a b h = ground arith

add_zero : (n : ℕ) → n + 0 ≡ n
add_zero n = omega arith

none_rejected : rejection_count [] ≡ 0
unfolding rejection_count
none_rejected = refl

told_apart : (a b : RejectCode) → (code_number a ≢ code_number b) ⊎ (a ≡ b)
told_apart a b = elim (compare_cases (code_number a) (code_number b)) [
  | inl below ↦ inl (λ e. omega (arith, e, below))
  | inr (inl same) ↦ inr (code_number-injective a b same)
  | inr (inr above) ↦ inl (λ e. omega (arith, e, above))
]

-- After any decisions the manager reports, for each code, how often it was recorded, and in all
-- the number of decisions that were not approvals; codes with different names are told apart.
pub counts_decisions :
    (codes : List RejectCode) (code other : RejectCode)
    → (rejection_count_of code (record_codes codes []) ≡ occurrences (code_number code) codes)
      × (rejection_count (record_codes codes []) ≡ rejections codes)
      × ((code_number code ≢ code_number other) ⊎ (code ≡ other))
unfolding rejection_count_of lookup
counts_decisions codes code other = (
  counted-record_codes codes (code_number code) [] ∙ add_zero _,
  omega (arith, record_codes-rejections codes [] tt, none_rejected),
  told_apart code other,
)
