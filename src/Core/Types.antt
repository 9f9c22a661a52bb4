-- ===== src/Core/Types.antt =====
-- include/ptl/core/types.hpp: sides, basis points, and times.
-- A `Timestamp` is a signed 64-bit count of nanoseconds. It is held here as its distance from the
-- least one, which keeps the order, equality and the sums with a duration: `kNoTimestamp`, the
-- least, is 0, and the epoch is 2 ^ 63. Sums past the greatest timestamp, which are undefined in
-- the source, are not cut off.
use predictive_trading_lab.Prelude.{ℕ, ◌*◌, ◌^◌, Bool, true, false, not, ◌==◌, if◌then◌else◌}
use predictive_trading_lab.Prelude.Int.{ℤ, pos, negsuc}
use predictive_trading_lab.Prelude.Double.{Double, ◌⊕◌, ◌⊖◌, ◌⊗◌, ◌⊘◌, ◌=?◌, lit, d0, d1}

abbrev pub Timestamp : Type 0
Timestamp = ℕ

abbrev pub no_timestamp : Timestamp
no_timestamp = 0

abbrev pub epoch : Timestamp
epoch = 2 ^ 63

abbrev pub is_set : Timestamp → Bool
is_set ts = not (ts == no_timestamp)

-- Nanoseconds, of a length that is not negative.
abbrev pub Duration : Type 0
Duration = ℕ

abbrev pub seconds : ℕ → Duration
seconds n = n * 1_000_000_000

abbrev pub InstrumentId : Type 0
InstrumentId = ℕ

abbrev pub invalid_instrument : InstrumentId
invalid_instrument = 0xFFFFFFFF

pub data Side : Type 0 where
  buy sell : Side

abbrev pub side_eq : Side → Side → Bool
side_eq buy buy = true
side_eq sell sell = true
side_eq _ _ = false

unfoldable pub sign_of : Side → ℤ
sign_of buy = pos 1
sign_of sell = negsuc 0

unfoldable pub opposite : Side → Side
opposite buy = sell
opposite sell = buy

module _ {D : Type 0} ⦃F : Double D⦄ where
  -- `static_cast<double>(sign_of(s))`.
  abbrev pub signed : Side → D
  signed s = F.of_ℤ (sign_of s)

  unfoldable pub participation : D → D → D
  participation q v = if v =? d0 then d0 else q ⊘ v

  unfoldable pub notional : D → D → D
  notional p q = p ⊗ q

  unfoldable pub apply_bps : D → D → ℤ → D
  apply_bps p b direction = p ⊗ (d1 ⊕ F.of_ℤ direction ⊗ b ⊗ lit 1 10000)

  unfoldable pub to_bps : D → D → D
  to_bps p reference = if reference =? d0 then d0 else (p ⊘ reference ⊖ d1) ⊗ lit 10000 1
