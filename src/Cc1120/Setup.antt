-- ===== src/Cc1120/Setup.antt =====
-- Channel, power, signal strength and settings of the chip (src/cc1120.c).
pub mod Laws
use libtta.Base.{
  ℕ, ◌-◌, ℤ, pos, negsuc, true, false, Option, none, some, List, [], ◌∷◌, ltb, if◌then◌else◌,
}
use libtta.Base.Run.{M, fault, pure, ◌>>=◌, ◌>>◌}
use libtta.Base.Buffer.{load}
use libtta.Context.{State}
use libtta.Cc1120.Registers.{
  freq2, freq1, freq0, pa_cfg2, pa_cfg1, pa_cfg0, freq2_table, freq1_table, freq0_table,
  pa_cfg2_table, pa_cfg1_table, pa_cfg0_table, rssi1, srx, sfrx, sftx, settings,
}
use libtta.Cc1120.Access.{Spi, strobe, read_single, write_single, await_rssi}
use libtta.Cc1120.Calibration.{manualcalibration}

-- `table[i]` for an `int`.
abbrev pub table_at : {S : Type 0} → List ℕ → ℤ → M S ℕ
table_at table (pos i) = load table i
table_at table (negsuc i) = λ s. fault

-- `(signed char)val`.
abbrev pub signed_char : ℕ → ℤ
signed_char val = if ltb val 128 then pos val else negsuc (255 - val)

module _ {D W : Type 0} (spi : Spi W) where
  unfoldable pub set_ch : ℕ → ℤ → ℤ → M (State D W) (Unit {0})
  set_ch rounds fd ch = do
    f2 ← table_at freq2_table ch
    write_single spi fd freq2 f2
    f1 ← table_at freq1_table ch
    write_single spi fd freq1 f1
    f0 ← table_at freq0_table ch
    write_single spi fd freq0 f0
    manualcalibration spi rounds fd
    strobe spi fd sfrx
    strobe spi fd sftx
    pure tt

  unfoldable pub set_power : ℕ → ℤ → ℤ → M (State D W) (Unit {0})
  set_power rounds fd power = do
    p2 ← table_at pa_cfg2_table power
    write_single spi fd pa_cfg2 p2
    p1 ← table_at pa_cfg1_table power
    write_single spi fd pa_cfg1 p1
    p0 ← table_at pa_cfg0_table power
    write_single spi fd pa_cfg0 p0
    manualcalibration spi rounds fd
    strobe spi fd sfrx
    strobe spi fd sftx
    pure tt

  -- `none` is -1, with `*rssi` as it was.
  unfoldable pub get_rssi : ℤ → M (State D W) (Option ℤ)
  get_rssi fd = strobe spi fd srx >>= λ _. await_rssi spi 11 fd >>= λ valid. elim valid [
    | false ↦ pure none
    | true ↦ read_single spi fd rssi1 >>= λ val. pure (some (signed_char val))
  ]

  unfoldable pub write_all : ℤ → List (ℕ × ℕ) → M (State D W) (Unit {0})
  write_all fd [] = pure tt
  write_all fd ((addr, val) ∷ rest) = write_single spi fd addr val >>= λ _. write_all fd rest

  unfoldable pub writesetting : ℤ → M (State D W) (Unit {0})
  unfolding write_all
  writesetting fd = write_all fd settings
