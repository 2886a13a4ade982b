-- ===== src/Cc1120/Calibration.antt =====
-- The calibration of the synthesizer and of the oscillator (src/cc1120.c).
pub mod Laws
use libtta.Base.{ℕ, zero, suc, ◌+◌, ℤ, true, false, ltb, ◌==◌, if◌then◌else◌, u8, bit_and, bit_or}
use libtta.Base.Run.{M, stuck, pure, ◌>>=◌, ◌>>◌}
use libtta.Context.{State}
use libtta.Cc1120.Registers.{
  wor_cfg0, fs_cal2, fs_chp, fs_vco4, fs_vco2, marcstate, scal, sidle, idle_state,
}
use libtta.Cc1120.Access.{Spi, strobe, read_single, write_single}

-- The results for one value of `VCDAC_START`.
pub record CalResults : Type 0 where
  pub vco2 : ℕ
  pub vco4 : ℕ
  pub chp : ℕ

-- The results with the highest `FS_VCO2`; the middle ones where both are the same.
unfoldable pub best_results : CalResults → CalResults → CalResults
best_results high mid = if ltb mid.vco2 high.vco2 then high else mid

module _ {D W : Type 0} (spi : Spi W) where
  unfoldable pub calibrate_rcosc : ℤ → M (State D W) (Unit {0})
  calibrate_rcosc fd = do
    val ← read_single spi fd wor_cfg0
    let val1 = bit_or (bit_and val 0xf9) 0x04
    write_single spi fd wor_cfg0 val1
    strobe spi fd sidle
    let val2 = bit_or (bit_and val1 0xf9) 0x00
    write_single spi fd wor_cfg0 val2

  -- The first wait for the idle state: `left` further reads before it goes on regardless.
  unfoldable pub await_idle_timeout : ℕ → ℤ → M (State D W) (Unit {0})
  await_idle_timeout zero fd = read_single spi fd marcstate >>= λ _. pure tt
  await_idle_timeout (suc left) fd = read_single spi fd marcstate >>= λ state.
      elim (state == idle_state) [ true ↦ pure tt | false ↦ await_idle_timeout left fd ]

  -- The second wait, which has no limit of its own.
  unfoldable pub await_idle : ℕ → ℤ → M (State D W) (Unit {0})
  await_idle zero fd = λ st. stuck
  await_idle (suc f) fd = read_single spi fd marcstate >>= λ state. elim (state == idle_state) [
    | true ↦ pure tt
    | false ↦ await_idle f fd
  ]

  unfoldable pub read_results : ℤ → M (State D W) CalResults
  read_results fd = do
    vco2 ← read_single spi fd fs_vco2
    vco4 ← read_single spi fd fs_vco4
    chp ← read_single spi fd fs_chp
    pure (record { vco2 = vco2; vco4 = vco4; chp = chp })

  unfoldable pub write_results : ℤ → CalResults → M (State D W) (Unit {0})
  write_results fd r = do
    write_single spi fd fs_vco2 r.vco2
    write_single spi fd fs_vco4 r.vco4
    write_single spi fd fs_chp r.chp

  -- The results for the high start value, and then for the original one.
  unfoldable pub measure_high : ℤ → ℕ → M (State D W) CalResults
  unfolding await_idle_timeout read_results
  measure_high fd original_fs_cal2 = do
    write_single spi fd fs_cal2 (u8 (original_fs_cal2 + 2))
    strobe spi fd scal
    await_idle_timeout 50 fd
    read_results fd

  unfoldable pub measure_mid : ℕ → ℤ → ℕ → M (State D W) CalResults
  unfolding await_idle read_results
  measure_mid rounds fd original_fs_cal2 = do
    write_single spi fd fs_vco2 0x00
    write_single spi fd fs_cal2 original_fs_cal2
    strobe spi fd scal
    await_idle rounds fd
    read_results fd

  unfoldable pub manualcalibration : ℕ → ℤ → M (State D W) (Unit {0})
  unfolding measure_high measure_mid best_results write_results
  manualcalibration rounds fd = do
    strobe spi fd sidle
    write_single spi fd fs_vco2 0x00
    original_fs_cal2 ← read_single spi fd fs_cal2
    high ← measure_high fd original_fs_cal2
    mid ← measure_mid rounds fd original_fs_cal2
    write_results fd (best_results high mid)
