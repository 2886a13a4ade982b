-- ===== src/Cc1120/Calibration/Laws.antt =====
-- The calibration ends where the driver answers and the chip becomes idle.
use libtta.Base.{
  ℕ, zero, suc, ◌<◌, ◌≡◌, ◌≢◌, refl, sym, ◌∙◌, inl, inr, ℤ, false, Bool-cases, ◌==◌, some, arith,
}
use libtta.Base.Run.{Returns}
use libtta.Context.{State}
use libtta.Cc1120.Registers.{marcstate, idle_state}
use libtta.Cc1120.Access.{Spi}
use libtta.Cc1120.Calibration.{
  await_idle_timeout, await_idle, read_results, write_results, measure_high, measure_mid,
  manualcalibration, best_results, CalResults,
}
use libtta.Cc1120.Laws.{
  SpiLaws, Kept, Kept-then, some_inj, strobe-Kept, read_single_lem, read_single-Kept,
  write_single-Kept,
}

module _ {D W : Type 0} (spi : Spi W) (rounds : ℕ) (laws : SpiLaws spi rounds) (fd : ℤ) where
  await_idle_timeout-Kept :
      (left : ℕ) (st : State D W) → Returns (await_idle_timeout spi left fd st) (Kept st)
  unfolding await_idle_timeout
  await_idle_timeout-Kept zero st =
      Kept-then st _ _ (read_single-Kept spi rounds laws fd marcstate st)
        (λ _ t. (refl, refl, refl))
  await_idle_timeout-Kept (suc left) st =
      Kept-then st _ _ (read_single-Kept spi rounds laws fd marcstate st) λ state t.
        elim (Bool-cases (state == idle_state)) [
          | inl e ↦ rw (e, Returns) (refl, refl, refl)
          | inr e ↦ rw (e, Returns) (await_idle_timeout-Kept left t)
        ]

  await_idle-Kept :
      (f : ℕ) (st : State D W) → laws.busy st.world < f → Returns (await_idle spi f fd st) (Kept st)
  unfolding await_idle
  await_idle-Kept zero st h = absurd (omega arith)
  await_idle-Kept (suc f) st h =
      let (state, found, e) = read_single_lem spi rounds laws fd marcstate st in
      rw (e, Returns)
        (elim (Bool-cases (state == idle_state)) [
          | inl idle ↦ rw (idle, Returns) (refl, refl, refl)
          | inr other ↦
              rw (other, Returns)
                (await_idle-Kept f (record st { world = (spi.read fd marcstate 1 st.world).1 })
                  (omega (
                    arith,
                    laws.busy_falls fd st.world (λ g. differs state other (sym found ∙ g)),
                  )))
        ])
    where
      differs : (n : ℕ) → (n == idle_state) ≡ false → some n ≢ some idle_state
      differs n e h = ground (arith, some_inj n idle_state h)

  read_results-Kept : (st : State D W) → Returns (read_results spi fd st) (Kept st)
  unfolding read_results
  read_results-Kept st = Kept-then st _ _ (read_single-Kept spi rounds laws fd _ st) λ _ t1.
      Kept-then t1 _ _ (read_single-Kept spi rounds laws fd _ t1) λ _ t2.
        Kept-then t2 _ _ (read_single-Kept spi rounds laws fd _ t2) (λ _ t. (refl, refl, refl))

  write_results-Kept :
      (r : CalResults) (st : State D W) → Returns (write_results spi fd r st) (Kept st)
  unfolding write_results
  write_results-Kept r st = Kept-then st _ _ (write_single-Kept spi rounds laws fd _ _ st) λ _ t1.
      Kept-then t1 _ _ (write_single-Kept spi rounds laws fd _ _ t1)
        λ _ t2. write_single-Kept spi rounds laws fd _ _ t2

  measure_high-Kept : (cal : ℕ) (st : State D W) → Returns (measure_high spi fd cal st) (Kept st)
  unfolding measure_high
  measure_high-Kept cal st = Kept-then st _ _ (write_single-Kept spi rounds laws fd _ _ st) λ _ t1.
      Kept-then t1 _ _ (strobe-Kept spi rounds laws fd _ t1)
        λ _ t2. Kept-then t2 _ _ (await_idle_timeout-Kept 50 t2) λ _ t3. read_results-Kept t3

  measure_mid-Kept :
      (cal : ℕ) (st : State D W) → Returns (measure_mid spi rounds fd cal st) (Kept st)
  unfolding measure_mid
  measure_mid-Kept cal st = Kept-then st _ _ (write_single-Kept spi rounds laws fd _ _ st) λ _ t1.
      Kept-then t1 _ _ (write_single-Kept spi rounds laws fd _ _ t1) λ _ t2.
        Kept-then t2 _ _ (strobe-Kept spi rounds laws fd _ t2) λ _ t3.
          Kept-then t3 _ _ (await_idle-Kept rounds t3 (laws.busy-lt t3.world))
            λ _ t4. read_results-Kept t4

  -- Where the chip becomes idle, the calibration ends, and only the chip has changed.
  pub manualcalibration-Kept :
      (st : State D W) → Returns (manualcalibration spi rounds fd st) (Kept st)
  unfolding manualcalibration
  manualcalibration-Kept st = Kept-then st _ _ (strobe-Kept spi rounds laws fd _ st) λ _ t1.
      Kept-then t1 _ _ (write_single-Kept spi rounds laws fd _ _ t1) λ _ t2.
        Kept-then t2 _ _ (read_single-Kept spi rounds laws fd _ t2) λ cal t3.
          Kept-then t3 _ _ (measure_high-Kept cal t3) λ high t4.
            Kept-then t4 _ _ (measure_mid-Kept cal t4)
              λ mid t5. write_results-Kept (best_results high mid) t5
