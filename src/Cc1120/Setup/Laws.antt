-- ===== src/Cc1120/Setup/Laws.antt =====
-- Setting a channel or a power, and the indices into their tables, which are not checked.
use libtta.Base.{
  ℕ, zero, suc, ◌≤◌, ◌<◌, ◌≡◌, refl, ℤ, pos, negsuc, none, List, [], ◌∷◌, length, get_elem?,
  get_elem?-some, arith,
}
use libtta.Base.Run.{M, fault, Returns, pure, or_fault, ◌>>=◌}
use libtta.Context.{State}
use libtta.Cc1120.Registers.{
  sfrx, sftx, freq2_table, freq1_table, freq0_table, pa_cfg2_table, pa_cfg1_table, pa_cfg0_table,
}
use libtta.Cc1120.Access.{Spi, strobe}
use libtta.Cc1120.Calibration.{manualcalibration}
use libtta.Cc1120.Setup.{set_ch, set_power}
use libtta.Cc1120.Laws.{SpiLaws, Kept, Kept-then, IsIndex, strobe-Kept, write_single-Kept}
use libtta.Cc1120.Calibration.Laws.{manualcalibration-Kept}

get_elem?-past : (xs : List ℕ) (i : ℕ) → length xs ≤ i → get_elem? xs i ≡ none
get_elem?-past [] i h = refl
get_elem?-past (x ∷ xs) zero h = absurd (omega arith)
get_elem?-past (x ∷ xs) (suc i) h = get_elem?-past xs i (omega arith)

module _ {D W : Type 0} (spi : Spi W) (rounds : ℕ) (laws : SpiLaws spi rounds) (fd : ℤ) where
  in_table-Kept :
      (table : List ℕ) (i : ℕ) (st : State D W)
      → i < length table
      → Returns (or_fault (get_elem? table i) st) (Kept st)
  in_table-Kept table i st h =
      let (x, e) = get_elem?-some i table h in rw (e, Returns) (refl, refl, refl)

  -- What follows the writes to the three registers.
  recalibrated-Kept :
      (st : State D W)
      → let m : M (State D W) (Unit {0}) = manualcalibration spi rounds fd >>= λ _.
          strobe spi fd sfrx >>= λ _. strobe spi fd sftx >>= λ _. pure tt in
        Returns (m st) (Kept st)
  recalibrated-Kept st = Kept-then st _ _ (manualcalibration-Kept spi rounds laws fd st) λ _ t1.
      Kept-then t1 _ _ (strobe-Kept spi rounds laws fd _ t1)
        λ _ t2. Kept-then t2 _ _ (strobe-Kept spi rounds laws fd _ t2) (λ _ t. (refl, refl, refl))

  -- Where the chip becomes idle, setting one of the channels 0 to 20 ends, and only the chip
  -- changes.
  pub set_ch-Kept :
      (ch : ℤ) (st : State D W) → IsIndex ch 21 → Returns (set_ch spi rounds fd ch st) (Kept st)
  unfolding set_ch
  set_ch-Kept (negsuc i) st h = absurd h
  set_ch-Kept (pos i) st h = Kept-then st _ _ (in_table-Kept freq2_table i st h) λ _ t1.
      Kept-then t1 _ _ (write_single-Kept spi rounds laws fd _ _ t1) λ _ t2.
        Kept-then t2 _ _ (in_table-Kept freq1_table i t2 h) λ _ t3.
          Kept-then t3 _ _ (write_single-Kept spi rounds laws fd _ _ t3) λ _ t4.
            Kept-then t4 _ _ (in_table-Kept freq0_table i t4 h) λ _ t5.
              Kept-then t5 _ _ (write_single-Kept spi rounds laws fd _ _ t5)
                λ _ t6. recalibrated-Kept t6

  -- Where the chip becomes idle, setting one of the powers 0 to 15 ends, and only the chip
  -- changes.
  pub set_power-Kept :
      (power : ℤ) (st : State D W)
      → IsIndex power 16
      → Returns (set_power spi rounds fd power st) (Kept st)
  unfolding set_power
  set_power-Kept (negsuc i) st h = absurd h
  set_power-Kept (pos i) st h = Kept-then st _ _ (in_table-Kept pa_cfg2_table i st h) λ _ t1.
      Kept-then t1 _ _ (write_single-Kept spi rounds laws fd _ _ t1) λ _ t2.
        Kept-then t2 _ _ (in_table-Kept pa_cfg1_table i t2 h) λ _ t3.
          Kept-then t3 _ _ (write_single-Kept spi rounds laws fd _ _ t3) λ _ t4.
            Kept-then t4 _ _ (in_table-Kept pa_cfg0_table i t4 h) λ _ t5.
              Kept-then t5 _ _ (write_single-Kept spi rounds laws fd _ _ t5)
                λ _ t6. recalibrated-Kept t6

module _ {D W : Type 0} (spi : Spi W) (rounds : ℕ) (fd : ℤ) where
  -- With a number that is not one of the channels 0 to 20 the code reads outside of its tables.
  pub set_ch-fault :
      (ch : ℤ) (st : State D W) → ¬ IsIndex ch 21 → set_ch spi rounds fd ch st ≡ fault
  unfolding set_ch
  set_ch-fault (negsuc i) st out = refl
  set_ch-fault (pos i) st out = rw (get_elem?-past freq2_table i (omega arith)) refl

  -- With a number that is not one of the powers 0 to 15 the code reads outside of its tables.
  pub set_power-fault :
      (power : ℤ) (st : State D W) → ¬ IsIndex power 16 → set_power spi rounds fd power st ≡ fault
  unfolding set_power
  set_power-fault (negsuc i) st out = refl
  set_power-fault (pos i) st out = rw (get_elem?-past pa_cfg2_table i (omega arith)) refl
