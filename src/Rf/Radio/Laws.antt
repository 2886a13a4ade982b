-- ===== src/Rf/Radio/Laws.antt =====
-- What reaches the chip in one packet, and when the time limit is past.
use libtta.Base.{
  ℕ, suc, ◌+◌, ◌*◌, ◌≤◌, ◌<◌, ◌≡◌, refl, ℤ, false, Bool-cases, ltb, leb, leb→le, if◌then◌else◌, u8,
  inl, inr, some, List, [], ◌∷◌, ◌++◌, length, drop, arith,
}
use libtta.Base.Run.{ok, fault, then_run, pure, ◌>>=◌}
use libtta.Base.Buffer.{
  store-overwrite, copy_bytes, copy_bytes-append, copy_bytes-overwrite, copy_bytes-fault, overwrite,
  read_bytes-append,
}
use libtta.Context.{Timeval, State}
use libtta.Link.{System}
use libtta.Cc1120.Access.{Spi, fifo_write, data_size}
use libtta.Rf.Radio.{Rf, fifo_size, is_past, write_rf}

module _ {W : Type 0} (spi : Spi W) (sys : System W)
    (room : length (sys.malloc fifo_size) ≡ fifo_size) (s : ℤ) (bytes rest : List ℕ)
    (st : State Rf W) where
  -- At most 127 bytes are written to the chip, with their number before them, in one call; more
  -- than 127 are written past the end of the array of 128 bytes on the stack.
  pub write_rf-fifo_size : write_rf spi sys s (bytes ++ rest) (length bytes) st ≡ (
      if leb (length bytes) 127
      then ok (
        some (length bytes),
        record st { world = spi.fifo_write s (length bytes + 1) (length bytes ∷ bytes) st.world },
      )
      else fault)
  unfolding write_rf fifo_write
  write_rf-fifo_size =
      rw
        (
          store-overwrite (sys.malloc fifo_size) [] 0 (u8 (length bytes)) st refl (omega arith),
          copy_bytes-append (length bytes) bytes rest
              (overwrite (sys.malloc fifo_size) (u8 (length bytes) ∷ [])) 1 st refl,
        )
        (elim (Bool-cases (leb (length bytes) 127)) [
          | inl h ↦ rw h (fits (leb→le _ _ h))
          | inr h ↦
              rw
                (
                  h,
                  copy_bytes-fault bytes (sys.malloc fifo_size) (u8 (length bytes) ∷ []) 1 st refl
                      (omega arith) (ground arith),
                )
                refl
        ])
    where
      fits :
          length bytes ≤ 127
          → then_run
              (copy_bytes
                (overwrite (sys.malloc fifo_size) (u8 (length bytes) ∷ []))
                1
                bytes
                (length bytes)
                st)
              (λ fifo'.
                fifo_write spi s fifo' (length bytes + 1) >>= λ _. pure (some (length bytes)))
            ≡ ok (
              some (length bytes),
              record st {
                world = spi.fifo_write s (length bytes + 1) (length bytes ∷ bytes) st.world;
              },
            )
      fits h =
          let n = length bytes in
          let small : u8 n ≡ n = omega arith in
          let small' : u8 (n + 1) ≡ n + 1 = omega arith in
          let room' : ltb data_size (n + 1) ≡ false = ground arith in
          rw
            (
              copy_bytes-overwrite bytes (sys.malloc fifo_size) (u8 n ∷ []) 1 st refl (omega arith),
              room',
              read_bytes-append (n + 1) (u8 n ∷ bytes) (drop (suc n) (sys.malloc fifo_size)) st
                  (omega arith),
              small,
              small',
            )
            refl

-- A point in time in microseconds.
abbrev pub micros : Timeval → ℕ
micros t = t.tv_sec * 1000000 + t.tv_usec

-- The test for the time limit is exact where both times are given with less than a million
-- microseconds.
pub is_past-micros :
    (now timeout : Timeval)
    → now.tv_usec < 1000000
    → timeout.tv_usec < 1000000
    → is_past now timeout ≡ ltb (micros timeout) (micros now)
unfolding is_past
is_past-micros now timeout a b = ground arith
