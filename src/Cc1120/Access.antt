-- ===== src/Cc1120/Access.antt =====
-- Access to the chip over SPI (src/cc1120.c). The structure that goes to the driver has an address,
-- a length of one byte and 256 bytes of data.
use libtta.Base.{
  ℕ, zero, suc, ℤ, Bool, true, false, ltb, ◌==◌, if◌then◌else◌, List, [], ◌∷◌, u8, bit_and,
}
use libtta.Base.Run.{M, fault, pure, ◌>>=◌}
use libtta.Base.Buffer.{load, read_bytes}
use libtta.Context.{State, Timeval}
use libtta.Syscall.{Syscall, act, ask}
use libtta.Cc1120.Registers.{rssi0}

-- What the driver and the system do. The first argument is the descriptor; the lists that come back
-- are the 256 bytes of the structure.
pub record Spi (W : Type 0) : Type 0 where
  pub open_device : List ℕ → W → Syscall × W
  pub hw_reset : ℤ → W → W
  pub strobe : ℤ → ℕ → W → List ℕ × W
  pub read : ℤ → ℕ → ℕ → W → List ℕ × W
  pub write : ℤ → ℕ → ℕ → List ℕ → W → W
  pub fifo_read : ℤ → ℕ → W → List ℕ × W
  pub fifo_write : ℤ → ℕ → List ℕ → W → W
  pub fifo_dread : ℤ → ℕ → ℕ → W → List ℕ × W
  pub fifo_dwrite : ℤ → ℕ → ℕ → List ℕ → W → W
  pub usleep : ℕ → W → W
  pub gettimeofday : W → Timeval × W

-- sizeof(cc1120.buf)
abbrev pub data_size : ℕ
data_size = 256

module _ {D W : Type 0} (spi : Spi W) where
  -- `for (i=0; i<len; i++) cc1120.buf[i] = buf[i];`
  abbrev pub fill_data : List ℕ → ℕ → M (State D W) (List ℕ)
  fill_data buf len = if ltb data_size len then (λ st. fault) else read_bytes buf len

  unfoldable pub hw_reset : ℤ → M (State D W) (Unit {0})
  hw_reset fd = act (spi.hw_reset fd)

  unfoldable pub strobe : ℤ → ℕ → M (State D W) ℕ
  strobe fd cmd = ask (spi.strobe fd cmd) >>= λ buf. load buf 0

  -- The bytes that are put into the caller's buffer.
  unfoldable pub read : ℤ → ℕ → ℕ → M (State D W) (List ℕ)
  read fd addr len = ask (spi.read fd addr (u8 len)) >>= λ buf. read_bytes buf len

  unfoldable pub write : ℤ → ℕ → List ℕ → ℕ → M (State D W) (Unit {0})
  write fd addr buf wrlen = fill_data buf wrlen >>= λ out. act (spi.write fd addr (u8 wrlen) out)

  unfoldable pub read_single : ℤ → ℕ → M (State D W) ℕ
  unfolding read
  read_single fd addr = read fd addr 1 >>= λ val. load val 0

  unfoldable pub write_single : ℤ → ℕ → ℕ → M (State D W) (Unit {0})
  unfolding write
  write_single fd addr val = write fd addr (val ∷ []) 1

  unfoldable pub fifo_read : ℤ → ℕ → M (State D W) (List ℕ)
  fifo_read fd len = ask (spi.fifo_read fd (u8 len)) >>= λ buf. read_bytes buf len

  unfoldable pub fifo_write : ℤ → List ℕ → ℕ → M (State D W) (Unit {0})
  fifo_write fd buf len = fill_data buf len >>= λ out. act (spi.fifo_write fd (u8 len) out)

  unfoldable pub fifo_dread : ℤ → ℕ → ℕ → M (State D W) (List ℕ)
  fifo_dread fd addr len = ask (spi.fifo_dread fd addr (u8 len)) >>= λ buf. read_bytes buf len

  unfoldable pub fifo_dwrite : ℤ → ℕ → List ℕ → ℕ → M (State D W) (Unit {0})
  fifo_dwrite fd addr buf len =
      fill_data buf len >>= λ out. act (spi.fifo_dwrite fd addr (u8 len) out)

  -- The loop that waits for a valid signal strength, with `left` reads before it gives up:
  -- `true` is that bit 0 of `RSSI0` was set.
  unfoldable pub await_rssi : ℕ → ℤ → M (State D W) Bool
  unfolding read_single
  await_rssi zero fd = act (spi.usleep 1000) >>= λ _. pure false
  await_rssi (suc left) fd = act (spi.usleep 1000) >>= λ _. read_single fd rssi0 >>= λ val.
      elim (bit_and val 0x01 == 0) [ true ↦ await_rssi left fd | false ↦ pure true ]
