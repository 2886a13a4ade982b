-- ===== src/Rf/Transfer/Polling.antt =====
-- The loop of `_tta_rf_receive` that polls the chip ends, if what an idle chip has received is a
-- packet with its two bytes of status.
use libtta.Base.{ℕ, ◌≤◌, ◌<◌, ◌≡◌, ℤ, some, get_elem?, length}
use libtta.Cc1120.Registers.{num_rxbytes, marcstate, idle_state}
use libtta.Cc1120.Access.{Spi, fifo_read, data_size}
use libtta.Rf.Radio.{Rf}

-- The buffer of the chip holds 128 bytes. Where the chip reads as idle after the count of bytes, these
-- are none or a packet with two bytes of status behind it; while it receives, the count may be any.
-- The length of a packet is at most 127, and the driver fills its structure.
pub record FifoLaws {W : Type 0} (spi : Spi W) : Type 0 where
  pub count :
      (s : ℤ) (w : W) (n : ℕ)
      → get_elem? (spi.read s num_rxbytes 1 w).0 0 ≡ some n
      → get_elem? (spi.read s marcstate 1 (spi.read s num_rxbytes 1 w).1).0 0 ≡ some idle_state
      → 0 < n
      → (2 ≤ n) × (n ≤ 128)
  pub fifo_fills : (s : ℤ) (n : ℕ) (w : W) → length (spi.fifo_read s n w).0 ≡ data_size
  pub packet_length :
      (s : ℤ) (n len : ℕ) (w : W) → get_elem? (spi.fifo_read s n w).0 0 ≡ some len → len ≤ 127
