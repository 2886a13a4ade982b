-- ===== src/Rf/Transfer.antt =====
-- Sending over the radio, with listen before talk, and waiting for a packet (src/tta_rf.c).
pub mod Arrival
pub mod Clock
pub mod Polling
use libtta.Base.{
  ℕ, zero, suc, ◌-◌, ℤ, Bool, true, false, not, ltb, ◌==◌, ◌&&◌, if◌then◌else◌, none, List, bit_and,
  drop,
}
use libtta.Base.Run.{M, fault, stuck, pure, gets, modify, ◌>>=◌, ◌>>◌}
use libtta.Base.Buffer.{load, copy_bytes}
use libtta.Context.{Timeval, State, Rc}
use libtta.Syscall.{act, ask}
use libtta.Link.{System}
use libtta.Cc1120.Registers.{sidle, sftx, srx, stx, gpio_status, num_rxbytes, marcstate, idle_state}
use libtta.Cc1120.Access.{Spi, strobe, read_single, fifo_read, await_rssi}
use libtta.Rf.Radio.{Rf, fd, fifo_size, is_past, add_time, write_rf}

module _ {W : Type 0} (spi : Spi W) (sys : System W) (rounds : ℕ) where
  -- The loop that waits for the end of the transmission; `fgstart` is that the line has been seen
  -- up. The result tells whether the end came before the time limit.
  unfoldable pub await_sent : ℕ → ℤ → Bool → Timeval → M (State Rf W) Bool
  unfolding is_past
  await_sent zero s fgstart timeout = λ st. stuck
  await_sent (suc f) s fgstart timeout = do
    status ← read_single spi s gpio_status
    let up = not (bit_and status 0x08 == 0)
    if not up && fgstart then pure true else (do
      now ← ask spi.gettimeofday
      elim (is_past now timeout) [
        | true ↦ pure false
        | false ↦
            act (spi.usleep 1000) >>= λ _. await_sent f s (if up then true else fgstart) timeout
      ])

  -- From the end of listening on: `clear` is that the signal strength became valid.
  unfoldable pub transmit : ℤ → Bool → M (State Rf W) Bool
  unfolding await_sent add_time
  transmit s false = pure false
  transmit s true = do
    strobe spi s stx
    start ← ask spi.gettimeofday
    await_sent rounds s false (add_time start (record { tv_sec = 1; tv_usec = 0 }))

  unfoldable pub send : List ℕ → ℕ → M (State Rf W) Rc
  send pkt pktlen = do
    s ← fd spi
    strobe spi s sidle
    strobe spi s sftx
    rc ← write_rf spi sys s pkt pktlen
    strobe spi s srx
    clear ← await_rssi spi 11 s
    sent ← transmit s clear
    strobe spi s sidle
    strobe spi s sftx
    pure (if sent then rc else none)

  -- The bytes that the chip gave are in `fifo`: the packet is kept if its checksum flag is set. The
  -- message on the console reads the last byte but one.
  unfoldable pub keep_packet : ℕ → List ℕ → M (State Rf W) Bool
  keep_packet numrx fifo = do
    (if ltb numrx 2 then (λ st. fault) else load fifo (numrx - 2))
    lqi ← load fifo (numrx - 1)
    if bit_and lqi 0x80 == 0 then pure false else (do
      len ← load fifo 0
      old ← gets (λ st. st.backend_data.rxfifo)
      rxfifo ← copy_bytes old 0 (drop 1 fifo) len
      modify (λ st. record st {
        backend_data = record st.backend_data { rxfifo = rxfifo; rxfifo_pos = 0 };
      })
      pure true)

  -- The chip has `numrx` bytes and is idle: they are read into `fifo`, an array on the stack.
  unfoldable pub take_packet : ℤ → ℕ → M (State Rf W) Bool
  take_packet s numrx = do
    bytes ← fifo_read spi s numrx
    fifo ← copy_bytes (sys.malloc fifo_size) 0 bytes numrx
    keep_packet numrx fifo

  -- The loop that polls the chip: `true` is that a packet is in `rxfifo`.
  unfoldable pub await_packet : ℕ → ℤ → Timeval → M (State Rf W) Bool
  unfolding take_packet is_past
  await_packet zero s timeout = λ st. stuck
  await_packet (suc f) s timeout = do
    numrx ← read_single spi s num_rxbytes
    state ← read_single spi s marcstate
    if ltb 0 numrx && state == idle_state then take_packet s numrx else (do
      now ← ask spi.gettimeofday
      elim (is_past now timeout) [
        | true ↦ pure false
        | false ↦ act (spi.usleep 100000) >>= λ _. await_packet f s timeout
      ])
