-- ===== src/Rs485/Port.antt =====
-- The serial port: the calls of the system, the private data of the transport, and the functions of
-- src/tta_rs485.c that move bytes.
pub mod Laws
use libtta.Base.{
  ℕ, zero, suc, ℤ, Bool, true, false, not, Option, none, some, List, ◌==◌, if◌then◌else◌,
}
use libtta.Base.Run.{M, Outcome, ok, stuck, pure, get, gets, modify, ◌>>=◌, ◌>>◌, when}
use libtta.Base.Buffer.{read_bytes}
use libtta.Context.{Errno, etimedout, eintr, Timeval, State, Rc, fail_with}
use libtta.Syscall.{Syscall, done, failed, Reading, call, call_read, act, ask}
use libtta.Wait.{select_loop}
use libtta.Rs485.Termios.{Termios, Speed}

-- The modem lines as `TIOCMGET` gives them; `rest` stands for the lines other than RTS.
pub record Modem : Type 0 where
  pub rts : Bool
  pub rest : ℕ

-- What the transport takes from the system. The first argument is the descriptor. `select` also
-- gives the timeout that it leaves behind.
pub record Serial (W : Type 0) : Type 0 where
  pub open_device : List ℕ → W → Syscall × W
  pub close_fd : ℤ → W → W
  pub read : ℤ → ℕ → W → Reading × W
  pub write : ℤ → List ℕ → W → Syscall × W
  pub select : ℤ → Option Timeval → W → Syscall × (Option Timeval × W)
  pub tcflush : ℤ → W → Syscall × W
  pub tcgetattr : ℤ → W → Termios × W
  pub tcsetattr : ℤ → Termios → W → Syscall × W
  pub cfsetispeed : Termios → Speed → Option Termios
  pub cfsetospeed : Termios → Speed → Option Termios
  pub tiocmbis_rts : ℤ → W → W
  pub tiocmbic_rts : ℤ → W → W
  pub tiocmget : ℤ → W → Modem × W
  pub tiocmset : ℤ → Modem → W → W
  pub tiocsergetlsr : ℤ → W → ℕ × W
  pub usleep : ℕ → W → W

-- `tta_rs485_t`. `baud` is an int; the modes of `rts` are 0 (none), 1 (up) and 2 (down).
pub record Rs485 : Type 0 where
  pub device : List ℕ
  pub baud : ℤ
  pub data_bit : ℕ
  pub stop_bit : ℕ
  pub parity : ℕ
  pub old_tios : Termios
  pub rts : ℕ
  pub confirmation_to_ignore : Bool

abbrev pub rts_none : ℕ
rts_none = 0

abbrev pub rts_up : ℕ
rts_up = 1

abbrev pub rts_down : ℕ
rts_down = 2

module _ {W : Type 0} (os : Serial W) where
  abbrev pub fd : M (State Rs485 W) ℤ
  fd = gets (λ st. st.ctx.s)

  -- The loop that waits for the transmitter, with `left` rounds before it gives up: `true` is that
  -- the transmitter is empty.
  unfoldable pub wait_tx : ℕ → ℤ → M (State Rs485 W) Bool
  wait_tx zero s = ask (os.tiocsergetlsr s) >>= λ txempty. pure (not (txempty == 0))
  wait_tx (suc left) s = ask (os.tiocsergetlsr s) >>= λ txempty. elim (txempty == 0) [
    | false ↦ pure true
    | true ↦ act (os.usleep 100) >>= λ _. wait_tx left s
  ]

  -- What `write_uart` does with the result of `write`; `cnt` runs to 1001 before the loop gives up.
  unfoldable pub after_write : ℤ → Rc → M (State Rs485 W) Rc
  unfolding wait_tx
  after_write s none = pure (some 0)
  after_write s (some n) = do
    sent ← wait_tx 1001 s
    act (os.tiocmbic_rts s)
    pure (if sent then some n else none)

  unfoldable pub write_uart : ℤ → List ℕ → ℕ → M (State Rs485 W) Rc
  unfolding after_write
  write_uart s buf size = do
    act (os.tiocmbis_rts s)
    out ← read_bytes buf size
    rc ← call (os.write s out)
    after_write s rc

  unfoldable pub ioctl_rts : ℤ → Bool → M (State Rs485 W) (Unit {0})
  ioctl_rts s on = do flags ← ask (os.tiocmget s); act (os.tiocmset s (record flags { rts = on }))

  unfoldable pub send : List ℕ → ℕ → M (State Rs485 W) Rc
  unfolding write_uart ioctl_rts
  send pkt pktlen = do
    s ← fd
    mode ← gets (λ st. st.backend_data.rts)
    if mode == rts_none then write_uart s pkt pktlen else (do
      ioctl_rts s (mode == rts_up)
      act (os.usleep 10000)
      out ← read_bytes pkt pktlen
      size ← call (os.write s out)
      act (os.usleep 10000)
      ioctl_rts s (not (mode == rts_up))
      pure size)

  unfoldable pub recv : ℕ → M (State Rs485 W) (Option (List ℕ))
  recv n = fd >>= λ s. call_read (os.read s n)

  unfoldable pub flush : M (State Rs485 W) Rc
  flush = fd >>= λ s. call (os.tcflush s)

  unfoldable pub close : M (State Rs485 W) (Unit {0})
  close = do
    s ← fd
    old ← gets (λ st. st.backend_data.old_tios)
    call (os.tcsetattr s old)
    act (os.close_fd s)

  unfoldable pub wait_input : ℕ → Option Timeval → M (State Rs485 W) Rc
  unfolding select_loop
  wait_input rounds tv = fd >>= λ s. select_loop os.select rounds s tv
