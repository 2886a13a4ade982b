-- ===== src/Tests/Fixture.antt =====
-- A system, a serial line and a radio chip that answer at once. The world is the stream of bytes
-- that the other end has sent.
use libtta.Base.{
  ℕ, ◌≤◌, ◌≡◌, ◌≢◌, refl, ℤ, pos, false, some, List, [], ◌∷◌, ◌++◌, length, take, drop, replicate,
  length-take, ap, arith,
}
use libtta.Context.{eintr, etimedout, Timeval, Proto, Tta, State}
use libtta.Syscall.{Syscall, Reading, done, bytes}
use libtta.Link.{System, slept, interrupted}
use libtta.Wait.Laws.{IsQuiet}
use libtta.Core.Sound.{IsCalm}
use libtta.Rs485.Termios.{cleared}
use libtta.Rs485.Port.{Serial, Rs485}
use libtta.Rs485.Device.Flag.{SerialLaws}
use libtta.Cc1120.Access.{Spi}
use libtta.Cc1120.Laws.{SpiLaws}
use libtta.Rf.Radio.{Rf}

abbrev pub calm_system : System (List ℕ)
calm_system = record { nanosleep = λ sec nsec w. (slept, w); malloc = λ n. replicate n 0 }

pub calm_system-IsCalm : IsCalm calm_system 1
calm_system-IsCalm = record {
  signals = λ w. 0;
  signals-lt = λ w. omega arith;
  signals_fall = λ sec nsec a b w w' e. absurd (never a b (ap (λ p. p.0) e));
}
  where
    never : (a b : ℕ) → slept ≢ interrupted a b
    never a b e = cc

abbrev pub line : Serial (List ℕ)
line = record {
  open_device = λ path w. (done 3, w);
  close_fd = λ s w. w;
  read = λ s n w. (bytes (take n w), drop n w);
  write = λ s out w. (done (length out), w);
  select = λ s tv w. (done 1, (tv, w));
  tcflush = λ s w. (done 0, w);
  tcgetattr = λ s w. (cleared, w);
  tcsetattr = λ s t w. (done 0, w);
  cfsetispeed = λ t b. some (record t { ispeed = b });
  cfsetospeed = λ t b. some (record t { ospeed = b });
  tiocmbis_rts = λ s w. w;
  tiocmbic_rts = λ s w. w;
  tiocmget = λ s w. (record { rts = false; rest = 0 }, w);
  tiocmset = λ s m w. w;
  tiocsergetlsr = λ s w. (1, w);
  usleep = λ n w. w;
}

pub line-IsQuiet : IsQuiet line.select 1
line-IsQuiet = record {
  signals = λ w. 0;
  signals-lt = λ w. omega arith;
  signals_fall = λ s tv tv' w w' e. absurd (never (ap (λ p. p.0) e));
}
  where
    never : done 1 ≢ Syscall.failed eintr
    never e = cc

pub line-SerialLaws : SerialLaws line 1
line-SerialLaws = record { quiet = line-IsQuiet; read_fits = fits }
  where
    content : Reading → List ℕ
    content (bytes bs) = bs
    content (Reading.failed e) = []

    fits : (s : ℤ) (n : ℕ) (bs w w' : List ℕ) → line.read s n w ≡ (bytes bs, w') → length bs ≤ n
    fits s n bs w w' e = omega (arith, length-take n w, ap (λ p. length (content p.0)) e)

abbrev pub chip : Spi (List ℕ)
chip = record {
  open_device = λ path w. (done 3, w);
  hw_reset = λ fd w. w;
  strobe = λ fd cmd w. (0 ∷ [], w);
  read = λ fd addr n w. (0x41 ∷ [], w);
  write = λ fd addr n buf w. w;
  fifo_read = λ fd n w. (take n w, drop n w);
  fifo_write = λ fd n buf w. w ++ buf;
  fifo_dread = λ fd addr n w. (take n w, w);
  fifo_dwrite = λ fd addr n buf w. w;
  usleep = λ n w. w;
  gettimeofday = λ w. (record { tv_sec = 0; tv_usec = 0 }, w);
}

pub chip-SpiLaws : SpiLaws chip 1
chip-SpiLaws = record {
  strobe_fills = λ fd cmd w. omega arith;
  read_fills = λ fd addr n w. omega arith;
  busy = λ w. 0;
  busy-lt = λ w. omega arith;
  busy_falls = λ fd w ne. absurd (ne refl);
}

-- `init_common`, without recovery.
abbrev pub half_second : Timeval
half_second = record { tv_sec = 0; tv_usec = 500000 }

abbrev pub context : Tta
context = record {
  slave = pos 1;
  proto = Proto.rs485;
  s = pos 3;
  debug = false;
  error_recovery = 0;
  response_timeout = half_second;
  byte_timeout = half_second;
}

abbrev pub with_data : {D : Type 0} → D → List ℕ → State D (List ℕ)
with_data d w = record { ctx = context; backend_data = d; errno = etimedout; world = w }

abbrev pub port : Rs485
port = record {
  device = 47 ∷ [];
  baud = pos 9600;
  data_bit = 8;
  stop_bit = 1;
  parity = 78;
  old_tios = cleared;
  rts = 1;
  confirmation_to_ignore = false;
}

abbrev pub radio : Rf
radio = record {
  device = 47 ∷ [];
  ch = pos 3;
  power = pos 4;
  id = 1 ∷ 2 ∷ 3 ∷ 4 ∷ [];
  confirmation_to_ignore = false;
  rxfifo = replicate 128 0;
  rxfifo_pos = 0;
}
