-- ===== src/Tcp/Win32.antt =====
-- The branches of src/tta_tcp.c for Windows: the start of Winsock, which comes first wherever a
-- socket is made, and a flush that asks `select` before it reads.
pub mod Sound
use libtta.Base.{
  ℕ, zero, suc, ◌+◌, ℤ, pos, minus_one, Option, none, some, List, length, ◌==◌, if◌then◌else◌, u16,
}
use libtta.Base.Run.{M, stuck, pure, get, gets, modify, ◌>>=◌, ◌>>◌}
use libtta.Context.{eio, Timeval, State, Rc, fail_with}
use libtta.Syscall.{Syscall, call, call_read, act, ask}
use libtta.Link.{System, Link}
use libtta.Tcp.Socket.{Sockets, Tcp, max_adu_length, fd, set_fd, close_and_fail, connect_timeout}
use libtta.Tcp.Server
use libtta.Tcp.Device

-- The sockets of Windows have the same calls by name, `closesocket` for `close`. `WSAStartup`
-- returns a number that is not 0 where it fails.
pub record Winsock (W : Type 0) : Type 0 where
  pub wsa_startup : W → ℕ × W
  pub sockets : Sockets W

abbrev pub no_time : Timeval
no_time = record { tv_sec = 0; tv_usec = 0 }

module _ {W : Type 0} (os : Winsock W) where
  unfoldable pub init_win32 : M (State Tcp W) Rc
  init_win32 = ask os.wsa_startup >>= λ code. if code == 0 then pure (some 0) else fail_with eio

  -- Without the option for low delay.
  unfoldable pub set_ipv4_options : ℤ → M (State Tcp W) Rc
  set_ipv4_options s = call (os.sockets.set_nodelay s) >>= λ rc. elim rc [
    | none ↦ pure none
    | some _ ↦ pure (some 0)
  ]

  -- From the new socket on.
  unfoldable pub set_up : ℤ → M (State Tcp W) Rc
  unfolding set_ipv4_options connect_timeout
  set_up s = set_ipv4_options s >>= λ opts. elim opts [
    | none ↦ close_and_fail os.sockets s
    | some _ ↦ (do
      st ← get
      rc ←
          connect_timeout os.sockets s st.backend_data.ip (u16 st.backend_data.port)
            st.ctx.response_timeout
      elim rc [ none ↦ close_and_fail os.sockets s | some _ ↦ pure (some 0) ])
  ]

  unfoldable pub connect : M (State Tcp W) Rc
  unfolding init_win32 set_up
  connect = init_win32 >>= λ started. elim started [
    | none ↦ pure none
    | some _ ↦ call os.sockets.socket >>= λ rc. elim rc [
      | none ↦ set_fd os.sockets minus_one >>= λ _. pure none
      | some n ↦ set_fd os.sockets (pos n) >>= λ _. set_up (pos n)
    ]
  ]

  -- `select` with no time to wait.
  unfoldable pub poll : ℤ → M (State Tcp W) Rc
  poll s = call (λ w. let r = os.sockets.select s (some no_time) w in (r.0, r.1.1))

  -- There is data to flush if one descriptor is ready.
  unfoldable pub garbage : ℤ → ℕ → M (State Tcp W) Rc
  garbage s ready =
      if ready == 1
      then (call_read (os.sockets.recv s max_adu_length) >>= λ r. elim r [
        | none ↦ pure none
        | some bytes ↦ pure (some (length bytes))
      ])
      else pure (some ready)

  -- The loop goes on while a read fills the buffer.
  unfoldable pub flush_loop : ℕ → ℕ → M (State Tcp W) Rc
  unfolding poll garbage
  flush_loop zero rc_sum = λ st. stuck
  flush_loop (suc f) rc_sum = fd os.sockets >>= λ s. poll s >>= λ polled. elim polled [
    | none ↦ pure none
    | some ready ↦ garbage s ready >>= λ rc. elim rc [
      | none ↦ pure (some rc_sum)
      | some n ↦
          let rest = flush_loop f (rc_sum + n) in
          if n == max_adu_length then rest else pure (some (rc_sum + n))
    ]
  ]

  unfoldable pub listen : ℕ → M (State Tcp W) Rc
  unfolding init_win32
  listen nb_connection = init_win32 >>= λ started. elim started [
    | none ↦ pure none
    | some _ ↦ Server.listen os.sockets nb_connection
  ]

  abbrev pub link : System W → ℕ → Link Tcp W
  link sys rounds = record (Device.link os.sockets sys rounds) {
    connect = connect;
    flush = flush_loop rounds 0;
  }
