-- ===== src/Tcp/Socket.antt =====
-- Sockets: the calls of the system, the private data of the transport, and the functions of
-- src/tta_tcp.c that connect and move bytes.
use libtta.Base.{
  ℕ, zero, suc, ◌+◌, ℤ, pos, minus_one, Bool, true, false, Option, none, some, List, ◌==◌, ◌&&◌,
  if◌then◌else◌, u16, length,
}
use libtta.Base.Run.{M, stuck, pure, get, gets, modify, ◌>>=◌, ◌>>◌}
use libtta.Base.Buffer.{read_bytes}
use libtta.Context.{Errno, einprogress, econnrefused, Timeval, State, Rc, fail_with}
use libtta.Syscall.{Syscall, Reading, call, call_read, act, ask}
use libtta.Wait.{select_loop}

-- What the transport takes from the system. An address is the text `ip` and a port in host order.
-- Both kinds of `select` give the timeout that they leave behind.
pub record Sockets (W : Type 0) : Type 0 where
  pub socket : W → Syscall × W
  pub set_nodelay : ℤ → W → Syscall × W
  pub set_lowdelay : ℤ → W → Syscall × W
  pub set_reuseaddr : ℤ → W → Syscall × W
  pub connect : ℤ → List ℕ → ℕ → W → Syscall × W
  pub select_write : ℤ → Timeval → W → (Syscall × Timeval) × W
  pub get_so_error : ℤ → W → (Syscall × ℕ) × W
  pub bind : ℤ → ℕ → W → Syscall × W
  pub listen : ℤ → ℕ → W → Syscall × W
  pub accept4 : ℤ → W → Syscall × W
  pub shutdown : ℤ → W → W
  pub close_fd : ℤ → W → W
  pub send : ℤ → List ℕ → W → Syscall × W
  pub recv : ℤ → ℕ → W → Reading × W
  pub recv_dontwait : ℤ → ℕ → W → Reading × W
  pub select : ℤ → Option Timeval → W → Syscall × (Option Timeval × W)

-- `tta_tcp_t`.
pub record Tcp : Type 0 where
  pub tid : ℕ
  pub port : ℕ
  pub ip : List ℕ

abbrev pub max_adu_length : ℕ
max_adu_length = 260

module _ {W : Type 0} (os : Sockets W) where
  abbrev pub fd : M (State Tcp W) ℤ
  fd = gets (λ st. st.ctx.s)

  abbrev pub set_fd : ℤ → M (State Tcp W) (Unit {0})
  set_fd s = modify (λ st. record st { ctx = record st.ctx { s = s } })

  -- `close(s); return -1;`
  abbrev pub close_and_fail : ℤ → M (State Tcp W) Rc
  close_and_fail s = act (os.close_fd s) >>= λ _. pure none

  unfoldable pub set_ipv4_options : ℤ → M (State Tcp W) Rc
  set_ipv4_options s = call (os.set_nodelay s) >>= λ rc. elim rc [
    | none ↦ pure none
    | some _ ↦
        call (os.set_lowdelay s) >>= λ rc'. elim rc' [ none ↦ pure none | some _ ↦ pure (some 0) ]
  ]

  -- A connection in progress has been waited for: the number of ready descriptors, or -1.
  unfoldable pub finish_connect : ℤ → Rc → M (State Tcp W) Rc
  finish_connect s none = pure none
  finish_connect s (some zero) = pure none
  finish_connect s (some (suc n)) = do
    (r, optval) ← ask (os.get_so_error s)
    rc ← call (λ w. (r, w))
    elim rc [
      | none ↦ fail_with econnrefused
      | some k ↦ if k == 0 && optval == 0 then pure (some 0) else fail_with econnrefused
    ]

  abbrev pub is_einprogress : Errno → Bool
  is_einprogress einprogress = true
  is_einprogress _ = false

  abbrev pub set_timeout_left : Timeval → M (State Tcp W) (Unit {0})
  set_timeout_left tv = modify (λ st. record st { ctx = record st.ctx { response_timeout = tv } })

  -- `_connect`, whose timeout is `&ctx->response_timeout`: `select` leaves there what is left of it.
  unfoldable pub connect_timeout : ℤ → List ℕ → ℕ → Timeval → M (State Tcp W) Rc
  unfolding finish_connect
  connect_timeout s ip port tv = call (os.connect s ip port) >>= λ rc. elim rc [
    | some n ↦ pure (some n)
    | none ↦ (do
      e ← gets (λ st. st.errno)
      if is_einprogress e
          then (do
            (r, left) ← ask (os.select_write s tv)
            set_timeout_left left
            rc' ← call (λ w. (r, w))
            finish_connect s rc')
          else pure none)
  ]

  -- From the new socket on.
  unfoldable pub set_up : ℤ → M (State Tcp W) Rc
  unfolding set_ipv4_options connect_timeout
  set_up s = set_ipv4_options s >>= λ opts. elim opts [
    | none ↦ close_and_fail s
    | some _ ↦ (do
      st ← get
      rc ← connect_timeout s st.backend_data.ip (u16 st.backend_data.port) st.ctx.response_timeout
      elim rc [ none ↦ close_and_fail s | some _ ↦ pure (some 0) ])
  ]

  unfoldable pub connect : M (State Tcp W) Rc
  unfolding set_up
  connect = call os.socket >>= λ rc. elim rc [
    | none ↦ set_fd minus_one >>= λ _. pure none
    | some n ↦ set_fd (pos n) >>= λ _. set_up (pos n)
  ]

  unfoldable pub close : M (State Tcp W) (Unit {0})
  close = do s ← fd; act (os.shutdown s); act (os.close_fd s)

  unfoldable pub send : List ℕ → ℕ → M (State Tcp W) Rc
  send pkt pktlen = do s ← fd; out ← read_bytes pkt pktlen; call (os.send s out)

  unfoldable pub recv : ℕ → M (State Tcp W) (Option (List ℕ))
  recv n = fd >>= λ s. call_read (os.recv s n)

  -- The loop goes on while a read fills the buffer.
  unfoldable pub flush_loop : ℕ → ℕ → M (State Tcp W) Rc
  flush_loop zero rc_sum = λ st. stuck
  flush_loop (suc f) rc_sum = fd >>= λ s. call_read (os.recv_dontwait s max_adu_length) >>= λ r.
      elim r [
        | none ↦ pure (some rc_sum)
        | some bytes ↦
            let rest = flush_loop f (rc_sum + length bytes) in
            if length bytes == max_adu_length then rest else pure (some (rc_sum + length bytes))
      ]

  unfoldable pub wait_input : ℕ → Option Timeval → M (State Tcp W) Rc
  unfolding select_loop
  wait_input rounds tv = fd >>= λ s. select_loop os.select rounds s tv
