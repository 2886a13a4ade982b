-- ===== src/Rs485/Win32.antt =====
-- The branches of src/tta_rs485.c for Windows: the serial handle with its receive buffer (`struct
-- win32_ser`), its wait and read, and the functions of the transport over it.
pub mod Settings
pub mod Open
pub mod Receive
pub mod Stream
use libtta.Base.{
  ℕ, ◌+◌, ◌-◌, ◌*◌, ◌/◌, ◌%◌, ◌^◌, ℤ, Bool, true, false, Option, none, some, List, [], length, ltb,
  if◌then◌else◌, replicate,
}
use libtta.Base.Run.{M, pure, gets, modify, ◌>>=◌, ◌>>◌}
use libtta.Base.Buffer.{copy_bytes, read_bytes}
use libtta.Context.{etimedout, Timeval, State, Rc, fail_with}
use libtta.Syscall.{act, ask}
use libtta.Link.{Link}
use libtta.Packet.{check_sums}
use libtta.Rs485.Packet.{header_length, checksum_length, max_adu_length}
use Settings.{Dcb, dcb_settings}

-- `none` is `INVALID_HANDLE_VALUE`.
abbrev pub Handle : Type 0
Handle = Option ℕ

-- The fields of `COMMTIMEOUTS`.
pub record CommTimeouts : Type 0 where
  pub read_interval_timeout : ℕ
  pub read_total_timeout_multiplier : ℕ
  pub read_total_timeout_constant : ℕ
  pub write_total_timeout_multiplier : ℕ
  pub write_total_timeout_constant : ℕ

-- What the branches take from Windows. A read gives the bytes that it has put into the buffer;
-- `none` is a call that has failed.
pub record Windows (W : Type 0) : Type 0 where
  pub create_file : List ℕ → W → Handle × W
  pub close_handle : Handle → W → Bool × W
  pub get_comm_state : Handle → W → Option Dcb × W
  pub set_comm_state : Handle → Dcb → W → Bool × W
  pub set_comm_timeouts : Handle → CommTimeouts → W → W
  pub read_file : Handle → ℕ → W → Option (List ℕ) × W
  pub write_file : Handle → List ℕ → W → Option ℕ × W
  pub flush_file_buffers : Handle → W → Bool × W
  -- `ioctl` with `TIOCMBIC`, which the code calls on Windows too.
  pub tiocmbic_rts : ℤ → W → W

abbrev pub py_buf_size : ℕ
py_buf_size = 512

-- `struct win32_ser`.
pub record Win32Ser : Type 0 where
  pub fd : Handle
  pub buf : List ℕ
  pub n_bytes : ℕ

-- `tta_rs485_t`, as it is built on Windows.
pub record WinRs485 : Type 0 where
  pub device : List ℕ
  pub baud : ℤ
  pub data_bit : ℕ
  pub stop_bit : ℕ
  pub parity : ℕ
  pub w_ser : Win32Ser
  pub old_dcb : Dcb
  pub confirmation_to_ignore : Bool

abbrev maxdword : ℕ
maxdword = 2 ^ 32 - 1

-- Milliseconds, in an `unsigned int`: one at least, and the longest for a wait without end.
abbrev pub msec_of : Option Timeval → ℕ
msec_of none = maxdword
msec_of (some tv) =
    let msec = (tv.tv_sec * 1000 + tv.tv_usec / 1000) % 2 ^ 32 in if ltb msec 1 then 1 else msec

abbrev pub timeouts : ℕ → CommTimeouts
timeouts msec = record {
  read_interval_timeout = msec;
  read_total_timeout_multiplier = 0;
  read_total_timeout_constant = msec;
  write_total_timeout_multiplier = 0;
  write_total_timeout_constant = 1000;
}

unfoldable pub win32_ser_init : Win32Ser
win32_ser_init = record { fd = none; buf = replicate py_buf_size 0; n_bytes = 0 }

module _ {W : Type 0} where
  abbrev pub set_w_ser : Win32Ser → M (State WinRs485 W) (Unit {0})
  set_w_ser ws = modify (λ st. record st { backend_data = record st.backend_data { w_ser = ws } })

  -- What follows `ReadFile`, which sets `n_bytes` to zero where it fails: 1 is input, 0 a timeout.
  unfoldable pub filled : Win32Ser → Option (List ℕ) → M (State WinRs485 W) Rc
  filled ws none = set_w_ser (record ws { n_bytes = 0 }) >>= λ _. pure none
  filled ws (some bytes) = do
    buf ← copy_bytes ws.buf 0 bytes (length bytes)
    set_w_ser (record ws { buf = buf; n_bytes = length bytes })
    pure (some (if ltb 0 (length bytes) then 1 else 0))

  -- The bytes that stay behind stay where they are.
  unfoldable pub win32_ser_read : ℕ → M (State WinRs485 W) (Option (List ℕ))
  win32_ser_read max_len = do
    ws ← gets (λ st. st.backend_data.w_ser)
    let n = if ltb max_len ws.n_bytes then max_len else ws.n_bytes
    msg ← read_bytes ws.buf n
    set_w_ser (record ws { n_bytes = ws.n_bytes - n })
    pure (some msg)

module _ {W : Type 0} (os : Windows W) where
  abbrev pub handle : M (State WinRs485 W) Handle
  handle = gets (λ st. st.backend_data.w_ser.fd)

  unfoldable pub win32_ser_select : ℕ → Option Timeval → M (State WinRs485 W) Rc
  unfolding filled
  win32_ser_select max_len tv = do
    ws ← gets (λ st. st.backend_data.w_ser)
    if ltb 0 ws.n_bytes then pure (some 1) else (do
      act (os.set_comm_timeouts ws.fd (timeouts (msec_of tv)))
      r ← ask (os.read_file ws.fd (if ltb py_buf_size max_len then py_buf_size else max_len))
      filled ws r)

  -- `_tta_rs485_select`.
  unfoldable pub select : Option Timeval → ℕ → M (State WinRs485 W) Rc
  unfolding win32_ser_select
  select tv length_to_read = win32_ser_select length_to_read tv >>= λ rc. elim rc [
    | none ↦ pure none
    | some n ↦ if ltb 0 n then pure (some n) else fail_with etimedout
  ]

  unfoldable pub send : List ℕ → ℕ → M (State WinRs485 W) Rc
  send pkt pktlen = do fd ← handle; out ← read_bytes pkt pktlen; ask (os.write_file fd out)

  unfoldable pub recv : ℕ → M (State WinRs485 W) (Option (List ℕ))
  unfolding win32_ser_read
  recv = win32_ser_read

  -- It returns `FlushFileBuffers(…) == FALSE`.
  unfoldable pub flush : M (State WinRs485 W) Rc
  flush = do
    ws ← gets (λ st. st.backend_data.w_ser)
    set_w_ser (record ws { n_bytes = 0 })
    flushed ← ask (os.flush_file_buffers ws.fd)
    pure (some (if flushed then 0 else 1))

  unfoldable pub close : M (State WinRs485 W) (Unit {0})
  close = do
    port ← gets (λ st. st.backend_data)
    ask (os.set_comm_state port.w_ser.fd port.old_dcb)
    ask (os.close_handle port.w_ser.fd)
    pure tt

  -- `CloseHandle(…); fd = INVALID_HANDLE_VALUE; return -1;`
  unfoldable pub give_up : M (State WinRs485 W) Rc
  give_up = do
    ws ← gets (λ st. st.backend_data.w_ser)
    ask (os.close_handle ws.fd)
    set_w_ser (record ws { fd = none })
    pure none

  -- `ioctl(ctx->s, TIOCMBIC, &rtsctl); return 0;`, with the descriptor of the context.
  unfoldable pub clear_rts : M (State WinRs485 W) Rc
  clear_rts = do s ← gets (λ st. st.ctx.s); act (os.tiocmbic_rts s); pure (some 0)

  -- From the open handle on.
  unfoldable pub configure : M (State WinRs485 W) Rc
  unfolding give_up clear_rts dcb_settings
  configure = do
    fd ← handle
    old ← ask (os.get_comm_state fd)
    elim old [
      | none ↦ give_up
      | some dcb ↦ (do
        modify (λ st. record st { backend_data = record st.backend_data { old_dcb = dcb } })
        port ← gets (λ st. st.backend_data)
        set ← ask (
            os.set_comm_state fd
              (dcb_settings port.baud port.data_bit port.stop_bit port.parity dcb))
        if set then clear_rts else give_up)
    ]

  unfoldable pub connect : M (State WinRs485 W) Rc
  unfolding configure win32_ser_init
  connect = do
    port ← gets (λ st. st.backend_data)
    fd ← ask (os.create_file port.device)
    set_w_ser (record win32_ser_init { fd = fd })
    elim fd [ none ↦ pure none | some h ↦ configure ]

  abbrev pub link : Link WinRs485 W
  link = record {
    header_length = header_length;
    checksum_length = checksum_length;
    max_adu_length = max_adu_length;
    connect = connect;
    close = close;
    send = send;
    recv = recv;
    flush = flush;
    select = select;
    check_integrity = check_sums flush;
  }
