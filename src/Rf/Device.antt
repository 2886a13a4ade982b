-- ===== src/Rf/Device.antt =====
-- The table of the radio transport and its creation (src/tta_rf.c).
pub mod Message
pub mod Overread
pub mod Receive
pub mod Stream
use libtta.Base.{
  ℕ, ℤ, pos, minus_one, Bool, true, false, Option, none, some, List, [], leb, ◌==◌, ◌||◌,
  if◌then◌else◌,
}
use libtta.Base.Run.{M, pure, gets, modify, ◌>>=◌, ◌>>◌}
use libtta.Context.{Errno, einval, Tta, Proto, State, Rc, init_common}
use libtta.Syscall.{call, act, ask}
use libtta.Strlcpy.{strlcpy}
use libtta.Link.{System, Link, Backend}
use libtta.Core.Engine.{receive_pkt}
use libtta.Cc1120.Registers.{sidle, sfrx, srx, sres}
use libtta.Cc1120.Access.{Spi, strobe}
use libtta.Cc1120.Calibration.{manualcalibration}
use libtta.Cc1120.Setup.{writesetting}
use libtta.Rf.Radio.{Rf, fd, read_rf, flush, add_time}
use libtta.Rf.Packet.{
  header_length, checksum_length, max_adu_length, check_integrity, pre_check_confirmation,
  conv_pkt2ttamsg, conv_ttamsg2pkt,
}
use libtta.Rf.Transfer.{send, await_packet}

module _ {W : Type 0} (spi : Spi W) (sys : System W) (rounds : ℕ) where
  abbrev set_fd : ℤ → M (State Rf W) (Unit {0})
  set_fd s = modify (λ st. record st { ctx = record st.ctx { s = s } })

  unfoldable pub connect : M (State Rf W) Rc
  connect = gets (λ st. st.backend_data.device) >>= λ device.
      call (spi.open_device device) >>= λ rc. elim rc [
        | none ↦ set_fd minus_one >>= λ _. pure none
        | some n ↦ (do
          set_fd (pos n)
          strobe spi (pos n) sres
          act (spi.usleep 500000)
          writesetting spi (pos n)
          manualcalibration spi rounds (pos n)
          strobe spi (pos n) sidle
          pure (some 0))
      ]

  -- `close_rf` does nothing.
  unfoldable pub close : M (State Rf W) (Unit {0})
  close = pure tt

  -- `_tta_rf_select` reports input at once.
  unfoldable pub wait_input : M (State Rf W) Rc
  wait_input = pure (some 1)

  unfoldable pub recv : ℕ → M (State Rf W) (Option (List ℕ))
  unfolding read_rf
  recv n = read_rf spi n

  abbrev pub link : Link Rf W
  link = record {
    header_length = header_length;
    checksum_length = checksum_length;
    max_adu_length = max_adu_length;
    connect = connect;
    close = close;
    send = send spi sys rounds;
    recv = recv;
    flush = flush spi;
    select = λ tv n. wait_input;
    check_integrity = check_integrity spi;
  }

  abbrev pub flag : M (State Rf W) Bool
  flag = gets (λ st. st.backend_data.confirmation_to_ignore)

  abbrev pub set_flag : Bool → M (State Rf W) (Unit {0})
  set_flag b =
      modify
        (λ st. record st { backend_data = record st.backend_data { confirmation_to_ignore = b } })

  abbrev pub note_ignored : Rc → M (State Rf W) (Unit {0})
  note_ignored none = pure tt
  note_ignored (some n) = if n == 0 then set_flag true else pure tt

  -- The packet is in `rxfifo`.
  unfoldable pub deliver : ℕ → Bool → M (State Rf W) (Rc × List ℕ)
  deliver cap fgtimeout = flag >>= λ ignore. elim ignore [
    | true ↦ (do
      (rc, pkt) ← receive_pkt sys rounds link cap fgtimeout
      set_flag false
      pure (some 0, pkt))
    | false ↦ (do
      (rc, pkt) ← receive_pkt sys rounds link cap fgtimeout
      note_ignored rc
      pure (rc, pkt))
  ]

  -- The time limit holds whatever `fgtimeout` is.
  unfoldable pub receive : ℕ → Bool → M (State Rf W) (Rc × List ℕ)
  receive cap fgtimeout = do
    s ← fd spi
    start ← ask spi.gettimeofday
    limit ← gets (λ st. st.ctx.response_timeout)
    strobe spi s sidle
    strobe spi s sfrx
    strobe spi s srx
    arrived ← await_packet spi sys rounds rounds s (add_time start limit)
    r ← if arrived then deliver cap fgtimeout else pure (none, [])
    strobe spi s sidle
    strobe spi s sfrx
    pure r

  abbrev pub backend : Backend Rf W
  backend = record {
    link = link;
    receive = receive;
    pre_check_confirmation = pre_check_confirmation;
    conv_pkt2ttamsg = conv_pkt2ttamsg;
    conv_ttamsg2pkt = conv_ttamsg2pkt;
  }

abbrev pub device_size : ℕ
device_size = 16

-- `raw` and `raw_data` are what the fresh blocks hold; channel, power and identity stay so.
unfoldable pub new_rf : Tta → Rf → List ℕ → M Errno (Option (Tta × Rf))
unfolding init_common strlcpy
new_rf raw raw_data device = do
  (ret_size, name) ← strlcpy raw_data.device device device_size
  if ret_size == 0 || leb device_size ret_size
      then (λ _. pure none einval)
      else pure (
          some (
            record (init_common raw) { proto = Proto.rf },
            record raw_data { device = name; confirmation_to_ignore = false },
          ))
