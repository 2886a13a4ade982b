-- ===== src/Rs485/Device.antt =====
-- Opening the device, the table of the transport, its creation, and its modes (src/tta_rs485.c).
pub mod Exchange
pub mod Dialog
pub mod Flag
pub mod Keeps
pub mod Message
pub mod Stream
use libtta.Base.{
  ℕ, ℤ, pos, minus_one, Bool, true, false, not, Option, none, some, List, leb, ◌==◌, ◌||◌,
  if◌then◌else◌, int_is, replicate,
}
use libtta.Base.Run.{M, pure, gets, modify, ◌>>=◌, ◌>>◌, Outcome, ok, fault, stuck}
use libtta.Context.{Errno, einval, enotsup, Tta, Proto, State, Rc, fail_with, init_common}
use libtta.Syscall.{call, act, ask}
use libtta.Message.{Ttamsg}
use libtta.Link.{System, Link, Backend}
use libtta.Core.Engine.{receive_pkt}
use libtta.Rs485.Termios.{Termios, Speed, cleared, speed_of, line_settings}
use libtta.Rs485.Port.{
  Serial, Rs485, rts_none, rts_up, rts_down, send, recv, flush, close, wait_input, ioctl_rts,
}
use libtta.Rs485.Packet.{
  header_length, checksum_length, max_adu_length, check_integrity, pre_check_confirmation,
  conv_pkt2ttamsg, conv_ttamsg2pkt,
}

module _ {W : Type 0} (os : Serial W) where
  abbrev pub set_fd : ℤ → M (State Rs485 W) (Unit {0})
  set_fd s = modify (λ st. record st { ctx = record st.ctx { s = s } })

  -- `close(ctx->s); ctx->s = -1; return -1;`
  unfoldable pub give_up : ℤ → M (State Rs485 W) Rc
  give_up s = do act (os.close_fd s); set_fd minus_one; pure none

  -- From the open descriptor on.
  unfoldable pub configure : ℤ → M (State Rs485 W) Rc
  unfolding give_up
  configure s = do
    old ← ask (os.tcgetattr s)
    modify (λ st. record st { backend_data = record st.backend_data { old_tios = old } })
    port ← gets (λ st. st.backend_data)
    let speed = speed_of port.baud
    elim (os.cfsetispeed cleared speed) [
      | none ↦ give_up s
      | some tios1 ↦ elim (os.cfsetospeed tios1 speed) [
        | none ↦ give_up s
        | some tios2 ↦ (do
          set ← call (os.tcsetattr s (line_settings port.data_bit port.stop_bit port.parity tios2))
          elim set [ none ↦ give_up s | some _ ↦ act (os.tiocmbic_rts s) >>= λ _. pure (some 0) ])
      ]
    ]

  unfoldable pub connect : M (State Rs485 W) Rc
  unfolding configure
  connect = do
    port ← gets (λ st. st.backend_data)
    opened ← call (os.open_device port.device)
    elim opened [
      | none ↦ set_fd minus_one >>= λ _. pure none
      | some n ↦ set_fd (pos n) >>= λ _. configure (pos n)
    ]

  module _ (rounds : ℕ) where
    abbrev pub link : Link Rs485 W
    link = record {
      header_length = header_length;
      checksum_length = checksum_length;
      max_adu_length = max_adu_length;
      connect = connect;
      close = close os;
      send = send os;
      recv = recv os;
      flush = flush os;
      select = λ tv n. wait_input os rounds tv;
      check_integrity = check_integrity os;
    }

  module _ (sys : System W) (rounds : ℕ) where
    abbrev pub flag : M (State Rs485 W) Bool
    flag = gets (λ st. st.backend_data.confirmation_to_ignore)

    abbrev pub set_flag : Bool → M (State Rs485 W) (Unit {0})
    set_flag b =
        modify
          (λ st. record st { backend_data = record st.backend_data { confirmation_to_ignore = b } })

    -- The next message after a result of 0 is a confirmation to ignore.
    abbrev pub note_ignored : Rc → M (State Rs485 W) (Unit {0})
    note_ignored none = pure tt
    note_ignored (some n) = if n == 0 then set_flag true else pure tt

    unfoldable pub receive : ℕ → Bool → M (State Rs485 W) (Rc × List ℕ)
    receive cap fgtimeout = flag >>= λ ignore. elim ignore [
      | true ↦ (do
        (rc, pkt) ← receive_pkt sys rounds (link rounds) cap fgtimeout
        set_flag false
        pure (some 0, pkt))
      | false ↦ (do
        (rc, pkt) ← receive_pkt sys rounds (link rounds) cap fgtimeout
        note_ignored rc
        pure (rc, pkt))
    ]

    abbrev pub backend : Backend Rs485 W
    backend = record {
      link = link rounds;
      receive = receive;
      pre_check_confirmation = pre_check_confirmation;
      conv_pkt2ttamsg = conv_pkt2ttamsg;
      conv_ttamsg2pkt = conv_ttamsg2pkt;
    }
