-- ===== src/Tcp/Device.antt =====
-- The table of the TCP transport, its creation and its address (src/tta_tcp.c).
pub mod Dialog
pub mod Keeps
pub mod Message
pub mod Sound
pub mod Stream
use libtta.Base.{ℕ, Bool, Option, none, some, List, leb, ◌==◌, ◌||◌, if◌then◌else◌}
use libtta.Base.Run.{M, pure, gets, modify, ◌>>=◌, ◌>>◌}
use libtta.Context.{Errno, einval, Tta, Proto, State, Rc, fail_with, init_common}
use libtta.Strlcpy.{strlcpy}
use libtta.Link.{System, Link, Backend}
use libtta.Core.Engine.{receive_pkt}
use libtta.Tcp.Socket.{
  Sockets, Tcp, max_adu_length, connect, close, send, recv, flush_loop, wait_input,
}
use libtta.Tcp.Packet.{
  header_length, checksum_length, check_integrity, pre_check_confirmation, conv_pkt2ttamsg,
  conv_ttamsg2pkt,
}

module _ {W : Type 0} (os : Sockets W) (sys : System W) (rounds : ℕ) where
  abbrev pub link : Link Tcp W
  link = record {
    header_length = header_length;
    checksum_length = checksum_length;
    max_adu_length = max_adu_length;
    connect = connect os;
    close = close os;
    send = send os;
    recv = recv os;
    flush = flush_loop os rounds 0;
    select = λ tv n. wait_input os rounds tv;
    check_integrity = check_integrity;
  }

  unfoldable pub receive : ℕ → Bool → M (State Tcp W) (Rc × List ℕ)
  receive cap fgtimeout = receive_pkt sys rounds link cap fgtimeout

  abbrev pub backend : Backend Tcp W
  backend = record {
    link = link;
    receive = receive;
    pre_check_confirmation = pre_check_confirmation;
    conv_pkt2ttamsg = conv_pkt2ttamsg;
    conv_ttamsg2pkt = conv_ttamsg2pkt;
  }

-- sizeof(char) * 16
abbrev pub ip_size : ℕ
ip_size = 16

-- `errno` is the state of the constructor. `raw` and `raw_data` are what the fresh blocks hold; the
-- protocol is `TTA_PROTO_RS485`, as the code has it. `none` for `ip` is NULL.
unfoldable pub new_tcp : Tta → Tcp → Option (List ℕ) → ℕ → M Errno (Option (Tta × Tcp))
unfolding init_common strlcpy
new_tcp raw raw_data none port =
    pure (some (record (init_common raw) { proto = Proto.rs485 }, record raw_data { tid = 0 }))
new_tcp raw raw_data (some ip) port = do
  (ret_size, text) ← strlcpy raw_data.ip ip ip_size
  if ret_size == 0 || leb ip_size ret_size
      then (λ _. pure none einval)
      else pure (
          some (
            record (init_common raw) { proto = Proto.rs485 },
            record raw_data { ip = text; port = port; tid = 0 },
          ))

-- The text is copied before its length is looked at.
unfoldable pub set_ip : {W : Type 0} → List ℕ → ℕ → M (State Tcp W) Rc
unfolding strlcpy
set_ip ip port = do
  old ← gets (λ st. st.backend_data.ip)
  (ret_size, text) ← strlcpy old ip ip_size
  modify (λ st. record st { backend_data = record st.backend_data { ip = text } })
  if ret_size == 0 || leb ip_size ret_size then fail_with einval else (do
    modify (λ st. record st { backend_data = record st.backend_data { port = port } })
    pure (some 0))
