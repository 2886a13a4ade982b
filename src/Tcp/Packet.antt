-- ===== src/Tcp/Packet.antt =====
-- The packets of the TCP transport: the transaction number, two zero bytes, and the message.
pub mod Laws
use libtta.Base.{ℕ, ◌+◌, ◌*◌, ◌/◌, ◌%◌, not, ◌||◌, ◌==◌, ltb, if◌then◌else◌, List, drop, some}
use libtta.Base.Run.{M, pure, gets, modify, ◌>>=◌, ◌>>◌}
use libtta.Base.Buffer.{store, load, copy_bytes}
use libtta.Context.{State, Rc, embbaddata, fail_with}
use libtta.Message.{Ttamsg, hd_size}
use libtta.Packet.{unwrap}
use libtta.Tcp.Socket.{Tcp}

abbrev pub preheader_length : ℕ
preheader_length = 4

abbrev pub header_length : ℕ
header_length = 8

abbrev pub checksum_length : ℕ
checksum_length = 0

-- The number is unique on each connection while it does not wrap.
abbrev pub next_tid : ℕ → ℕ
next_tid tid = if ltb tid 65535 then tid + 1 else 0

module _ {W : Type 0} where
  unfoldable pub prepare_response_tid : List ℕ → M (State Tcp W) ℕ
  prepare_response_tid pkt = do hi ← load pkt 0; lo ← load pkt 1; pure (hi * 256 + lo)

  unfoldable pub check_integrity : List ℕ → ℕ → M (State Tcp W) Rc
  check_integrity pkt pktlen = pure (some pktlen)

  unfoldable pub pre_check_confirmation : List ℕ → List ℕ → ℕ → M (State Tcp W) Rc
  pre_check_confirmation req rsp rsp_length = do
    req0 ← load req 0
    rsp0 ← load rsp 0
    req1 ← load req 1
    rsp1 ← load rsp 1
    if not (req0 == rsp0) || not (req1 == rsp1) then fail_with embbaddata else pure (some 0)

  unfoldable pub conv_pkt2ttamsg : List ℕ → ℕ → M (State Tcp W) Ttamsg
  unfolding unwrap
  conv_pkt2ttamsg pkt pktlen = do
    hi ← load pkt 0
    lo ← load pkt 1
    unwrap preheader_length (hi * 256 + lo) pkt

  -- The source ends with `ttamsg_free(ttamsg)`, which Core/Owned has: here a message is a value.
  unfoldable pub conv_ttamsg2pkt : Ttamsg → List ℕ → M (State Tcp W) (ℕ × List ℕ)
  conv_ttamsg2pkt ttamsg pkt = do
    modify (λ st. record st {
      backend_data = record st.backend_data { tid = next_tid st.backend_data.tid };
    })
    tid ← gets (λ st. st.backend_data.tid)
    devid ← load ttamsg.buf 0
    subid ← load ttamsg.buf 1
    cmd ← load ttamsg.buf 2
    datalen ← load ttamsg.buf 3
    pkt0 ← store pkt 0 (tid / 256)
    pkt1 ← store pkt0 1 (tid % 256)
    pkt2 ← store pkt1 2 0
    pkt3 ← store pkt2 3 0
    pkt4 ← store pkt3 4 devid
    pkt5 ← store pkt4 5 subid
    pkt6 ← store pkt5 6 cmd
    pkt7 ← store pkt6 7 datalen
    pkt8 ← copy_bytes pkt7 header_length (drop hd_size ttamsg.buf) datalen
    pure (header_length + datalen + checksum_length, pkt8)
