-- ===== src/Rs485/Packet.antt =====
-- The packets of the RS485 transport: `STX`, the message, and the two checksums.
pub mod Laws
use libtta.Base.{ℕ, ◌+◌, ◌-◌, not, ◌||◌, ◌==◌, if◌then◌else◌, List, some, bit_and}
use libtta.Base.Run.{M, pure, ◌>>=◌}
use libtta.Base.Buffer.{store, load}
use libtta.Context.{State, Rc, embbadslave, fail_with}
use libtta.Message.{Ttamsg}
use libtta.Packet.{check_sums, unwrap, append_data}
use libtta.Rs485.Port.{Serial, Rs485, flush}

abbrev pub stx : ℕ
stx = 0xF7

abbrev pub preheader_length : ℕ
preheader_length = 1

abbrev pub header_length : ℕ
header_length = 5

abbrev pub checksum_length : ℕ
checksum_length = 2

abbrev pub max_adu_length : ℕ
max_adu_length = 256

module _ {W : Type 0} (os : Serial W) where
  unfoldable pub check_integrity : List ℕ → ℕ → M (State Rs485 W) Rc
  unfolding flush check_sums
  check_integrity = check_sums (flush os)

-- The length that is left for a response, and the transaction number, which there is none.
unfoldable pub prepare_response_tid : ℕ → ℕ × ℕ
prepare_response_tid pktlen = (0, pktlen - checksum_length)

module _ {W : Type 0} where
  unfoldable pub pre_check_confirmation : List ℕ → List ℕ → ℕ → M (State Rs485 W) Rc
  pre_check_confirmation req rsp rsp_length = do
    req1 ← load req 1
    rsp1 ← load rsp 1
    req3 ← load req 3
    rsp3 ← load rsp 3
    if not (req1 == rsp1) || not (req3 == bit_and rsp3 0x7F)
        then fail_with embbadslave
        else pure (some 0)

  unfoldable pub conv_pkt2ttamsg : List ℕ → ℕ → M (State Rs485 W) Ttamsg
  unfolding unwrap
  conv_pkt2ttamsg pkt pktlen = unwrap preheader_length 0 pkt

  -- The source ends with `ttamsg_free(ttamsg)`, which Core/Owned has: here a message is a value.
  unfoldable pub conv_ttamsg2pkt : Ttamsg → List ℕ → M (State Rs485 W) (ℕ × List ℕ)
  unfolding append_data
  conv_ttamsg2pkt ttamsg pkt = do
    devid ← load ttamsg.buf 0
    subid ← load ttamsg.buf 1
    cmd ← load ttamsg.buf 2
    datalen ← load ttamsg.buf 3
    pkt0 ← store pkt 0 stx
    pkt1 ← store pkt0 1 devid
    pkt2 ← store pkt1 2 subid
    pkt3 ← store pkt2 3 cmd
    pkt4 ← store pkt3 4 datalen
    append_data header_length checksum_length ttamsg datalen pkt4
