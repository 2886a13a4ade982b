-- ===== src/Rf/Packet.antt =====
-- The packets of the radio transport: the four bytes of the identity, the message, and the two
-- checksums.
pub mod Laws
use libtta.Base.{ℕ, ◌-◌, Bool, true, false, ◌&&◌, ◌==◌, if◌then◌else◌, List, [], ◌∷◌, some}
use libtta.Base.Run.{M, pure, gets, ◌>>=◌}
use libtta.Base.Buffer.{store, load, read_bytes}
use libtta.Context.{State, Rc, embbadrfid, fail_with}
use libtta.Message.{Ttamsg}
use libtta.Packet.{check_sums, unwrap, append_data}
use libtta.Cc1120.Access.{Spi}
use libtta.Rf.Radio.{Rf, flush}

abbrev pub preheader_length : ℕ
preheader_length = 4

abbrev pub header_length : ℕ
header_length = 8

abbrev pub checksum_length : ℕ
checksum_length = 2

abbrev pub max_adu_length : ℕ
max_adu_length = 256

-- sizeof(ctx_rf->id)
abbrev pub id_length : ℕ
id_length = 4

-- `memcmp` of two blocks of the same length is 0.
abbrev pub same_bytes : List ℕ → List ℕ → Bool
same_bytes [] [] = true
same_bytes [] (y ∷ ys) = false
same_bytes (x ∷ xs) [] = false
same_bytes (x ∷ xs) (y ∷ ys) = x == y && same_bytes xs ys

unfoldable pub prepare_response_tid : ℕ → ℕ × ℕ
prepare_response_tid pktlen = (0, pktlen - checksum_length)

module _ {W : Type 0} (spi : Spi W) where
  unfoldable pub check_integrity : List ℕ → ℕ → M (State Rf W) Rc
  unfolding flush check_sums
  check_integrity = check_sums (flush spi)

module _ {W : Type 0} where
  -- The code that compares device and command stands behind a `return`.
  unfoldable pub pre_check_confirmation : List ℕ → List ℕ → ℕ → M (State Rf W) Rc
  pre_check_confirmation req rsp rsp_length = do
    own ← gets (λ st. st.backend_data.id)
    got ← read_bytes rsp id_length
    id ← read_bytes own id_length
    if same_bytes got id then pure (some 0) else fail_with embbadrfid

  unfoldable pub conv_pkt2ttamsg : List ℕ → ℕ → M (State Rf W) Ttamsg
  unfolding unwrap
  conv_pkt2ttamsg pkt pktlen = unwrap preheader_length 0 pkt

  -- The source ends with `ttamsg_free(ttamsg)`, which Core/Owned has: here a message is a value.
  unfoldable pub conv_ttamsg2pkt : Ttamsg → List ℕ → M (State Rf W) (ℕ × List ℕ)
  unfolding append_data
  conv_ttamsg2pkt ttamsg pkt = do
    id ← gets (λ st. st.backend_data.id)
    id0 ← load id 0
    id1 ← load id 1
    id2 ← load id 2
    id3 ← load id 3
    devid ← load ttamsg.buf 0
    subid ← load ttamsg.buf 1
    cmd ← load ttamsg.buf 2
    datalen ← load ttamsg.buf 3
    pkt0 ← store pkt 0 id0
    pkt1 ← store pkt0 1 id1
    pkt2 ← store pkt1 2 id2
    pkt3 ← store pkt2 3 id3
    pkt4 ← store pkt3 4 devid
    pkt5 ← store pkt4 5 subid
    pkt6 ← store pkt5 6 cmd
    pkt7 ← store pkt6 7 datalen
    append_data header_length checksum_length ttamsg datalen pkt7
