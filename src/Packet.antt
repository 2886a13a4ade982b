-- ===== src/Packet.antt =====
-- What the packets of the serial and the radio transport have in common: the check of the two
-- checksums, which src/tta_rs485.c and src/tta_rf.c write out twice, and the message that is cut out
-- of a packet behind its preheader.
pub mod Frame
pub mod Check
pub mod Wrap
use libtta.Base.{ℕ, ◌+◌, ◌-◌, ◌&&◌, ◌==◌, ltb, if◌then◌else◌, List, drop, some}
use libtta.Base.Run.{M, fault, pure, gets, when, ◌>>=◌, ◌>>◌}
use libtta.Base.Buffer.{store, load, copy_bytes, read_bytes}
use libtta.Context.{State, Rc, embbadcrc, fail_with, recovers_protocol}
use libtta.Message.{Ttamsg, hd_size}
use libtta.Checksum.{sum_xor, sum_add}

module _ {D W : Type 0} where
  -- What follows a wrong sum; `flush` is the transport's own.
  unfoldable pub reject : M (State D W) Rc → M (State D W) Rc
  reject flush = do
    protocol ← gets (λ st. recovers_protocol st.ctx)
    when protocol (flush >>= λ _. pure tt)
    fail_with embbadcrc

  -- A length below two would make the loops of the sums run on from a negative count.
  unfoldable pub check_sums : M (State D W) Rc → List ℕ → ℕ → M (State D W) Rc
  unfolding reject
  check_sums flush pkt pktlen = if ltb pktlen 2 then (λ st. fault) else (do
    xor_calculated ← sum_xor pkt (pktlen - 2)
    add_calculated ← sum_add pkt (pktlen - 1)
    xor_received ← load pkt (pktlen - 2)
    add_received ← load pkt (pktlen - 1)
    if xor_calculated == xor_received && add_calculated == add_received
        then pure (some pktlen)
        else reject flush)

  -- The message behind `preheader` bytes: its four header bytes and its data.
  unfoldable pub unwrap : ℕ → ℕ → List ℕ → M (State D W) Ttamsg
  unwrap preheader tid pkt = do
    datalen ← load pkt (preheader + 3)
    buf ← read_bytes (drop preheader pkt) (hd_size + datalen)
    pure (record { tid = tid; len = hd_size + datalen; buf = buf })

  -- The data and the two sums, behind a header of `hdlen` bytes; the length of the packet.
  unfoldable pub append_data : ℕ → ℕ → Ttamsg → ℕ → List ℕ → M (State D W) (ℕ × List ℕ)
  append_data hdlen checksum_length ttamsg datalen pkt = do
    pkt1 ← copy_bytes pkt hdlen (drop hd_size ttamsg.buf) datalen
    xor ← sum_xor pkt1 (hdlen + datalen)
    pkt2 ← store pkt1 (hdlen + datalen) xor
    add ← sum_add pkt2 (hdlen + datalen + 1)
    pkt3 ← store pkt2 (hdlen + datalen + 1) add
    pure (hdlen + datalen + checksum_length, pkt3)
