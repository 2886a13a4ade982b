-- ===== src/Core/Api.antt =====
-- The calls of src/tta.c on messages: `tta_send`, `tta_receive`, `tta_reply`, `tta_request` and
-- others, over the table of a transport.
use libtta.Base.{ℕ, Bool, true, Option, none, some, List, bit_or, u8}
use libtta.Base.Run.{M, pure, gets, ◌>>=◌}
use libtta.Base.Buffer.{load}
use libtta.Context.{State, Rc, recovers_protocol}
use libtta.Message.{Ttamsg, make}
use libtta.Link.{System, Backend}
use libtta.Core.Engine.{sleep_and_flush, send_pkt}

abbrev pub max_message_length : ℕ
max_message_length = 260

module _ {D W : Type 0} (sys : System W) (rounds : ℕ) (b : Backend D W) where
  unfoldable pub check_confirmation : List ℕ → List ℕ → ℕ → M (State D W) Rc
  check_confirmation req buf rsp_length = b.pre_check_confirmation req buf rsp_length >>= λ rc.
      elim rc [
        | none ↦ gets (λ st. recovers_protocol st.ctx) >>= λ r. elim r [
          | true ↦ sleep_and_flush sys rounds b.link >>= λ _. pure none
          | _ ↦ pure none
        ]
        | some n ↦ pure (some n)
      ]

  unfoldable pub conv_pkt2ttamsg : List ℕ → ℕ → M (State D W) Ttamsg
  conv_pkt2ttamsg pkt pktlen = b.conv_pkt2ttamsg pkt pktlen

  unfoldable pub conv_ttamsg2pkt : Ttamsg → List ℕ → M (State D W) (ℕ × List ℕ)
  conv_ttamsg2pkt ttamsg pkt = b.conv_ttamsg2pkt ttamsg pkt

  unfoldable pub get_header_length : ℕ
  get_header_length = b.header_length

  unfoldable pub connect : M (State D W) Rc
  connect = b.connect

  -- Of a context that is not NULL.
  unfoldable pub close : M (State D W) (Unit {0})
  close = b.close

  -- The array on the stack holds what was there before.
  unfoldable pub send : Ttamsg → M (State D W) Rc
  send ttamsg = do
    (buflen, buf) ← b.conv_ttamsg2pkt ttamsg (sys.malloc max_message_length)
    send_pkt sys rounds b.link buf buflen

  -- On success the code comes with the message.
  unfoldable pub receive : Bool → M (State D W) (Rc × Option Ttamsg)
  receive fgtm = b.receive max_message_length fgtm >>= λ r. elim r.0 [
    | none ↦ pure (none, none)
    | some n ↦ (do ttamsg ← b.conv_pkt2ttamsg r.1 n; pure (some n, some ttamsg))
  ]

  -- `ttamsg_make` takes the data length as a `uint8_t`.
  unfoldable pub reply : Ttamsg → List ℕ → ℕ → M (State D W) Rc
  unfolding send
  reply ttareq bytes datalen = do
    devid ← load ttareq.buf 0
    subid ← load ttareq.buf 1
    cmd ← load ttareq.buf 2
    ttarsp ← make sys.malloc devid subid (bit_or cmd 0x80) bytes (u8 datalen)
    send ttarsp

  unfoldable pub request : Ttamsg → M (State D W) (Rc × Option Ttamsg)
  unfolding check_confirmation
  request ttareq = do
    (reqlen, reqbuf) ← b.conv_ttamsg2pkt ttareq (sys.malloc max_message_length)
    sent ← send_pkt sys rounds b.link reqbuf reqlen
    elim sent [
      | none ↦ pure (none, none)
      | some _ ↦ b.receive max_message_length true >>= λ r. elim r.0 [
        | none ↦ pure (none, none)
        | some rsplen ↦ check_confirmation reqbuf r.1 rsplen >>= λ rc. elim rc [
          | none ↦ pure (none, none)
          | some c ↦ (do ttarsp ← b.conv_pkt2ttamsg r.1 rsplen; pure (some c, some ttarsp))
        ]
      ]
    ]
