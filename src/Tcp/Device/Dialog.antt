-- ===== src/Tcp/Device/Dialog.antt =====
-- A request over a connection and the server that answers it: `tta_request` on one side,
-- `tta_receive` and `tta_reply` on the other, which count their packets each for itself.
use libtta.Base.{
  Bool, Option, ℕ, suc, ◌+◌, ◌≤◌, ◌<◌, ◌≡◌, subst, ap, ◌∙◌, ◌==◌, some, List, ◌++◌, length, bit_or,
  arith,
}
use libtta.Base.Run.{M, ok, Returns}
use libtta.Context.{State, Rc}
use libtta.Link.{System, Backend}
use libtta.Message.{Ttamsg}
use libtta.Message.Laws.{message}
use libtta.Syscall.{done}
use libtta.Core.Api
use libtta.Core.Api.{max_message_length}
use libtta.Core.Confirm.{Answered}
use libtta.Core.Reply.{reply-send}
use libtta.Core.Sound.{IsCalm}
use libtta.Tcp.Socket.{Sockets, Tcp}
use libtta.Tcp.Packet.{next_tid}
use libtta.Tcp.Packet.Laws.{frame, counted}
use libtta.Tcp.Device.{backend}
use libtta.Tcp.Device.Message.{send-counted}
use libtta.Tcp.Device.Sound.{SocketLaws}
use libtta.Tcp.Device.Stream.{SocketStream, tcp_receive-line, tcp_request-Answered}

-- Two words have the same successor exactly if they are the same.
next_tid-== : (a b : ℕ) → a < 65536 → b < 65536 → (next_tid a == next_tid b) ≡ (a == b)
next_tid-== a b ha hb = ground arith

-- One end of the connection: the calls of its system, what they promise, and enough rounds for its
-- loops.
pub record End (W : Type 0) : Type 0 where
  pub os : Sockets W
  pub sys : System W
  pub stream : SocketStream os
  pub rounds : ℕ
  pub laws : SocketLaws os (suc rounds)
  pub calm : IsCalm sys (suc rounds)
  pub sized : (n : ℕ) → length (sys.malloc n) ≡ n

-- The table of an end, and its calls.
abbrev pub table : {W : Type 0} → End W → Backend Tcp W
table x = backend x.os x.sys (suc x.rounds)

abbrev pub request : {W : Type 0} (x : End W) → Ttamsg → M (State Tcp W) (Rc × Option Ttamsg)
request x = Api.request x.sys (suc x.rounds) (table x)

abbrev pub receive : {W : Type 0} (x : End W) → Bool → M (State Tcp W) (Rc × Option Ttamsg)
receive x = Api.receive x.sys (suc x.rounds) (table x)

abbrev pub reply : {W : Type 0} (x : End W) → Ttamsg → List ℕ → ℕ → M (State Tcp W) Rc
reply x = Api.reply x.sys (suc x.rounds) (table x)

-- The socket takes the frame of a message whole, with the next transaction number of the state.
abbrev pub Takes : {W : Type 0} → End W → State Tcp W → ℕ → ℕ → ℕ → List ℕ → W → Type 0
Takes x st devid subid cmd bytes w =
    x.os.send st.ctx.s (frame (next_tid st.backend_data.tid) devid subid cmd bytes) st.world
    ≡ (done (length bytes + 8), w)

-- A server that receives a request of at most 252 data bytes, and answers it with at most 252 data
-- bytes through a socket that takes frames whole.
serve-frame :
    {W : Type 0} (server : End W) (tid devid subid cmd : ℕ) (asked src rest : List ℕ) (fgtm : Bool)
    (s : State Tcp W) (taken : State Tcp W → W)
    → length asked ≤ 252
    → length src ≤ 252
    → ((t : State Tcp W) → Takes server t devid subid (bit_or cmd 0x80) src (taken t))
    → server.stream.line s.world ≡ frame tid devid subid cmd asked ++ rest
    → (t : State Tcp W) × (server.stream.line t.world ≡ rest)
      × (t.backend_data ≡ s.backend_data)
      × (receive server fgtm s
          ≡ ok ((some (length asked + 8), some (message tid devid subid cmd asked)), t))
      × (reply server (message tid devid subid cmd asked) src (length src) t
          ≡ ok (some (length src + 8), record (counted t) { world = taken t }))
serve-frame server tid devid subid cmd asked src rest fgtm s taken fits fits' takes arrived =
    let (t, q, kept, got) =
      tcp_receive-line server.os server.stream server.sys server.rounds tid devid subid cmd asked
        rest fits fgtm s arrived in
    (
      t,
      q,
      kept,
      got,
      reply-send server.sys (suc server.rounds) (table server) server.sized tid devid subid cmd
            asked src t (omega arith)
          ∙ send-counted server.os server.sys server.rounds (server.sized max_message_length) 0
              devid subid (bit_or cmd 0x80) src t (taken t) fits' (takes t),
    )

-- A client and a server at the two ends, whose systems keep their laws and whose sockets take frames
-- whole: the client has sent `w` when the frame of its request is taken, the server `taken t` when
-- the frame of its answer is. Where the server's connection brings the frame of the request, and the
-- client's connection then brings a frame with the server's data and the server's next number, each
-- in pieces of any size, with at most 252 data bytes each way: the server receives the request with
-- the client's number, its answer is sent whole, and `tta_request` returns 0 and that answer if the
-- two ends have counted to the same number before, and -1 if they have not, although the answer is
-- to this request.
pub tcp_request-reply :
    {V W : Type 0} (client : End V) (server : End W) (own devid subid cmd : ℕ)
    (asked src before behind : List ℕ) (fgtm : Bool) (c : State Tcp V) (s : State Tcp W) (w : V)
    (taken : State Tcp W → W)
    → length asked ≤ 252
    → length src ≤ 252
    → c.backend_data.tid < 65536
    → s.backend_data.tid < 65536
    → Takes client c devid subid cmd asked w
    → server.stream.line s.world
      ≡ frame (next_tid c.backend_data.tid) devid subid cmd asked ++ before
    → ((t : State Tcp W) → Takes server t devid subid (bit_or cmd 0x80) src (taken t))
    → client.stream.line w
      ≡ frame (next_tid s.backend_data.tid) devid subid (bit_or cmd 0x80) src ++ behind
    → (t : State Tcp W) × (u : State Tcp V) × (t.backend_data.tid ≡ s.backend_data.tid)
      × (receive server fgtm s
          ≡ ok (
            (
              some (length asked + 8),
              some (message (next_tid c.backend_data.tid) devid subid cmd asked),
            ),
            t,
          ))
      × (reply server
            (message (next_tid c.backend_data.tid) devid subid cmd asked)
            src
            (length src)
            t
          ≡ ok (some (length src + 8), record (counted t) { world = taken t }))
      × (client.stream.line u.world ≡ behind)
      × Returns (request client (message own devid subid cmd asked) c) (
          Answered
            (c.backend_data.tid == s.backend_data.tid)
            u
            (message (next_tid s.backend_data.tid) devid subid (bit_or cmd 0x80) src))
tcp_request-reply client server own devid subid cmd asked src before behind fgtm c s w taken fits
      fits' word word' sent arrived takes answered =
    let next = next_tid s.backend_data.tid in
    let msg = message own devid subid cmd asked in
    let (t, _, kept, got, replied) =
      serve-frame server (next_tid c.backend_data.tid) devid subid cmd asked src before fgtm s taken
        fits fits' takes arrived in
    let (u, q, run) =
      tcp_request-Answered client.os client.stream client.sys client.rounds next devid subid
        (bit_or cmd 0x80) src behind fits' client.laws client.calm (client.sized max_message_length)
        own devid subid cmd asked c w fits sent answered in
    let run' =
      subst
        (λ same.
          Returns (request client msg c)
            (Answered same u (message next devid subid (bit_or cmd 0x80) src)))
        (next_tid-== c.backend_data.tid s.backend_data.tid word word') run in
    (t, u, ap (λ d. d.tid) kept, got, replied, q, run')
