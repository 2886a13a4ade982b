-- ===== src/Rs485/Device/Dialog.antt =====
-- A request over the serial line and the server that answers it: `tta_request` on one side,
-- `tta_receive` and `tta_reply` on the other.
use libtta.Base.{
  Bool, Option, ℕ, suc, ◌+◌, ◌≤◌, ◌<◌, ◌≡◌, refl, subst, ap, ◌∙◌, true, false, ◌==◌, ==_iff,
  ==_self, some, List, ◌++◌, length, bit_and, bit_or, all_below, all_below_lem, arith,
}
use libtta.Base.Run.{M, Outcome, ok, Returns, Returns-ok}
use libtta.Context.{State, Rc}
use libtta.Context.Keeps.{Left}
use libtta.Link.{System, Backend}
use libtta.Message.{Ttamsg}
use libtta.Message.Laws.{message}
use libtta.Core.Api
use libtta.Core.Api.{max_message_length}
use libtta.Core.Confirm.{Answered}
use libtta.Core.Reply.{reply-send}
use libtta.Core.Session.Laws.{receive-Keeps}
use libtta.Core.Sound.{IsCalm}
use libtta.Rs485.Port.{Serial, Rs485, rts_none}
use libtta.Rs485.Packet.Laws.{frame}
use libtta.Rs485.Device.{backend}
use libtta.Rs485.Device.Exchange.{is_answer, request-is_answer}
use libtta.Rs485.Device.Flag.{SerialLaws}
use libtta.Rs485.Device.Keeps.{backend-Keeps}
use libtta.Rs485.Device.Message.{Takes, after_frame, send-frame}
use libtta.Rs485.Device.Stream.{SerialStream, receive-line}

-- A command with bit 7 set is the command of the answer.
answer_table : all_below 128 (λ c. bit_and (bit_or c 0x80) 0x7F == c) ≡ true
unfolding all_below
answer_table = refl

is_answer-bit_or : (devid cmd : ℕ) → cmd < 128 → is_answer devid cmd devid (bit_or cmd 0x80) ≡ true
is_answer-bit_or devid cmd h =
    let e : bit_and (bit_or cmd 0x80) 0x7F ≡ cmd =
      (==_iff _ cmd).0 (all_below_lem 128 _ cmd answer_table h) in
    rw (e, ==_self devid, ==_self cmd) refl

Answered-ok :
    {D W : Type 0} (o : Outcome ((Rc × Option Ttamsg) × State D W)) (st : State D W) (msg : Ttamsg)
    → Returns o (Answered true st msg)
    → o ≡ ok ((some 0, some msg), st)
Answered-ok o st msg h = let (r, t, e, p) = Returns-ok (Answered true st msg) o h in cc

-- The mode of RTS, and no confirmation to ignore.
abbrev Ready : ℕ → Rs485 → Type 0
Ready mode d = (d.rts ≡ mode) × (d.confirmation_to_ignore ≡ false)

module _ {W : Type 0} (os : Serial W) (stream : SerialStream os) (sys : System W) (rounds : ℕ)
    (laws : SerialLaws os (suc rounds)) (calm : IsCalm sys (suc rounds))
    (sized : (n : ℕ) → length (sys.malloc n) ≡ n) where
  received-Ready :
      (fgtm : Bool) (st t : State Rs485 W) (r : Rc × Option Ttamsg)
      → st.backend_data.confirmation_to_ignore ≡ false
      → Api.receive sys (suc rounds) (backend os sys (suc rounds)) fgtm st ≡ ok (r, t)
      → Ready st.backend_data.rts t.backend_data
  received-Ready fgtm st t r clear run =
      let P : Rs485 → Type 0 = Ready st.backend_data.rts in
      subst (Left P) run (
        (receive-Keeps P sys (suc rounds) (backend os sys (suc rounds))
            (backend-Keeps os P (λ d old h. h) (λ d h. h.1) sys (suc rounds) calm laws) fgtm).at
          st (refl, clear))

  -- A server that receives a request of at most 249 data bytes, and answers it with at most 249
  -- data bytes through a driver that takes frames whole.
  pub serve-frame :
      (devid subid cmd : ℕ) (asked src rest : List ℕ) (taken : State Rs485 W → W) (fgtm : Bool)
      (st : State Rs485 W)
      → length asked ≤ 249
      → length src ≤ 249
      → (st.backend_data.rts == rts_none) ≡ false
      → st.backend_data.confirmation_to_ignore ≡ false
      → ((t : State Rs485 W)
          → Takes os t (frame devid subid (bit_or cmd 0x80) src) (length src + 7) (taken t))
      → stream.line st.world ≡ frame devid subid cmd asked ++ rest
      → (t : State Rs485 W) × (stream.line t.world ≡ rest)
        × (Api.receive sys (suc rounds) (backend os sys (suc rounds)) fgtm st
            ≡ ok ((some (length asked + 7), some (message 0 devid subid cmd asked)), t))
        × (Api.reply sys
              (suc rounds)
              (backend os sys (suc rounds))
              (message 0 devid subid cmd asked)
              src
              (length src)
              t
            ≡ ok (some (length src + 7), after_frame os t (taken t)))
  serve-frame devid subid cmd asked src rest taken fgtm st fits fits' by_hand clear takes e =
      let (t, q, run) =
        receive-line os stream sys rounds devid subid cmd asked rest fits fgtm st clear e in
      let ready = received-Ready fgtm st t _ clear run in
      (
        t,
        q,
        run,
        reply-send sys (suc rounds) (backend os sys (suc rounds)) sized 0 devid subid cmd asked src
              t (omega arith)
            ∙ send-frame os sys rounds (sized max_message_length) 0 devid subid (bit_or cmd 0x80)
                src t (taken t) (omega arith) (ap (λ n. n == rts_none) ready.0 ∙ by_hand) (takes t),
      )

-- One end of the line: the calls of its system, what they promise, and enough rounds for its loops.
pub record End (W : Type 0) : Type 0 where
  pub os : Serial W
  pub sys : System W
  pub stream : SerialStream os
  pub rounds : ℕ
  pub laws : SerialLaws os (suc rounds)
  pub calm : IsCalm sys (suc rounds)
  pub sized : (n : ℕ) → length (sys.malloc n) ≡ n

-- The table of an end, and its calls.
abbrev pub table : {W : Type 0} → End W → Backend Rs485 W
table x = backend x.os x.sys (suc x.rounds)

abbrev pub request : {W : Type 0} (x : End W) → Ttamsg → M (State Rs485 W) (Rc × Option Ttamsg)
request x = Api.request x.sys (suc x.rounds) (table x)

abbrev pub receive : {W : Type 0} (x : End W) → Bool → M (State Rs485 W) (Rc × Option Ttamsg)
receive x = Api.receive x.sys (suc x.rounds) (table x)

abbrev pub reply : {W : Type 0} (x : End W) → Ttamsg → List ℕ → ℕ → M (State Rs485 W) Rc
reply x = Api.reply x.sys (suc x.rounds) (table x)

-- A client and a server at the two ends, in a mode with RTS by hand and with no confirmation to
-- ignore, whose systems keep their laws and whose drivers take frames whole: the client has written
-- `w` when the frame of its request is taken, the server `taken t` when the frame of its answer is.
-- Where the server's line brings the frame of the request, and the client's line then brings the
-- frame of the answer, each in pieces of any size, with a command below 128 and at most 249 data
-- bytes each way: the server receives the request, its answer is sent whole, and `tta_request`
-- returns 0 and the message with the device and sub-device that were asked, the command with bit 7
-- set, and the data of the server, and leaves what is behind it on the line.
pub request-reply :
    {V W : Type 0} (client : End V) (server : End W) (tid devid subid cmd : ℕ)
    (asked src before behind : List ℕ) (fgtm : Bool) (c : State Rs485 V) (s : State Rs485 W) (w : V)
    (taken : State Rs485 W → W)
    → cmd < 128
    → length asked ≤ 249
    → length src ≤ 249
    → (c.backend_data.rts == rts_none) ≡ false
    → (s.backend_data.rts == rts_none) ≡ false
    → c.backend_data.confirmation_to_ignore ≡ false
    → s.backend_data.confirmation_to_ignore ≡ false
    → Takes client.os c (frame devid subid cmd asked) (length asked + 7) w
    → server.stream.line s.world ≡ frame devid subid cmd asked ++ before
    → ((t : State Rs485 W)
        → Takes server.os t (frame devid subid (bit_or cmd 0x80) src) (length src + 7) (taken t))
    → client.stream.line (after_frame client.os c w).world
      ≡ frame devid subid (bit_or cmd 0x80) src ++ behind
    → (t : State Rs485 W) × (u : State Rs485 V) × (receive server fgtm s
        ≡ ok ((some (length asked + 7), some (message 0 devid subid cmd asked)), t))
      × (reply server (message 0 devid subid cmd asked) src (length src) t
          ≡ ok (some (length src + 7), after_frame server.os t (taken t)))
      × (request client (message tid devid subid cmd asked) c
          ≡ ok ((some 0, some (message 0 devid subid (bit_or cmd 0x80) src)), u))
      × (client.stream.line u.world ≡ behind)
request-reply client server tid devid subid cmd asked src before behind fgtm c s w taken small fits
      fits' up up' clear clear' sent arrived takes answered =
    let (t, _, got, replied) =
      serve-frame server.os server.stream server.sys server.rounds server.laws server.calm
        server.sized devid subid cmd asked src before taken fgtm s fits fits' up' clear' takes
        arrived in
    let (u, q, run) =
      request-is_answer client.os client.stream client.sys client.rounds client.laws client.calm
        (client.sized max_message_length) tid devid subid cmd devid subid (bit_or cmd 0x80) asked
        src behind c w (omega arith) fits' up clear sent answered in
    let run' =
      subst
        (λ same.
          Returns (request client (message tid devid subid cmd asked) c)
            (Answered same u (message 0 devid subid (bit_or cmd 0x80) src)))
        (is_answer-bit_or devid cmd small) run in
    (t, u, got, replied, Answered-ok _ u _ run', q)
