-- ===== src/Tcp/Device/Stream.antt =====
-- `tta_receive` and `tta_request` over the TCP transport, from the bytes on the connection to the
-- message.
use libtta.Base.{
  ℕ, suc, ◌+◌, ◌≤◌, ◌≡◌, refl, subst, ◌∙◌, ap, Bool, true, ◌==◌, some, List, [], ◌++◌, append-nil,
  length, arith,
}
use libtta.Base.Run.{ok, Returns}
use libtta.Context.{State, embbaddata}
use libtta.Context.Keeps.{Left}
use libtta.Syscall.{done}
use libtta.Link.{System}
use libtta.Message.Laws.{message}
use libtta.Wait.Stream.{StreamLaws, select_loop-Ready, call_read-Taken}
use libtta.Core.Api
use libtta.Core.Api.{max_message_length}
use libtta.Core.Confirm.{Answered, request-Answered}
use libtta.Core.Sound.{IsCalm}
use libtta.Core.Stream.{Delivers, IsFirst, receive_pkt-Checks}
use libtta.Tcp.Socket.{Sockets, Tcp, recv, wait_input}
use libtta.Tcp.Packet.{next_tid, check_integrity, conv_pkt2ttamsg}
use libtta.Tcp.Packet.Laws.{
  frame, counted, conv_ttamsg2pkt-counted, conv_pkt2ttamsg-frame, pre_check_confirmation-written,
}
use libtta.Tcp.Device.{link, receive, backend}
use libtta.Tcp.Device.Keeps.{receive-Keeps}
use libtta.Tcp.Device.Message.{length-frame, send_pkt-frame}
use libtta.Tcp.Device.Sound.{SocketLaws, tcp_link-IsSound}

-- The connection brings its bytes in order.
abbrev pub SocketStream : {W : Type 0} → Sockets W → Type 0
SocketStream os = StreamLaws os.select os.recv

module _ {W : Type 0} (os : Sockets W) (stream : SocketStream os) (sys : System W)
    (rounds : ℕ) where
  link-Delivers : Delivers (link os sys (suc rounds))
  unfolding wait_input recv
  link-Delivers = record {
    pending = λ st. stream.line st.world;
    idle = λ _. Unit;
    ready = λ _ _. Unit;
    select_waits = λ tv n st _ pos h.
        select_loop-Ready os.select os.recv stream rounds st.ctx.s tv st (omega arith);
    recv_takes = λ n st _ pos h. call_read-Taken os.select os.recv stream st.ctx.s n st pos h;
  }

module _ {W : Type 0} (os : Sockets W) (stream : SocketStream os) (sys : System W) (rounds : ℕ)
    (tid devid subid cmd : ℕ) (bytes rest : List ℕ) (fits : length bytes ≤ 252) where
  size : length (frame tid devid subid cmd bytes) ≡ length bytes + 8
  size = length-frame os sys rounds tid devid subid cmd bytes

  frame-IsFirst :
      IsFirst (link os sys (suc rounds)) max_message_length (frame tid devid subid cmd bytes)
  frame-IsFirst = record {
    len = length bytes;
    found = refl;
    size = omega (arith, size);
    header_pos = omega arith;
    adu = omega (arith, size);
    room = omega arith;
  }

  received-frame :
      (fgtimeout : Bool) (st : State Tcp W)
      → stream.line st.world ≡ frame tid devid subid cmd bytes ++ rest
      → (t : State Tcp W) × (stream.line t.world ≡ rest)
        × (t.backend_data ≡ st.backend_data)
        × (receive os sys (suc rounds) max_message_length fgtimeout st
            ≡ ok ((some (length bytes + 8), frame tid devid subid cmd bytes), t))
  unfolding link-Delivers receive check_integrity
  received-frame fgtimeout st e =
      let whole = frame tid devid subid cmd bytes in
      let (t, q, _, run) =
        receive_pkt-Checks sys (suc rounds) (link os sys (suc rounds)) max_message_length
          (link-Delivers os stream sys rounds) whole rest frame-IsFirst fgtimeout st e tt in
      let run' = run ∙ ap (λ n. ok ((some n, whole), t)) size in
      let kept : t.backend_data ≡ st.backend_data = subst (Left (λ d. d ≡ st.backend_data)) run' (
        (receive-Keeps os (λ d. d ≡ st.backend_data) sys (suc rounds) max_message_length
            fgtimeout).at
          st refl) in
      (t, q, kept, run')

  read-frame :
      (st : State Tcp W)
      → conv_pkt2ttamsg (frame tid devid subid cmd bytes) (length bytes + 8) st
        ≡ ok (message tid devid subid cmd bytes, st)
  read-frame st =
      subst
        (λ l. conv_pkt2ttamsg l (length bytes + 8) st ≡ ok (message tid devid subid cmd bytes, st))
        (append-nil (frame tid devid subid cmd bytes))
        (conv_pkt2ttamsg-frame tid devid subid cmd bytes [] st [] (length bytes + 8))

  -- Where the bytes on the connection start with the frame of a message of at most 252 data bytes,
  -- and arrive in pieces of any size, `tta_receive` returns the length of the frame and the message
  -- with its transaction number, and leaves the bytes behind it on the connection. Its own number
  -- stays.
  pub tcp_receive-line :
      (fgtm : Bool) (st : State Tcp W)
      → stream.line st.world ≡ frame tid devid subid cmd bytes ++ rest
      → (t : State Tcp W) × (stream.line t.world ≡ rest)
        × (t.backend_data ≡ st.backend_data)
        × (Api.receive sys (suc rounds) (backend os sys (suc rounds)) fgtm st
            ≡ ok ((some (length bytes + 8), some (message tid devid subid cmd bytes)), t))
  unfolding libtta.Core.Api.receive
  tcp_receive-line fgtm st e =
      let (t, q, kept, run) = received-frame fgtm st e in
      (t, q, kept, simp (run, read-frame t) refl)

  module _ (laws : SocketLaws os (suc rounds)) (calm : IsCalm sys (suc rounds))
      (room : length (sys.malloc max_message_length) ≡ max_message_length)
      (own devid' subid' cmd' : ℕ) (bytes' : List ℕ) (st : State Tcp W) where
    -- A request of at most 252 data bytes is sent with the next transaction number. Where the socket
    -- takes its frame whole, and the connection then brings the frame of a message of at most 252
    -- data bytes in pieces of any size: `tta_request` returns 0 and that message if it carries the
    -- number of the request, and -1 if it does not. Sleeps end, and the socket keeps its laws.
    pub tcp_request-Answered :
        (w : W)
        → length bytes' ≤ 252
        → os.send st.ctx.s (frame (next_tid st.backend_data.tid) devid' subid' cmd' bytes') st.world
          ≡ (done (length bytes' + 8), w)
        → stream.line w ≡ frame tid devid subid cmd bytes ++ rest
        → (t : State Tcp W) × (stream.line t.world ≡ rest)
          × Returns
              (Api.request sys
                (suc rounds)
                (backend os sys (suc rounds))
                (message own devid' subid' cmd' bytes')
                st)
              (Answered (next_tid st.backend_data.tid == tid) t (message tid devid subid cmd bytes))
    tcp_request-Answered w fits' sent e =
        let next = next_tid st.backend_data.tid in
        let (t, q, _, run) = received-frame true (record (counted st) { world = w }) e in
        (
          t,
          q,
          request-Answered sys (suc rounds) (backend os sys (suc rounds)) 260 calm
              (tcp_link-IsSound os sys (suc rounds) laws 260 (omega arith)) (next == tid) _ _ _ _ _
              _ _ st _ _ t (record t { errno = embbaddata })
              (conv_ttamsg2pkt-counted own devid' subid' cmd' bytes' _ st (omega arith))
              (send_pkt-frame os sys rounds next devid' subid' cmd' bytes' _ (counted st) w sent)
              run (pre_check_confirmation-written next tid _ _ (length bytes + 8) t) (read-frame t),
        )
