-- ===== src/Tcp/Device/Message.antt =====
-- `tta_send` over the TCP transport, from the message to the socket.
use libtta.Base.{
  ℕ, suc, ◌+◌, ◌≤◌, ◌≡◌, refl, ◌∙◌, true, ==_self, ltb, some, List, length, length-append, drop,
  arith,
}
use libtta.Base.Run.{ok}
use libtta.Base.Buffer.{overwrite, read_bytes-append}
use libtta.Context.{State}
use libtta.Syscall.{done}
use libtta.Link.{System}
use libtta.Message.Laws.{message}
use libtta.Core.Engine.{send_pkt, send_loop}
use libtta.Core.Api.{max_message_length}
use libtta.Core.Api
use libtta.Tcp.Socket.{Sockets, Tcp, send}
use libtta.Tcp.Packet.{next_tid}
use libtta.Tcp.Packet.Laws.{header, frame, counted, conv_ttamsg2pkt-counted}
use libtta.Tcp.Device.{link, backend}

module _ {W : Type 0} (os : Sockets W) (sys : System W) (rounds tid devid subid cmd : ℕ)
    (bytes : List ℕ) where
  pub length-frame : length (frame tid devid subid cmd bytes) ≡ length bytes + 8
  length-frame = length-append (header tid devid subid cmd (length bytes)) bytes ∙ omega arith

  -- A buffer that starts with the frame is handed to the socket up to the frame's end.
  pub send_pkt-frame :
      (buf : List ℕ) (st : State Tcp W) (w : W)
      → os.send st.ctx.s (frame tid devid subid cmd bytes) st.world ≡ (done (length bytes + 8), w)
      → send_pkt sys
          (suc rounds)
          (link os sys (suc rounds))
          (overwrite buf (frame tid devid subid cmd bytes))
          (length bytes + 8)
          st
        ≡ ok (some (length bytes + 8), record st { world = w })
  unfolding send_pkt send_loop send
  send_pkt-frame buf st w h =
      let whole = frame tid devid subid cmd bytes in
      let long : ltb 0 (length bytes + 8) ≡ true = ground arith in
      rw
        (
          read_bytes-append (length bytes + 8) whole (drop (length whole) buf) st length-frame,
          h,
          long,
          ==_self (length bytes + 8),
        )
        refl

module _ {W : Type 0} (os : Sockets W) (sys : System W) (rounds : ℕ)
    (room : length (sys.malloc max_message_length) ≡ max_message_length) (tid devid subid cmd : ℕ)
    (bytes : List ℕ) (st : State Tcp W) where
  -- A message of at most 252 data bytes reaches the socket in one call as its frame, with the next
  -- transaction number, which is taken; where the socket takes the whole frame, the result is its
  -- length.
  pub send-counted :
      (w : W)
      → length bytes ≤ 252
      → os.send st.ctx.s (frame (next_tid st.backend_data.tid) devid subid cmd bytes) st.world
        ≡ (done (length bytes + 8), w)
      → Api.send sys
          (suc rounds)
          (backend os sys (suc rounds))
          (message tid devid subid cmd bytes)
          st
        ≡ ok (some (length bytes + 8), record (counted st) { world = w })
  unfolding Api.send
  send-counted w fits h =
      rw
        (
          conv_ttamsg2pkt-counted tid devid subid cmd bytes (sys.malloc max_message_length) st
              (omega arith),
          send_pkt-frame os sys rounds (next_tid st.backend_data.tid) devid subid cmd bytes
              (sys.malloc max_message_length) (counted st) w h,
        )
        refl
