-- ===== src/Rs485/Device/Stream.antt =====
-- `tta_receive` over the RS485 transport, from the bytes on the line to the message.
use libtta.Base.{
  ℕ, suc, ◌+◌, ◌≤◌, ◌≡◌, refl, subst, ◌∙◌, ap, Bool, false, ◌==◌, some, List, [], ◌++◌, append-nil,
  length, arith,
}
use libtta.Base.Run.{ok, then_run, pure}
use libtta.Context.{State}
use libtta.Link.{System}
use libtta.Message.Laws.{message}
use libtta.Wait.Stream.{StreamLaws, select_loop-Ready, call_read-Taken}
use libtta.Core.Engine.{receive_pkt}
use libtta.Core.Api
use libtta.Core.Api.{max_message_length}
use libtta.Core.Stream.{Delivers, IsFirst, receive_pkt-Checks}
use libtta.Rs485.Port.{Serial, Rs485, recv, wait_input}
use libtta.Rs485.Packet.{check_integrity, conv_pkt2ttamsg}
use libtta.Rs485.Packet.Laws.{frame, conv_pkt2ttamsg-frame}
use libtta.Rs485.Device.Message.{length-frame}
use libtta.Rs485.Device.{link, receive, backend}

-- The line of the serial port brings its bytes in order.
abbrev pub SerialStream : {W : Type 0} → Serial W → Type 0
SerialStream os = StreamLaws os.select os.read

module _ {W : Type 0} (os : Serial W) (stream : SerialStream os) (rounds : ℕ) where
  link-Delivers : Delivers (link os (suc rounds))
  unfolding wait_input recv
  link-Delivers = record {
    pending = λ st. stream.line st.world;
    idle = λ _. Unit;
    ready = λ _ _. Unit;
    select_waits = λ tv n st _ pos h.
        select_loop-Ready os.select os.read stream rounds st.ctx.s tv st (omega arith);
    recv_takes = λ n st _ pos h. call_read-Taken os.select os.read stream st.ctx.s n st pos h;
  }

module _ {W : Type 0} (os : Serial W) (stream : SerialStream os) (sys : System W) (rounds : ℕ)
    (devid subid cmd : ℕ) (bytes rest : List ℕ) (fits : length bytes ≤ 249) where
  size : length (frame devid subid cmd bytes) ≡ length bytes + 7
  size = length-frame os sys rounds devid subid cmd bytes

  frame-IsFirst : IsFirst (link os (suc rounds)) max_message_length (frame devid subid cmd bytes)
  frame-IsFirst = record {
    len = length bytes;
    found = refl;
    size = omega (arith, size);
    header_pos = omega arith;
    adu = omega (arith, size);
    room = omega arith;
  }

  -- The engine comes to the frame, and the check accepts it.
  received-frame :
      (fgtimeout : Bool) (st : State Rs485 W)
      → stream.line st.world ≡ frame devid subid cmd bytes ++ rest
      → (t : State Rs485 W) × (stream.line t.world ≡ rest)
        × (receive_pkt sys (suc rounds) (link os (suc rounds)) max_message_length fgtimeout st
            ≡ ok ((some (length bytes + 7), frame devid subid cmd bytes), t))
  unfolding link-Delivers
  received-frame fgtimeout st e =
      let whole = frame devid subid cmd bytes in
      let (t, q, _, run) =
        receive_pkt-Checks sys (suc rounds) (link os (suc rounds)) max_message_length
          (link-Delivers os stream rounds) whole rest frame-IsFirst fgtimeout st e tt in
      let checked : check_integrity os whole (length whole) t ≡ ok (some (length bytes + 7), t) =
        ap (λ n. check_integrity os whole n t) size
        ∙ (conv_pkt2ttamsg-frame os 0 devid subid cmd bytes t []).0 in
      (t, q, run ∙ ap (λ o. then_run o (λ rc. pure (rc, whole))) checked)

  -- `_tta_rs485_receive` comes to the frame too, while no confirmation is to be ignored.
  pub receive-frame :
      (fgtimeout : Bool) (st : State Rs485 W)
      → st.backend_data.confirmation_to_ignore ≡ false
      → stream.line st.world ≡ frame devid subid cmd bytes ++ rest
      → (t : State Rs485 W) × (stream.line t.world ≡ rest)
        × (receive os sys (suc rounds) max_message_length fgtimeout st
            ≡ ok ((some (length bytes + 7), frame devid subid cmd bytes), t))
  unfolding receive
  receive-frame fgtimeout st clear e =
      let (t, q, run) = received-frame fgtimeout st e in
      let nonzero : (length bytes + 7 == 0) ≡ false = ground arith in
      (t, q, simp (clear, run, nonzero) refl)

  pub read-frame :
      (st : State Rs485 W)
      → conv_pkt2ttamsg (frame devid subid cmd bytes) (length bytes + 7) st
        ≡ ok (message 0 devid subid cmd bytes, st)
  read-frame st =
      subst
        (λ l. conv_pkt2ttamsg l (length bytes + 7) st ≡ ok (message 0 devid subid cmd bytes, st))
        (append-nil (frame devid subid cmd bytes))
        (conv_pkt2ttamsg-frame os 0 devid subid cmd bytes st []).1

  -- Where the bytes on the line start with the frame of a message of at most 249 data bytes, and
  -- arrive in pieces of any size, `tta_receive` returns the length of the frame and the message,
  -- with the transaction number 0, and leaves the bytes behind it on the line; no confirmation is
  -- to be ignored before.
  pub receive-line :
      (fgtm : Bool) (st : State Rs485 W)
      → st.backend_data.confirmation_to_ignore ≡ false
      → stream.line st.world ≡ frame devid subid cmd bytes ++ rest
      → (t : State Rs485 W) × (stream.line t.world ≡ rest)
        × (Api.receive sys (suc rounds) (backend os sys (suc rounds)) fgtm st
            ≡ ok ((some (length bytes + 7), some (message 0 devid subid cmd bytes)), t))
  unfolding libtta.Core.Api.receive
  receive-line fgtm st clear e =
      let (t, q, run) = receive-frame fgtm st clear e in (t, q, simp (run, read-frame t) refl)
