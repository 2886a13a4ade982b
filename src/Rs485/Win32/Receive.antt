-- ===== src/Rs485/Win32/Receive.antt =====
-- `_tta_receive_pkt` over the Windows branches of the RS485 transport.
use libtta.Base.{
  Bool, ℕ, ◌+◌, ◌≤◌, ◌≡◌, refl, ap, ◌∙◌, sym, List, [], ◌++◌, some, take, length, arith,
}
use libtta.Base.Run.{ok, then_run, pure}
use libtta.Context.{State}
use libtta.Link.{System}
use libtta.Core.Api.{max_message_length}
use libtta.Core.Engine.{receive_pkt}
use libtta.Core.Stream.{IsFirst, receive_pkt-Checks}
use libtta.Packet.{check_sums}
use libtta.Packet.Check.{check_sums-with_sums}
use libtta.Packet.Frame.{length-with_sums}
use libtta.Rs485.Packet.Laws.{header, frame}
use libtta.Rs485.Win32.{Windows, WinRs485, flush, link}
use libtta.Rs485.Win32.Stream.{WindowsStream, IsIdle, pending, link-Delivers}

module _ {W : Type 0} (os : Windows W) (stream : WindowsStream os) (sys : System W) (rounds : ℕ)
    (devid subid cmd : ℕ) (bytes rest : List ℕ) (fits : length bytes ≤ 249) where
  size : length (frame devid subid cmd bytes) ≡ length bytes + 7
  size = length-with_sums (header devid subid cmd (length bytes) ++ bytes) ∙ omega arith

  frame-IsFirst : IsFirst (link os) max_message_length (frame devid subid cmd bytes)
  frame-IsFirst = record {
    len = length bytes;
    found = refl;
    size = omega (arith, size);
    header_pos = omega arith;
    adu = omega (arith, size);
    room = omega arith;
  }

  -- With nothing read ahead, and with bytes on the line that start with the frame of a message of at
  -- most 249 data bytes and arrive in pieces of any size, receiving over the Windows branches gives
  -- the frame and its length, leaves the bytes behind it on the line, and has read nothing ahead.
  pub win32_receive-line :
      (fgtimeout : Bool) (st : State WinRs485 W)
      → IsIdle os stream st
      → stream.line st.world ≡ frame devid subid cmd bytes ++ rest
      → (t : State WinRs485 W) × (stream.line t.world ≡ rest)
        × IsIdle os stream t
        × (receive_pkt sys rounds (link os) max_message_length fgtimeout st
            ≡ ok ((some (length bytes + 7), frame devid subid cmd bytes), t))
  unfolding link-Delivers
  win32_receive-line fgtimeout st idle e =
      let whole = frame devid subid cmd bytes in
      let (t, q, idle', run) =
        receive_pkt-Checks sys rounds (link os) max_message_length (link-Delivers os stream) whole
          rest frame-IsFirst fgtimeout st (on_line st idle ∙ e) idle in
      let checked : check_sums (flush os) whole (length whole) t ≡ ok (some (length bytes + 7), t) =
        ap (λ n. check_sums (flush os) whole n t) size
        ∙ check_sums-with_sums (flush os) (length bytes + 7)
            (header devid subid cmd (length bytes) ++ bytes) t (omega arith) in
      (
        t,
        sym (on_line t idle') ∙ q,
        idle',
        run ∙ ap (λ o. then_run o (λ rc. pure (rc, whole))) checked,
      )
    where
      on_line :
          (t : State WinRs485 W) → IsIdle os stream t → pending os stream t ≡ stream.line t.world
      on_line t (none_read, full) =
          let nothing : take t.backend_data.w_ser.n_bytes t.backend_data.w_ser.buf ≡ [] =
            ap (λ m. take m t.backend_data.w_ser.buf) none_read in
          ap (λ l. l ++ stream.line t.world) nothing
