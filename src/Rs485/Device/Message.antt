-- ===== src/Rs485/Device/Message.antt =====
-- `tta_send` over the RS485 transport, from the message to the driver.
use libtta.Base.{
  ℕ, suc, ◌+◌, ◌≤◌, ◌<◌, ◌≡◌, refl, sym, ◌∙◌, ap, true, false, not, ◌==◌, ==_self, ltb, some, List,
  ◌++◌, length, drop, arith,
}
use libtta.Base.Run.{ok, fault}
use libtta.Base.Buffer.{overwrite}
use libtta.Context.{State}
use libtta.Syscall.{done}
use libtta.Link.{System}
use libtta.Message.Laws.{message}
use libtta.Core.Engine.{send_pkt, send_loop}
use libtta.Core.Api.{send, max_message_length}
use libtta.Packet.Frame.{length-with_sums}
use libtta.Rs485.Port.{Serial, Rs485, rts_none, rts_up}
use libtta.Rs485.Port
use libtta.Rs485.Port.Laws.{with_rts, send-with_rts}
use libtta.Rs485.Packet.Laws.{header, frame, conv_ttamsg2pkt-frame, conv_ttamsg2pkt-fault}
use libtta.Rs485.Device.{link, backend}

module _ {W : Type 0} (os : Serial W) where
  -- The world after a write that left `w` behind: RTS is switched back 10 ms later.
  abbrev pub after_frame : State Rs485 W → W → State Rs485 W
  after_frame st w = record st {
    world = with_rts os st.ctx.s (not (st.backend_data.rts == rts_up)) (os.usleep 10000 w);
  }

  -- The driver takes the whole frame, handed over 10 ms after RTS has been switched: set in the mode
  -- "up", cleared in the mode "down".
  abbrev pub Takes : State Rs485 W → List ℕ → ℕ → W → Type 0
  Takes st whole n w =
      os.write st.ctx.s whole
        (os.usleep 10000 (with_rts os st.ctx.s (st.backend_data.rts == rts_up) st.world))
      ≡ (done n, w)

module _ {W : Type 0} (os : Serial W) (sys : System W) (rounds devid subid cmd : ℕ)
    (bytes : List ℕ) where
  pub length-frame : length (frame devid subid cmd bytes) ≡ length bytes + 7
  length-frame = length-with_sums (header devid subid cmd (length bytes) ++ bytes) ∙ omega arith

  -- A buffer that starts with the frame is handed to the driver up to the frame's end.
  pub send_pkt-frame :
      (buf : List ℕ) (st : State Rs485 W) (w : W)
      → (st.backend_data.rts == rts_none) ≡ false
      → Takes os st (frame devid subid cmd bytes) (length bytes + 7) w
      → send_pkt sys
          (suc rounds)
          (link os (suc rounds))
          (overwrite buf (frame devid subid cmd bytes))
          (length bytes + 7)
          st
        ≡ ok (some (length bytes + 7), after_frame os st w)
  unfolding send_pkt send_loop
  send_pkt-frame buf st w by_hand h =
      let whole = frame devid subid cmd bytes in
      let sent : Port.send os (overwrite buf whole) (length bytes + 7) st
          ≡ ok (some (length bytes + 7), after_frame os st w) =
        ap (λ n. Port.send os (overwrite buf whole) n st) (sym length-frame)
        ∙ send-with_rts os whole (drop (length whole) buf) (done (length bytes + 7)) w st by_hand
            h in
      let long : ltb 0 (length bytes + 7) ≡ true = ground arith in
      rw (sent, long, ==_self (length bytes + 7)) refl

module _ {W : Type 0} (os : Serial W) (sys : System W) (rounds : ℕ)
    (room : length (sys.malloc max_message_length) ≡ max_message_length) (tid devid subid cmd : ℕ)
    (bytes : List ℕ) (st : State Rs485 W) where
  -- In the modes "up" and "down" of RTS, not in the mode "none" of a new context, a message of at
  -- most 253 data bytes reaches the driver in one call as its frame. RTS is set before and cleared
  -- after it in the mode "up", and cleared before and set after it in the mode "down". Where the
  -- driver takes the whole frame, the result is its length.
  pub send-frame :
      (w : W)
      → length bytes ≤ 253
      → (st.backend_data.rts == rts_none) ≡ false
      → Takes os st (frame devid subid cmd bytes) (length bytes + 7) w
      → send sys (suc rounds) (backend os sys (suc rounds)) (message tid devid subid cmd bytes) st
        ≡ ok (some (length bytes + 7), after_frame os st w)
  unfolding send
  send-frame w fits by_hand h =
      rw
        (
          conv_ttamsg2pkt-frame tid devid subid cmd bytes (sys.malloc max_message_length) st
              (omega arith),
          send_pkt-frame os sys rounds devid subid cmd bytes (sys.malloc max_message_length) st w
              by_hand h,
        )
        refl

  -- A message of more than 253 data bytes makes `tta_send` write past the end of its packet buffer
  -- of 260 bytes.
  pub send-fault :
      253 < length bytes
      → send sys rounds (backend os sys rounds) (message tid devid subid cmd bytes) st ≡ fault
  unfolding send
  send-fault long =
      rw
        (conv_ttamsg2pkt-fault tid devid subid cmd bytes (sys.malloc max_message_length) st
          (omega arith) (omega arith))
        refl
