-- ===== src/Rs485/Device/Exchange.antt =====
-- `tta_request` over the RS485 transport, from the request to the answer on the line.
use libtta.Base.{
  ℕ, suc, ◌+◌, ◌≤◌, ◌≡◌, refl, true, false, Bool, Bool-cases, inl, inr, ◌==◌, ◌&&◌, if◌then◌else◌,
  some, none, List, ◌∷◌, ◌++◌, length, bit_and, arith,
}
use libtta.Base.Run.{ok, Returns}
use libtta.Context.{State, embbadslave}
use libtta.Link.{System}
use libtta.Message.Laws.{message}
use libtta.Core.Api
use libtta.Core.Api.{max_message_length}
use libtta.Core.Confirm.{Answered, request-Answered}
use libtta.Core.Sound.{IsCalm}
use libtta.Rs485.Port.{Serial, Rs485, rts_none}
use libtta.Rs485.Packet.{stx, pre_check_confirmation}
use libtta.Rs485.Packet.Laws.{frame, conv_ttamsg2pkt-frame}
use libtta.Rs485.Device.{backend}
use libtta.Rs485.Device.Flag.{SerialLaws, link-IsSound}
use libtta.Rs485.Device.Message.{Takes, after_frame, send_pkt-frame}
use libtta.Rs485.Device.Stream.{SerialStream, receive-frame, read-frame}

-- An answer belongs to a request if it comes from the device that the request went to, and has its
-- command, with bit 7 aside.
abbrev pub is_answer : ℕ → ℕ → ℕ → ℕ → Bool
is_answer devid cmd devid' cmd' = (devid == devid') && (cmd == bit_and cmd' 0x7F)

pub pre_check_confirmation-is_answer :
    {W : Type 0} (x y devid subid cmd devid' subid' cmd' : ℕ) (req rsp : List ℕ) (n : ℕ)
    (st : State Rs485 W)
    → pre_check_confirmation (x ∷ devid ∷ subid ∷ cmd ∷ req) (y ∷ devid' ∷ subid' ∷ cmd' ∷ rsp) n st
      ≡ (if is_answer devid cmd devid' cmd'
          then ok (some 0, st)
          else ok (none, record st { errno = embbadslave }))
unfolding pre_check_confirmation
pre_check_confirmation-is_answer x y devid subid cmd devid' subid' cmd' req rsp n st =
    elim (Bool-cases (devid == devid')) [
      | inr p ↦ rw p refl
      | inl p ↦ elim (Bool-cases (cmd == bit_and cmd' 0x7F)) [
        | inr q ↦ rw (p, q) refl
        | inl q ↦ rw (p, q) refl
      ]
    ]

module _ {W : Type 0} (os : Serial W) (stream : SerialStream os) (sys : System W) (rounds : ℕ)
    (laws : SerialLaws os (suc rounds)) (calm : IsCalm sys (suc rounds))
    (room : length (sys.malloc max_message_length) ≡ max_message_length)
    (tid devid subid cmd devid' subid' cmd' : ℕ) (bytes bytes' rest : List ℕ)
    (st : State Rs485 W) where
  -- In the modes "up" and "down" of RTS, not in the mode "none" of a new context, a request of at
  -- most 253 data bytes is written as its frame, with RTS switched before it and back after it: set
  -- and cleared in the mode "up", cleared and set in the mode "down". Where the driver takes the frame
  -- whole, no confirmation is to be ignored, and the line then brings the frame of a message of at most 249 data bytes in pieces of any size: `tta_request`
  -- returns 0 and that message if the message comes from the device that the request went to and has
  -- its command, with bit 7 aside, and -1 if not. Sleeps end, and the port keeps its laws.
  pub request-is_answer :
      (w : W)
      → length bytes ≤ 253
      → length bytes' ≤ 249
      → (st.backend_data.rts == rts_none) ≡ false
      → st.backend_data.confirmation_to_ignore ≡ false
      → Takes os st (frame devid subid cmd bytes) (length bytes + 7) w
      → stream.line (after_frame os st w).world ≡ frame devid' subid' cmd' bytes' ++ rest
      → (t : State Rs485 W) × (stream.line t.world ≡ rest)
        × Returns
            (Api.request sys
              (suc rounds)
              (backend os sys (suc rounds))
              (message tid devid subid cmd bytes)
              st)
            (Answered (is_answer devid cmd devid' cmd') t (message 0 devid' subid' cmd' bytes'))
  request-is_answer w fits fits' by_hand clear sent e =
      let (t, q, run) =
        receive-frame os stream sys rounds devid' subid' cmd' bytes' rest fits' true
          (after_frame os st w) clear e in
      (
        t,
        q,
        request-Answered sys (suc rounds) (backend os sys (suc rounds)) 260 calm
            (link-IsSound os (suc rounds) laws 260 (omega arith)) (is_answer devid cmd devid' cmd')
            _ _ _ _ _ _ _ st _ _ t (record t { errno = embbadslave })
            (conv_ttamsg2pkt-frame tid devid subid cmd bytes _ st (omega arith))
            (send_pkt-frame os sys rounds devid subid cmd bytes _ st w by_hand sent) run
            (pre_check_confirmation-is_answer stx stx devid subid cmd devid' subid' cmd' _ _
              (length bytes' + 7) t)
            (read-frame os stream sys rounds devid' subid' cmd' bytes' rest fits' t),
      )
