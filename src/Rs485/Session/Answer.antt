-- ===== src/Rs485/Session/Answer.antt =====
-- What `tta_request` hands out in a program with an RS485 context, whatever bytes the line brings.
use libtta.Base.{
  ℕ, ◌+◌, ◌≤◌, ◌≡◌, refl, ℤ, true, false, some, List, ◌∷◌, ◌++◌, length, get_elem?-some, arith, not,
  ◌||◌, ◌==◌, bit_and,
}
use libtta.Base.Run.{Outcome, ok, fault, stuck, Returns, Returns-if, pure}
use libtta.Base.Buffer.{overwrite}
use libtta.Context.{Errno, Tta, State, embbadslave, fail_with}
use libtta.Context.Keeps.{Left}
use libtta.Link.{System}
use libtta.Message.Laws.{message}
use libtta.Strlcpy.Laws.{IsText}
use libtta.Core.Api
use libtta.Core.Api.{max_message_length}
use libtta.Core.Engine.{send_pkt}
use libtta.Core.Keeps.{send_pkt-Keeps}
use libtta.Core.Request.{IsVerdict, Answer, request-Answer}
use libtta.Core.Send.{IsPatient, Sent, send_pkt-Sent}
use libtta.Core.Session.{Reach}
use libtta.Core.Sound.{IsCalm, IsFrame}
use libtta.Rs485.Port.{Serial, Rs485}
use libtta.Rs485.Packet.{pre_check_confirmation}
use libtta.Rs485.Packet.Laws.{frame, conv_ttamsg2pkt-frame}
use libtta.Rs485.Device.{link, backend}
use libtta.Rs485.Device.Flag.{SerialLaws, link-IsSound}
use libtta.Rs485.Device.Keeps.{backend-Keeps}
use libtta.Rs485.Modes.{new_rs485, device_size}
use libtta.Rs485.Session.{Own, own}
use libtta.Rs485.Session.Laws.{Reach-IsKept}
use libtta.Rs485.Session.Whole.{converts-IsWhole, receive-IsReceived}

Returns-kept :
    {D W A : Type 0} (P : D → Type 0) (Q : A → State D W → Type 0) (o : Outcome (A × State D W))
    → Returns o Q
    → Left P o
    → Returns o (λ _ t. P t.backend_data)
Returns-kept P Q (ok r) h kept = kept
Returns-kept P Q fault h kept = absurd h
Returns-kept P Q stuck h kept = absurd h

module _ {W : Type 0} (os : Serial W) (sys : System W) (rounds : ℕ) (calm : IsCalm sys rounds)
    (laws : SerialLaws os rounds) where
  compares-IsVerdict :
      (req0 req1 req2 req3 : ℕ) (req rsp : List ℕ) (n : ℕ) (st : State Rs485 W)
      → IsFrame (link os rounds) rsp
      → Returns
          (pre_check_confirmation (req0 ∷ req1 ∷ req2 ∷ req3 ∷ req) rsp n st)
          (λ rc _. IsVerdict rc)
  unfolding pre_check_confirmation
  compares-IsVerdict req0 req1 req2 req3 req rsp n st (len, _, e) =
      let (rsp1, e1) = get_elem?-some 1 rsp (omega arith) in
      let (rsp3, e3) = get_elem?-some 3 rsp (omega arith) in
      rw (e1, e3, Returns)
        (Returns-if (λ rc _. IsVerdict rc) (not (req1 == rsp1) || not (req3 == bit_and rsp3 0x7F))
          (fail_with embbadslave) (pure (some 0)) st tt refl)

  -- Where `tta_new_rs485` has made a context, and any calls have been made on it since while
  -- anything else changed outside; where signals and sleeps end, reads fit what was asked for, and
  -- writes of the packet of the request fail fewer times in a row than there are rounds:
  -- `tta_request` with at most 249 data bytes returns, with no access outside of its two packet
  -- buffers, either -1 and no message, or 0 and a message whose block has as many bytes as it says, a
  -- header and the data that the header counts. The descriptor sets are not part of this: `FD_SET`
  -- needs a descriptor from 0 to 1023.
  pub Reach-Answer :
      (raw : Tta) (raw_data : Rs485) (s rest : List ℕ) (baud : ℤ) (parity data_bit stop_bit : ℕ)
      (e e' : Errno) (ctx : Tta) (d : Rs485) (w : W) (t : State Rs485 W) (tid devid subid cmd : ℕ)
      (bytes : List ℕ)
      → length (sys.malloc max_message_length) ≡ max_message_length
      → length bytes ≤ 249
      → IsPatient sys rounds
          (link os rounds)
          (overwrite (sys.malloc max_message_length) (frame devid subid cmd bytes))
          (length bytes + 7)
      → IsText s
      → device_size ≤ length raw_data.device
      → new_rs485 raw raw_data (s ++ 0 ∷ rest) baud parity data_bit stop_bit e
        ≡ ok (some (ctx, d), e')
      → Reach sys rounds
          (backend os sys rounds)
          Own
          (own os)
          (record { ctx = ctx; backend_data = d; errno = e'; world = w })
          t
      → Returns
          (Api.request sys rounds (backend os sys rounds) (message tid devid subid cmd bytes) t)
          (λ r _. Answer r)
  Reach-Answer raw raw_data s rest baud parity data_bit stop_bit e e' ctx d w t tid devid subid cmd
        bytes sized fits patient text room made reach =
      let kept =
        Reach-IsKept os sys rounds calm laws raw raw_data s rest baud parity data_bit stop_bit e e'
          ctx d w t text room made reach in
      let P : Rs485 → Type 0 = λ d. d.confirmation_to_ignore ≡ false in
      let keeps = backend-Keeps os P (λ d old h. h) (λ d h. h) sys rounds calm laws in
      let buf = overwrite (sys.malloc max_message_length) (frame devid subid cmd bytes) in
      request-Answer sys rounds (backend os sys rounds) 260 calm
        (link-IsSound os rounds laws 260 (omega arith)) (converts-IsWhole os sys rounds calm laws)
        buf (compares-IsVerdict _ _ _ _ _) (message tid devid subid cmd bytes) (length bytes + 7) t
        t (λ u. P u.backend_data)
        (conv_ttamsg2pkt-frame tid devid subid cmd bytes (sys.malloc max_message_length) t
          (omega arith))
        (Returns-kept P (Sent (length bytes + 7))
          (send_pkt sys rounds (link os rounds) buf (length bytes + 7) t)
          (send_pkt-Sent sys rounds (link os rounds) buf (length bytes + 7) patient t)
          ((send_pkt-Keeps P sys rounds (link os rounds) keeps.link buf (length bytes + 7)).at t
            kept.never_ignores))
        (λ u clear. receive-IsReceived os sys rounds calm laws true u clear)
