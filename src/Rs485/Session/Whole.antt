-- ===== src/Rs485/Session/Whole.antt =====
-- What `tta_receive` hands out in a program with an RS485 context, whatever bytes the line brings.
use libtta.Base.{
  ℕ, ◌≤◌, ◌≡◌, ◌≢◌, ℤ, Bool, false, inl, inr, none, some, List, ◌∷◌, ◌++◌, length, arith,
}
use libtta.Base.Run.{ok, Returns, Returns-weaken}
use libtta.Context.{Errno, Tta, State, Rc}
use libtta.Link.{System}
use libtta.Message.Laws.{IsWhole}
use libtta.Packet.Wrap.{unwrap-IsWhole}
use libtta.Strlcpy.Laws.{IsText}
use libtta.Core.Api
use libtta.Core.Api.{max_message_length}
use libtta.Core.Receive.{Accepted}
use libtta.Core.Session.{Reach}
use libtta.Core.Sound.{IsCalm, IsFrame}
use libtta.Core.Whole.{IsReceived, Delivered, receive-Delivered}
use libtta.Rs485.Port.{Serial, Rs485}
use libtta.Rs485.Packet.{conv_pkt2ttamsg}
use libtta.Rs485.Device.{link, receive, backend}
use libtta.Rs485.Device.Flag.{SerialLaws, link-IsSound, receive-IsNotZero}
use libtta.Rs485.Modes.{new_rs485, device_size}
use libtta.Rs485.Session.{Own, own}
use libtta.Rs485.Session.Laws.{Reach-IsKept}

module _ {W : Type 0} (os : Serial W) (sys : System W) (rounds : ℕ) (calm : IsCalm sys rounds)
    (laws : SerialLaws os rounds) where
  pub converts-IsWhole :
      (pkt : List ℕ) (n : ℕ) (st : State Rs485 W)
      → IsFrame (link os rounds) pkt
      → Returns (conv_pkt2ttamsg pkt n st) (λ msg _. IsWhole msg)
  unfolding conv_pkt2ttamsg
  converts-IsWhole pkt n st (len, found, e) = unwrap-IsWhole 1 0 len pkt st found (omega arith)

  Accepted-IsReceived :
      (r : Rc × List ℕ)
      → Accepted sys rounds
          (link os rounds)
          max_message_length
          calm
          (link-IsSound os rounds laws max_message_length (omega arith))
          r
      → IsReceived (link os rounds) r
  Accepted-IsReceived (none, pkt) h = tt
  Accepted-IsReceived (some n, pkt) (small, inl e) = absurd (some≢none e)
    where
      some≢none : some n ≢ none
      some≢none e = cc
  Accepted-IsReceived (some n, pkt) (small, inr (frame, verdict)) = frame

  pub receive-IsReceived :
      (fgtm : Bool) (st : State Rs485 W)
      → st.backend_data.confirmation_to_ignore ≡ false
      → Returns
          (receive os sys rounds max_message_length fgtm st)
          (λ r _. IsReceived (link os rounds) r)
  receive-IsReceived fgtm st clear =
      Returns-weaken _ (λ r _. IsReceived (link os rounds) r) _
        (receive-IsNotZero sys os rounds max_message_length calm laws (omega arith) fgtm st clear)
        (λ r _ h. Accepted-IsReceived r h.0)

  -- Where `tta_new_rs485` has made a context, and any calls have been made on it since while
  -- anything else changed outside; where signals and sleeps end, and reads fit what was asked for:
  -- `tta_receive` returns, with no access outside of its packet buffer, either -1 and no message, or a
  -- message whose block has as many bytes as it says, a header and the data that the header counts.
  -- The descriptor sets are not part of this: `FD_SET` needs a descriptor from 0 to 1023.
  pub Reach-Delivered :
      (raw : Tta) (raw_data : Rs485) (s rest : List ℕ) (baud : ℤ) (parity data_bit stop_bit : ℕ)
      (e e' : Errno) (ctx : Tta) (d : Rs485) (w : W) (t : State Rs485 W) (fgtm : Bool)
      → IsText s
      → device_size ≤ length raw_data.device
      → new_rs485 raw raw_data (s ++ 0 ∷ rest) baud parity data_bit stop_bit e
        ≡ ok (some (ctx, d), e')
      → Reach sys rounds
          (backend os sys rounds)
          Own
          (own os)
          (record { ctx = ctx; backend_data = d; errno = e'; world = w })
          t
      → Returns (Api.receive sys rounds (backend os sys rounds) fgtm t) (λ r _. Delivered r)
  Reach-Delivered raw raw_data s rest baud parity data_bit stop_bit e e' ctx d w t fgtm text room
        made reach =
      let kept =
        Reach-IsKept os sys rounds calm laws raw raw_data s rest baud parity data_bit stop_bit e e'
          ctx d w t text room made reach in
      receive-Delivered sys rounds (backend os sys rounds) converts-IsWhole fgtm t
        (receive-IsReceived fgtm t kept.never_ignores)
