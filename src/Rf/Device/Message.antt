-- ===== src/Rf/Device/Message.antt =====
-- `tta_send` over the radio, with a message that does not fit the chip's queue.
use libtta.Base.{
  ℕ, suc, ◌+◌, ◌≤◌, ◌<◌, ◌≡◌, refl, sym, ◌∙◌, ap, ℤ, Bool, false, leb, List, [], ◌∷◌, ◌++◌, length,
  drop, if◌then◌else◌, arith,
}
use libtta.Base.Run.{M, fault, then_run}
use libtta.Base.Buffer.{load}
use libtta.Context.{State}
use libtta.Link.{System}
use libtta.Message.Laws.{message}
use libtta.Core.Engine.{send_pkt, send_loop}
use libtta.Core.Api
use libtta.Core.Api.{max_message_length}
use libtta.Packet.Frame.{length-with_sums}
use libtta.Cc1120.Access.{Spi, strobe}
use libtta.Rf.Radio.{Rf, fifo_size, write_rf}
use libtta.Rf.Radio.Laws.{write_rf-fifo_size}
use libtta.Rf.Packet.Laws.{header, frame, with_id, conv_ttamsg2pkt-with_id}
use libtta.Rf.Transfer.{send}
use libtta.Rf.Device.{backend}

else_branch : {A : Type 0} (b : Bool) (x y : A) → b ≡ false → (if b then x else y) ≡ y
else_branch b x y e = rw e refl

module _ {W : Type 0} (spi : Spi W) (sys : System W) (rounds : ℕ)
    (block : (n : ℕ) → length (sys.malloc n) ≡ n) where
  -- A strobe is a fault or is followed by what is next.
  strobe-fault :
      {B : Type 0} (s : ℤ) (cmd : ℕ) (st : State Rf W) (next : ℕ → M (State Rf W) B)
      → ((a : ℕ) (t : State Rf W) → next a t ≡ fault)
      → then_run (strobe spi s cmd st) next ≡ fault
  unfolding strobe
  strobe-fault s cmd st next h =
      first (spi.strobe s cmd st.world).0 (record st { world = (spi.strobe s cmd st.world).1 })
    where
      first : (buf : List ℕ) (t : State Rf W) → then_run (load buf 0 t) next ≡ fault
      first [] t = refl
      first (x ∷ buf) t = h x t

  transfer-fault :
      (bytes rest : List ℕ) (n : ℕ) (st : State Rf W)
      → length bytes ≡ n
      → 127 < n
      → send spi sys rounds (bytes ++ rest) n st ≡ fault
  unfolding send
  transfer-fault bytes rest n st e long = strobe-fault st.ctx.s _ st _ λ a t.
      strobe-fault st.ctx.s _ t _ λ b u.
        let full : leb (length bytes) 127 ≡ false = ground arith in
        let stop : write_rf spi sys st.ctx.s (bytes ++ rest) n u ≡ fault =
          ap (λ k. write_rf spi sys st.ctx.s (bytes ++ rest) k u) (sym e)
          ∙ write_rf-fifo_size spi sys (block fifo_size) st.ctx.s bytes rest u
          ∙ else_branch _ _ fault full in
        rw stop refl

module _ {W : Type 0} (spi : Spi W) (sys : System W) (rounds : ℕ)
    (block : (n : ℕ) → length (sys.malloc n) ≡ n) where
  -- A message of 118 to 250 data bytes makes `tta_send` over the radio access memory out of bounds,
  -- at the latest past the end of the array of 128 bytes in `write_rf`.
  pub rf_send-fault :
      (a b c d tid devid subid cmd : ℕ) (bytes : List ℕ) (st : State Rf W)
      → 117 < length bytes
      → length bytes ≤ 250
      → Api.send sys
          (suc rounds)
          (backend spi sys (suc rounds))
          (message tid devid subid cmd bytes)
          (with_id a b c d st)
        ≡ fault
  unfolding libtta.Core.Api.send send_pkt send_loop
  rf_send-fault a b c d tid devid subid cmd bytes st long fits =
      let buf = sys.malloc max_message_length in
      let room = block max_message_length in
      let packet = frame a b c d devid subid cmd bytes in
      let size : length packet ≡ length bytes + 10 =
        length-with_sums (header a b c d devid subid cmd (length bytes) ++ bytes) ∙ omega arith in
      rw
        (
          conv_ttamsg2pkt-with_id a b c d tid devid subid cmd bytes buf st (omega arith),
          transfer-fault spi sys (suc rounds) block packet (drop (length packet) buf)
              (length bytes + 10) (with_id a b c d st) size (omega arith),
        )
        refl
