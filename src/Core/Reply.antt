-- ===== src/Core/Reply.antt =====
-- `tta_reply` of src/tta.c, from the request to the message that is sent.
use libtta.Base.{ℕ, ◌≡◌, ◌<◌, refl, List, length, bit_or, u8, arith}
use libtta.Context.{State}
use libtta.Link.{System, Backend}
use libtta.Message.Laws.{message, make-message}
use libtta.Core.Api

module _ {D W : Type 0} (sys : System W) (rounds : ℕ) (b : Backend D W) where
  -- `tta_reply` to a message sends the message with its device and sub-device, and its command with
  -- bit 7 set.
  pub reply-send :
      ((n : ℕ) → length (sys.malloc n) ≡ n)
      → (tid devid subid cmd : ℕ) (asked src : List ℕ) (st : State D W) → length src < 256
      → Api.reply sys rounds b (message tid devid subid cmd asked) src (length src) st
        ≡ Api.send sys rounds b (message 0 devid subid (bit_or cmd 0x80) src) st
  unfolding Api.reply
  reply-send sized tid devid subid cmd asked src st h =
      let e : u8 (length src) ≡ length src = omega arith in
      rw (e, make-message sys.malloc sized devid subid (bit_or cmd 0x80) src st) refl
