-- ===== src/Rf/Device/Stream.antt =====
-- What `_tta_rf_receive` makes of a packet in `rxfifo`: the bytes that the chip gave are handed to
-- the engine as those of a descriptor are.
use libtta.Base.{
  ℕ, zero, suc, ◌+◌, ◌≤◌, ◌<◌, ◌≡◌, refl, sym, ap, subst, ◌∙◌, Bool, false, ◌==◌, some, List, [],
  ◌∷◌, ◌++◌, append-nil, length, take, drop, length-take, take-append-drop, arith,
}
use libtta.Base.Run.{ok, Returns}
use libtta.Base.Buffer.{read_bytes-take}
use libtta.Context.{State}
use libtta.Link.{System}
use libtta.Message.Laws.{message}
use libtta.Core.Api.{max_message_length}
use libtta.Core.Stream.{Delivers, IsFirst, Taken, receive_pkt-Checks}
use libtta.Packet.Frame.{length-with_sums}
use libtta.Cc1120.Access.{Spi}
use libtta.Rf.Radio.{Rf}
use libtta.Rf.Packet.{check_integrity, conv_pkt2ttamsg}
use libtta.Rf.Packet.Laws.{header, frame, conv_pkt2ttamsg-with_id}
use libtta.Rf.Device.{link, deliver, recv, wait_input}

drop-add : (p n : ℕ) (xs : List ℕ) → drop (p + n) xs ≡ drop n (drop p xs)
drop-add zero n xs = let e : 0 + n ≡ n = omega arith in rw e refl
drop-add (suc p) zero [] = let e : suc p + 0 ≡ suc p = omega arith in rw e refl
drop-add (suc p) (suc n) [] = let e : suc p + suc n ≡ suc (suc (p + n)) = omega arith in rw e refl
drop-add (suc p) n (x ∷ xs) =
    let e : suc p + n ≡ suc (p + n) = omega arith in rw e (drop-add p n xs)

module _ {W : Type 0} (spi : Spi W) (sys : System W) (rounds : ℕ) where
  -- The bytes of `rxfifo` that have not been read.
  abbrev pub unread : State Rf W → List ℕ
  unread st = drop st.backend_data.rxfifo_pos st.backend_data.rxfifo

  recv-Taken :
      (n : ℕ) (st : State Rf W)
      → n ≤ length (unread st)
      → 0 < n
      → Returns (recv spi sys rounds n st) (Taken unread (λ _. Unit) n (unread st))
  unfolding recv
  recv-Taken n st le pos =
      let rf = st.backend_data in
      let size : length (take n (unread st)) ≡ n = omega (arith, length-take n (unread st)) in
      rw (read_bytes-take n (unread st) st le, Returns)
        (
          omega (arith, size),
          omega (arith, size),
          sym (
              ap (λ l. take n (unread st) ++ l) (drop-add rf.rxfifo_pos n rf.rxfifo)
              ∙ take-append-drop n (unread st)),
          tt,
        )

  link-Delivers : Delivers (link spi sys rounds)
  unfolding wait_input
  link-Delivers = record {
    pending = unread;
    idle = λ _. Unit;
    ready = λ n st. n ≤ length (unread st);
    select_waits = λ tv n st _ _ h. (refl, h);
    recv_takes = λ n st h pos _. recv-Taken n st h pos;
  }

module _ {W : Type 0} (spi : Spi W) (sys : System W) (rounds : ℕ) (a b c d devid subid cmd : ℕ)
    (bytes rest : List ℕ) (fits : length bytes ≤ 246) where
  pub length-frame : length (frame a b c d devid subid cmd bytes) ≡ length bytes + 10
  length-frame =
      length-with_sums (header a b c d devid subid cmd (length bytes) ++ bytes) ∙ omega arith

  frame-IsFirst :
      IsFirst (link spi sys rounds) max_message_length (frame a b c d devid subid cmd bytes)
  frame-IsFirst = record {
    len = length bytes;
    found = refl;
    size = omega (arith, length-frame);
    header_pos = omega arith;
    adu = omega (arith, length-frame);
    room = omega arith;
  }

  -- The engine comes to the frame at the front of what has not been read, and the check accepts it.
  pub deliver-frame :
      (fgtimeout : Bool) (st : State Rf W)
      → st.backend_data.confirmation_to_ignore ≡ false
      → unread spi sys rounds st ≡ frame a b c d devid subid cmd bytes ++ rest
      → (t : State Rf W) × (unread spi sys rounds t ≡ rest)
        × (deliver spi sys rounds max_message_length fgtimeout st
            ≡ ok ((some (length bytes + 10), frame a b c d devid subid cmd bytes), t))
  unfolding link-Delivers deliver
  deliver-frame fgtimeout st clear e =
      let whole = frame a b c d devid subid cmd bytes in
      let (t, q, _, run) =
        receive_pkt-Checks sys rounds (link spi sys rounds) max_message_length
          (link-Delivers spi sys rounds) whole rest frame-IsFirst fgtimeout st e tt in
      let checked : check_integrity spi whole (length whole) t ≡ ok (some (length bytes + 10), t) =
        ap (λ n. check_integrity spi whole n t) length-frame
        ∙ (conv_pkt2ttamsg-with_id spi a b c d devid subid cmd bytes t []).0 in
      let nonzero : (length bytes + 10 == 0) ≡ false = ground arith in
      (t, q, simp (clear, run, checked, nonzero) refl)

  pub read-frame :
      (st : State Rf W)
      → conv_pkt2ttamsg (frame a b c d devid subid cmd bytes) (length bytes + 10) st
        ≡ ok (message 0 devid subid cmd bytes, st)
  read-frame st =
      subst
        (λ l. conv_pkt2ttamsg l (length bytes + 10) st ≡ ok (message 0 devid subid cmd bytes, st))
        (append-nil (frame a b c d devid subid cmd bytes))
        (conv_pkt2ttamsg-with_id spi a b c d devid subid cmd bytes st []).1
