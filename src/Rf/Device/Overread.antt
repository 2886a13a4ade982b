-- ===== src/Rf/Device/Overread.antt =====
-- A packet over the radio whose length byte says more than `rxfifo` holds.
use libtta.Base.{
  ℕ, zero, suc, ◌+◌, ◌≤◌, ◌<◌, ◌≡◌, refl, Bool, false, ltb, ◌==◌, List, [], ◌∷◌, length, arith,
}
use libtta.Base.Run.{fault}
use libtta.Base.Buffer.{read_bytes, read_bytes-append}
use libtta.Context.{State}
use libtta.Link.{System}
use libtta.Core.Api.{max_message_length}
use libtta.Core.Engine.{receive_pkt, receive_loop}
use libtta.Cc1120.Access.{Spi}
use libtta.Rf.Radio.{Rf}
use libtta.Rf.Device.{link, recv, wait_input}

read_bytes-fault :
    {S : Type 0} (n : ℕ) (xs : List ℕ) (st : S) → length xs < n → read_bytes xs n st ≡ fault
unfolding read_bytes
read_bytes-fault zero xs st h = absurd (omega arith)
read_bytes-fault (suc n) [] st h = refl
read_bytes-fault (suc n) (x ∷ xs) st h = rw (read_bytes-fault n xs st (omega arith)) refl

module _ {W : Type 0} (spi : Spi W) (sys : System W) (rounds : ℕ) where
  -- The state with a packet in `rxfifo`, of which nothing has been read.
  abbrev pub with_fifo : List ℕ → State Rf W → State Rf W
  with_fifo fifo st = record st {
    backend_data = record st.backend_data { rxfifo = fifo; rxfifo_pos = 0 };
  }

  -- Where the packet in `rxfifo`, which has 128 bytes, says that it has 119 to 246 data bytes,
  -- `_tta_receive_pkt` reads past the end of `rxfifo`.
  pub rf_receive-fault :
      (a b c d devid subid cmd len : ℕ) (bytes : List ℕ) (fgtimeout : Bool) (st : State Rf W)
      → length bytes ≡ 120
      → 118 < len
      → len ≤ 246
      → receive_pkt sys rounds
          (link spi sys rounds)
          max_message_length
          fgtimeout
          (with_fifo (a ∷ b ∷ c ∷ d ∷ devid ∷ subid ∷ cmd ∷ len ∷ bytes) st)
        ≡ fault
  unfolding receive_pkt receive_loop wait_input recv
  rf_receive-fault a b c d devid subid cmd len bytes fgtimeout st size long fits =
      let front = a ∷ b ∷ c ∷ d ∷ devid ∷ subid ∷ cmd ∷ len ∷ [] in
      let fifo = a ∷ b ∷ c ∷ d ∷ devid ∷ subid ∷ cmd ∷ len ∷ bytes in
      let short : ltb 256 (8 + (len + 2)) ≡ false = ground arith in
      let more : (len + 2 == 0) ≡ false = ground arith in
      let past : (u : State Rf W) → read_bytes bytes (len + 2) u ≡ fault =
        λ u. read_bytes-fault (len + 2) bytes u (omega arith) in
      simp (read_bytes-append 8 front bytes (with_fifo fifo st) refl, short, more, past) refl
