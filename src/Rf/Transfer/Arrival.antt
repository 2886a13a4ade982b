-- ===== src/Rf/Transfer/Arrival.antt =====
-- A packet that arrives while `_tta_rf_receive` polls the chip, and its way into `rxfifo`.
use libtta.Base.{
  ℕ, zero, suc, ◌+◌, ◌-◌, ◌≤◌, ◌<◌, ◌≡◌, refl, sym, ap, ◌∙◌, ℤ, true, false, ltb, ◌==◌, ◌&&◌, some,
  List, [], ◌∷◌, ◌++◌, append_assoc, bit_and, get_elem?, length, length-append, drop, u8, arith,
}
use libtta.Base.Run.{ok, then_run}
use libtta.Base.Buffer.{
  overwrite, copy_bytes, copy_bytes-append, copy_bytes-overwrite, read_bytes-append,
}
use libtta.Context.{Timeval, State}
use libtta.Link.{System}
use libtta.Cc1120.Registers.{num_rxbytes, marcstate, idle_state}
use libtta.Cc1120.Access.{Spi, read_single, fifo_read}
use libtta.Rf.Radio.{Rf, fifo_size, is_past}
use libtta.Rf.Transfer.{keep_packet, take_packet, await_packet}

module _ {W : Type 0} (spi : Spi W) (s : ℤ) where
  -- A read of the register gives `x`.
  abbrev pub Reads : ℕ → W → ℕ → W → Type 0
  Reads addr w x w' = (rest : List ℕ) × (spi.read s addr 1 w ≡ (x ∷ rest, w'))

  read_single-Reads :
      (addr x : ℕ) (st : State Rf W) (w : W)
      → Reads addr st.world x w
      → read_single spi s addr st ≡ ok (x, record st { world = w })
  unfolding read_single
  read_single-Reads addr x st w (rest, e) =
      rw (e, read_bytes-append 1 (x ∷ []) rest (record st { world = w }) refl) refl

-- The polls of the chip until one finds it idle with `n` bytes: `Arrives … n k w w'` is that `k`
-- polls find no packet, and none of them is past the time limit, and that the next one leaves `w'`.
pub data Arrives {W : Type 0} (spi : Spi W) (s : ℤ) (limit : Timeval) (n : ℕ)
    : ℕ → W → W → Type 0 where
  there :
      {w w1 w2 : W}
      → Reads spi s num_rxbytes w n w1
      → Reads spi s marcstate w1 idle_state w2
      → 0 < n
      → Arrives spi s limit n zero w w2
  later :
      {w w1 w2 w3 w' : W} {k numrx state : ℕ} {now : Timeval}
      → Reads spi s num_rxbytes w numrx w1
      → Reads spi s marcstate w1 state w2
      → (ltb 0 numrx && state == idle_state) ≡ false
      → spi.gettimeofday w2 ≡ (now, w3)
      → is_past now limit ≡ false
      → Arrives spi s limit n k (spi.usleep 100000 w3) w'
      → Arrives spi s limit n (suc k) w w'

module _ {W : Type 0} (spi : Spi W) (sys : System W) (rounds : ℕ) (s : ℤ) (limit : Timeval)
    (n : ℕ) where
  -- The polling ends with the packet: enough rounds are one more than the polls that find none.
  pub await_packet-Arrives :
      (f k : ℕ) (w w' : W) (st : State Rf W)
      → Arrives spi s limit n k w w'
      → k < f
      → await_packet spi sys rounds f s limit (record st { world = w })
        ≡ take_packet spi sys rounds s n (record st { world = w' })
  unfolding await_packet
  await_packet-Arrives zero k w w' st h lt = absurd (omega arith)
  await_packet-Arrives (suc f) k w w' st (there {w1 = w1} a b pos) lt =
      let some_read : ltb 0 n ≡ true = ground arith in
      rw
        (
          read_single-Reads spi s num_rxbytes n (record st { world = w }) w1 a,
          read_single-Reads spi s marcstate idle_state (record st { world = w1 }) w' b,
          some_read,
        )
        refl
  await_packet-Arrives (suc f) k w w' st
        (later {w1 = w1} {w2 = w2} {w3 = w3} {k = j} {numrx = numrx} {state = state} a b none_yet c
          e next)
        lt =
      rw
        (
          read_single-Reads spi s num_rxbytes numrx (record st { world = w }) w1 a,
          read_single-Reads spi s marcstate state (record st { world = w1 }) w2 b,
          none_yet,
          c,
          then_run,
          e,
        )
        (await_packet-Arrives f j (spi.usleep 100000 w3) w' st next (omega arith))

-- The bytes that the chip holds for one packet.
abbrev pub held : List ℕ → ℕ → ℕ → List ℕ
held pkt rssi lqi = length pkt ∷ (pkt ++ rssi ∷ lqi ∷ [])

-- The packet is in `rxfifo`, and nothing of it has been read.
abbrev pub stored : {W : Type 0} → List ℕ → State Rf W → W → State Rf W
stored pkt st w = record st {
  backend_data = record st.backend_data {
    rxfifo = overwrite st.backend_data.rxfifo pkt;
    rxfifo_pos = 0;
  };
  world = w;
}

get_elem?-at :
    (i : ℕ) (xs : List ℕ) (y : ℕ) (ys : List ℕ)
    → length xs ≡ i
    → get_elem? (xs ++ y ∷ ys) i ≡ some y
get_elem?-at zero [] y ys e = refl
get_elem?-at (suc i) [] y ys e = absurd (omega arith)
get_elem?-at zero (x ∷ xs) y ys e = absurd (omega arith)
get_elem?-at (suc i) (x ∷ xs) y ys e = get_elem?-at i xs y ys (omega arith)

module _ {W : Type 0} (spi : Spi W) (sys : System W) (rounds : ℕ)
    (room : length (sys.malloc fifo_size) ≡ fifo_size) (s : ℤ) (pkt : List ℕ) (rssi lqi : ℕ)
    (more : List ℕ) where
  pub take_packet-stored :
      (st : State Rf W) (w : W)
      → length pkt ≤ 125
      → length st.backend_data.rxfifo ≡ fifo_size
      → (bit_and lqi 0x80 == 0) ≡ false
      → spi.fifo_read s (length pkt + 3) st.world ≡ (held pkt rssi lqi ++ more, w)
      → take_packet spi sys rounds s (length pkt + 3) st ≡ ok (true, stored pkt st w)
  unfolding take_packet keep_packet fifo_read
  take_packet-stored st w fits size crc e =
      let n = length pkt in
      let fifo = held pkt rssi lqi in
      let small : u8 (n + 3) ≡ n + 3 = omega arith in
      let st' = record st { world = w } in
      let tail = drop (length fifo) (sys.malloc fifo_size) in
      let flat = n ∷ (pkt ++ rssi ∷ lqi ∷ tail) in
      let whole : length fifo ≡ n + 3 = omega (arith, length-append pkt (rssi ∷ lqi ∷ [])) in
      let copied : copy_bytes (sys.malloc fifo_size) 0 fifo (n + 3) st' ≡ ok (flat, st') =
        ap (λ k. copy_bytes (sys.malloc fifo_size) 0 fifo k st') (sym whole)
        ∙ copy_bytes-overwrite fifo (sys.malloc fifo_size) [] 0 st' refl (omega arith)
        ∙ ap (λ l. ok (n ∷ l, st')) (append_assoc pkt (rssi ∷ lqi ∷ []) tail) in
      let strength : get_elem? flat (n + 3 - 2) ≡ some rssi =
        get_elem?-at (n + 3 - 2) (n ∷ pkt) rssi (lqi ∷ tail) (omega arith) in
      let quality : get_elem? flat (n + 3 - 1) ≡ some lqi =
        ap (λ l. get_elem? l (n + 3 - 1)) (sym (append_assoc (n ∷ pkt) (rssi ∷ []) (lqi ∷ tail)))
        ∙ get_elem?-at (n + 3 - 1) ((n ∷ pkt) ++ rssi ∷ []) lqi tail
            (omega (arith, length-append (n ∷ pkt) (rssi ∷ []))) in
      let moved : copy_bytes st.backend_data.rxfifo 0 (pkt ++ rssi ∷ lqi ∷ tail) n st'
          ≡ ok (overwrite st.backend_data.rxfifo pkt, st') =
        copy_bytes-append n pkt (rssi ∷ lqi ∷ tail) st.backend_data.rxfifo 0 st' refl
        ∙ copy_bytes-overwrite pkt st.backend_data.rxfifo [] 0 st' refl (omega arith) in
      let long : ltb (n + 3) 2 ≡ false = ground arith in
      simp
        (
          small,
          e,
          read_bytes-append (n + 3) fifo more st' whole,
          copied,
          long,
          strength,
          quality,
          crc,
          moved,
        )
        refl
