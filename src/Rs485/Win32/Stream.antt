-- ===== src/Rs485/Win32/Stream.antt =====
-- The wait and the read of the Windows branches: together they hand over the bytes of the line, each
-- once and in order, as long as a read asks for what the wait before it asked for.
use libtta.Base.{
  ℕ, ◌+◌, ◌-◌, ◌≤◌, ◌<◌, ◌≡◌, refl, sym, ap, ◌∙◌, true, false, some, ltb, if◌then◌else◌, Option,
  List, [], ◌++◌, length, take, drop, length-take, length-drop, length-append, take-append, arith,
}
use libtta.Base.Run.{M, ok, Returns, pure, ◌>>=◌}
use libtta.Base.Buffer.{overwrite, copy_bytes-overwrite, read_bytes-take}
use libtta.Context.{State, Timeval}
use libtta.Core.Stream.{Ready, Taken, Delivers}
use libtta.Rs485.Win32.{
  Windows, WinRs485, Win32Ser, Handle, CommTimeouts, msec_of, timeouts, py_buf_size, filled,
  win32_ser_read, win32_ser_select, select, recv, link,
}

-- While bytes are on the line, `ReadFile` gives some of them from the front.
pub record WindowsStream {W : Type 0} (os : Windows W) : Type 0 where
  pub line : W → List ℕ
  pub timeouts_line :
      (h : Handle) (t : CommTimeouts) (w : W) → line (os.set_comm_timeouts h t w) ≡ line w
  pub read_some :
      (h : Handle) (n : ℕ) (w : W)
      → 0 < n
      → 0 < length (line w)
      → (bs : List ℕ) × (w' : W) × (os.read_file h n w ≡ (some bs, w'))
        × (0 < length bs)
        × (length bs ≤ n)
        × (line w ≡ bs ++ line w')

module _ {W : Type 0} (os : Windows W) (stream : WindowsStream os) where
  -- What has been read ahead, and what is on the line.
  abbrev pub pending : State WinRs485 W → List ℕ
  pending st = take st.backend_data.w_ser.n_bytes st.backend_data.w_ser.buf ++ stream.line st.world

  abbrev pub IsIdle : State WinRs485 W → Type 0
  IsIdle st = (st.backend_data.w_ser.n_bytes ≡ 0) × (length st.backend_data.w_ser.buf ≡ py_buf_size)

  -- No more is read ahead than the read will ask for.
  abbrev pub IsAhead : ℕ → State WinRs485 W → Type 0
  IsAhead n st =
      (0 < st.backend_data.w_ser.n_bytes)
      × (st.backend_data.w_ser.n_bytes ≤ n)
      × (st.backend_data.w_ser.n_bytes ≤ py_buf_size)
      × (length st.backend_data.w_ser.buf ≡ py_buf_size)

  abbrev at_most : ℕ → ℕ
  at_most n = if ltb py_buf_size n then py_buf_size else n

  at_most_bounds : (n : ℕ) → 0 < n → (0 < at_most n) × (at_most n ≤ n) × (at_most n ≤ py_buf_size)
  at_most_bounds n h = ground arith

  -- What has been read into the buffer.
  abbrev read_ahead : Win32Ser → List ℕ → Win32Ser
  read_ahead ws bs = record ws { buf = overwrite ws.buf bs; n_bytes = length bs }

  abbrev with_ser : State WinRs485 W → Win32Ser → W → State WinRs485 W
  with_ser st ws w = record st { backend_data = record st.backend_data { w_ser = ws }; world = w }

  filled-read_ahead :
      (ws : Win32Ser) (bs : List ℕ) (st : State WinRs485 W)
      → 0 < length bs
      → length bs ≤ length ws.buf
      → filled ws (some bs) st ≡ ok (some 1, with_ser st (read_ahead ws bs) st.world)
  unfolding filled
  filled-read_ahead ws bs st pos room =
      let some_read : ltb 0 (length bs) ≡ true = ground arith in
      rw (copy_bytes-overwrite bs ws.buf [] 0 st refl (omega arith), some_read) refl

  pub select-Ready :
      (tv : Option Timeval) (n : ℕ) (st : State WinRs485 W)
      → IsIdle st
      → 0 < n
      → 0 < length (pending st)
      → Returns (select os tv n st) (Ready pending (IsAhead n) (pending st))
  unfolding select win32_ser_select
  select-Ready tv n st (none_read, full) pos more =
      let ws = st.backend_data.w_ser in
      let w1 = os.set_comm_timeouts ws.fd (timeouts (msec_of tv)) st.world in
      let k = at_most n in
      let (k_pos, k_le, k_room) = at_most_bounds n pos in
      let same : stream.line w1 ≡ stream.line st.world = stream.timeouts_line ws.fd _ st.world in
      let nothing : take ws.n_bytes ws.buf ≡ [] = ap (λ m. take m ws.buf) none_read in
      let all : pending st ≡ stream.line st.world = ap (λ l. l ++ stream.line st.world) nothing in
      let (bs, w2, run, some_read, le, q) =
        stream.read_some ws.fd k w1 k_pos (omega (arith, ap length same, ap length all)) in
      let empty : ltb 0 ws.n_bytes ≡ false = ground arith in
      let front : take (length bs) (overwrite ws.buf bs) ≡ bs = take-append (length bs) bs _ refl in
      simp
        (
          empty,
          run,
          filled-read_ahead ws bs (record st { world = w2 }) some_read (omega arith),
          Returns,
        )
        (
          ap (λ l. l ++ stream.line w2) front ∙ sym q ∙ same ∙ sym all,
          (
            some_read,
            omega arith,
            omega arith,
            omega
                (arith, length-append bs (drop (length bs) ws.buf), length-drop (length bs) ws.buf),
          ),
        )

  pub recv-Taken :
      (n : ℕ) (st : State WinRs485 W)
      → IsAhead n st
      → Returns (recv os n st) (Taken pending IsIdle n (pending st))
  unfolding recv win32_ser_read
  recv-Taken n st (pos, le, room, full) =
      let ws = st.backend_data.w_ser in
      let short : ltb n ws.n_bytes ≡ false = ground arith in
      let none_left : ws.n_bytes - ws.n_bytes ≡ 0 = omega arith in
      let size : length (take ws.n_bytes ws.buf) ≡ ws.n_bytes =
        omega (arith, length-take ws.n_bytes ws.buf) in
      simp (short, read_bytes-take ws.n_bytes ws.buf st (omega arith), none_left, Returns)
        (omega (arith, size), omega (arith, size), refl, (refl, full))

  unfoldable pub link-Delivers : Delivers (link os)
  link-Delivers = record {
    pending = pending;
    idle = IsIdle;
    ready = IsAhead;
    select_waits = λ tv n st idle pos h. select-Ready tv n st idle pos (omega arith);
    recv_takes = λ n st ahead _ _. recv-Taken n st ahead;
  }

unfoldable pub read_twice :
    {W : Type 0} → ℕ → ℕ → M (State WinRs485 W) (Option (List ℕ) × Option (List ℕ))
unfolding win32_ser_read
read_twice a b = do x ← win32_ser_read a; y ← win32_ser_read b; pure (x, y)

-- Two reads of the bytes that one wait has read ahead, where the first asks for less than is there:
-- the second gives the bytes at the start of the buffer again, not those behind the first.
pub win32_ser_read-again :
    {W : Type 0} (a b : ℕ) (st : State WinRs485 W)
    → a + b ≤ st.backend_data.w_ser.n_bytes
    → st.backend_data.w_ser.n_bytes ≤ length st.backend_data.w_ser.buf
    → Returns (read_twice a b st) (λ r t.
      (r ≡ (some (take a st.backend_data.w_ser.buf), some (take b st.backend_data.w_ser.buf)))
      × (t.backend_data.w_ser.n_bytes + (a + b) ≡ st.backend_data.w_ser.n_bytes))
unfolding read_twice
win32_ser_read-again {W} a b st less full =
    let ws = st.backend_data.w_ser in
    let first : (if ltb a ws.n_bytes then a else ws.n_bytes) ≡ a = ground arith in
    let second : (if ltb b (ws.n_bytes - a) then b else ws.n_bytes - a) ≡ b = ground arith in
    simp
      (
        first,
        read_bytes-take a ws.buf st (omega arith),
        second,
        read_bytes-take b ws.buf (set_n_bytes st (ws.n_bytes - a)) (omega arith),
        Returns,
      )
      (refl, omega arith)
  where
    set_n_bytes : State WinRs485 W → ℕ → State WinRs485 W
    set_n_bytes st n = record st {
      backend_data = record st.backend_data {
        w_ser = record st.backend_data.w_ser { n_bytes = n };
      };
    }
