-- ===== src/Rs485/Device/Flag.antt =====
-- The table of the RS485 transport keeps what the engine asks of it, and what `_tta_rs485_receive`
-- returns.
use libtta.Base.{
  ℕ, ◌≤◌, ◌≡◌, ◌≢◌, refl, sym, ◌∙◌, inl, inr, ℤ, pos, Bool, false, Bool-cases, Option, none, some,
  List, length, ◌==◌, ==_iff, ap, arith,
}
use libtta.Base.Run.{
  Returns, Returns-then, Returns-option, Ends, Returns-weaken, Returns-elim, then_run, pure,
}
use libtta.Context.{State, Rc, Timeval}
use libtta.Syscall.{Syscall, Reading, done, bytes, as_bytes, as_rc}
use libtta.Link.{System}
use libtta.Wait.Laws.{IsQuiet, Waited, select_loop-Waited}
use libtta.Core.Sound.{IsCalm, IsSound, IsFrame, Fits}
use libtta.Core.Engine.{receive_pkt}
use libtta.Core.Receive.{Accepted, receive_pkt-Accepted}
use libtta.Packet.Check.{IsNotZero, check_sums-IsNotZero}
use libtta.Rs485.Termios.{cleared, speed_of, line_settings}
use libtta.Rs485.Port.{Serial, Rs485, flush, close, recv, wait_input}
use libtta.Rs485.Packet.{check_integrity}
use libtta.Rs485.Device.{note_ignored, give_up, configure, connect, link, receive}

-- What the transport relies on from the system: signals end, and a read gives at most as many bytes
-- as were asked for.
pub record SerialLaws {W : Type 0} (os : Serial W) (rounds : ℕ) : Type 0 where
  pub quiet : IsQuiet os.select rounds
  pub read_fits :
      (s : ℤ) (n : ℕ) (bs : List ℕ) (w w' : W) → os.read s n w ≡ (bytes bs, w') → length bs ≤ n

module _ {W : Type 0} (os : Serial W) where
  as_rc-Ends : {D : Type 0} (r : Syscall × W) (st : State D W) → Ends (as_rc r st)
  as_rc-Ends (done n, w) st = tt
  as_rc-Ends (Syscall.failed x, w) st = tt

  pub flush-Ends : (st : State Rs485 W) → Ends (flush os st)
  unfolding flush
  flush-Ends st = as_rc-Ends (os.tcflush st.ctx.s st.world) st

  close-Ends : (st : State Rs485 W) → Ends (close os st)
  unfolding close
  close-Ends st =
      Returns-then (λ _ _. Unit) (λ _ _. Unit) _ _
        (as_rc-Ends (os.tcsetattr st.ctx.s st.backend_data.old_tios st.world) st) (λ _ _ _. tt)

  give_up-Ends : (s : ℤ) (st : State Rs485 W) → Ends (give_up os s st)
  unfolding give_up
  give_up-Ends s st = tt

  configure-Ends : (s : ℤ) (st : State Rs485 W) → Ends (configure os s st)
  unfolding configure
  configure-Ends s st =
      Returns-option (λ _ _. Unit) (os.cfsetispeed cleared (speed_of st.backend_data.baud)) _ _ _ tt
        λ tios1.
          Returns-option (λ _ _. Unit) (os.cfsetospeed tios1 (speed_of st.backend_data.baud)) _ _ _
            tt
            λ tios2.
              Returns-then (λ _ _. Unit) (λ _ _. Unit) _ _
                (as_rc-Ends
                  (os.tcsetattr s
                    (line_settings st.backend_data.data_bit st.backend_data.stop_bit
                      st.backend_data.parity tios2)
                    _)
                  _)
                (λ rc t _. Returns-option (λ _ _. Unit) rc _ _ t tt (λ n. tt))

  connect-Ends : (st : State Rs485 W) → Ends (connect os st)
  unfolding connect
  connect-Ends st =
      Returns-then (λ _ _. Unit) (λ _ _. Unit) _ _
        (as_rc-Ends (os.open_device st.backend_data.device st.world) st)
        (λ rc t _.
          Returns-option (λ _ _. Unit) rc _ _ t tt
            (λ n. configure-Ends (pos n) (record t { ctx = record t.ctx { s = pos n } })))

module _ {W : Type 0} (os : Serial W) (rounds : ℕ) (laws : SerialLaws os rounds) where
  as_bytes-Fits :
      (s : ℤ) (n : ℕ) (r : Reading × W) (st : State Rs485 W)
      → os.read s n st.world ≡ r
      → Returns (as_bytes r st) (λ r _. Fits r n)
  as_bytes-Fits s n (bytes bs, w) st e = laws.read_fits s n bs st.world w e
  as_bytes-Fits s n (Reading.failed x, w) st e = tt

  recv-Fits : (n : ℕ) (st : State Rs485 W) → Returns (recv os n st) (λ r _. Fits r n)
  unfolding recv
  recv-Fits n st = as_bytes-Fits st.ctx.s n (os.read st.ctx.s n st.world) st refl

  wait_input-Ends : (tv : Option Timeval) (st : State Rs485 W) → Ends (wait_input os rounds tv st)
  unfolding wait_input
  wait_input-Ends tv st =
      Returns-weaken (Waited st) (λ _ _. Unit) _
        (select_loop-Waited os.select rounds laws.quiet st.ctx.s tv st) (λ _ _ _. tt)

  check-IsNotZero :
      (pkt : List ℕ) (st : State Rs485 W)
      → IsFrame (link os rounds) pkt
      → Returns (check_integrity os pkt (length pkt) st) IsNotZero
  unfolding check_integrity
  check-IsNotZero pkt st (len, found, e) =
      check_sums-IsNotZero (flush os) (flush-Ends os) pkt st (omega arith)

  -- Where signals end and reads fit what was asked for, the table of the RS485 transport keeps what
  -- the engine relies on, with every packet buffer of 256 bytes at least.
  pub link-IsSound : (cap : ℕ) → 256 ≤ cap → IsSound (link os rounds) cap
  link-IsSound cap le = record {
    header_pos = omega arith;
    header_fits = omega arith;
    adu_fits = le;
    connect_returns = connect-Ends os;
    close_returns = close-Ends os;
    flush_returns = flush-Ends os;
    select_returns = λ tv n st. wait_input-Ends tv st;
    recv_returns = recv-Fits;
    check_returns = λ pkt st frame.
        Returns-weaken {A = Rc} {S = State Rs485 W} IsNotZero (λ _ _. Unit) _
          (check-IsNotZero pkt st frame) (λ _ _ _. tt);
  }

module _ {W : Type 0} (sys : System W) (os : Serial W) (rounds cap : ℕ) (calm : IsCalm sys rounds)
    (laws : SerialLaws os rounds) (room : 256 ≤ cap) where
  received-IsNotZero :
      (r : Rc × List ℕ) (t : State Rs485 W)
      → Accepted sys rounds (link os rounds) cap calm (link-IsSound os rounds laws cap room) r
      → IsNotZero r.0 t
  received-IsNotZero (rc, pkt) t (small, inl e) = λ h. none≢some 0 (sym e ∙ h)
    where
      none≢some : (n : ℕ) → none ≢ some n
      none≢some n e = cc
  received-IsNotZero (rc, pkt) t (small, inr (frame, (u, u', e))) =
      Returns-elim IsNotZero (check_integrity os pkt (length pkt) u)
        (check-IsNotZero os rounds laws pkt u frame) e

  pub receive_pkt-IsNotZero :
      (fgtimeout : Bool) (st : State Rs485 W)
      → Returns (receive_pkt sys rounds (link os rounds) cap fgtimeout st) (λ r t. IsNotZero r.0 t)
  receive_pkt-IsNotZero fgtimeout st =
      Returns-weaken
        (λ r _.
          Accepted sys rounds (link os rounds) cap calm (link-IsSound os rounds laws cap room) r)
        (λ r t. IsNotZero r.0 t) (receive_pkt sys rounds (link os rounds) cap fgtimeout st)
        (receive_pkt-Accepted sys rounds (link os rounds) cap calm
          (link-IsSound os rounds laws cap room) fgtimeout st)
        received-IsNotZero

  -- Where no confirmation is to be ignored, signals and sleeps end, and reads fit what was asked
  -- for, `receive` of the transport returns, with -1 or with
  -- the verdict of the integrity check on a whole packet of at most 256 bytes; it never returns
  -- the length 0, after which it would ignore the next message.
  pub receive-IsNotZero :
      (fgtimeout : Bool) (st : State Rs485 W)
      → st.backend_data.confirmation_to_ignore ≡ false
      → Returns (receive os sys rounds cap fgtimeout st) (λ r _.
        Accepted sys rounds (link os rounds) cap calm (link-IsSound os rounds laws cap room) r
        × IsNotZero r.0 st)
  unfolding receive
  receive-IsNotZero fgtimeout st clear = simp clear (
      Returns-then
        (λ r _.
          Accepted sys rounds (link os rounds) cap calm (link-IsSound os rounds laws cap room) r)
        (λ r _.
          Accepted sys rounds (link os rounds) cap calm (link-IsSound os rounds laws cap room) r
          × IsNotZero r.0 st)
        _ _
        (receive_pkt-Accepted sys rounds (link os rounds) cap calm
          (link-IsSound os rounds laws cap room) fgtimeout st)
        noted)
    where
      noted :
          (r : Rc × List ℕ) (t : State Rs485 W)
          → Accepted sys rounds (link os rounds) cap calm (link-IsSound os rounds laws cap room) r
          → Returns (then_run (note_ignored os sys rounds r.0 t) (λ _. pure (r.0, r.1))) (λ r _.
            Accepted sys rounds (link os rounds) cap calm (link-IsSound os rounds laws cap room) r
            × IsNotZero r.0 st)
      noted (none, pkt) t h = (h, received-IsNotZero (none, pkt) t h)
      noted (some n, pkt) t h =
          let ne = received-IsNotZero (some n, pkt) t h in
          elim (Bool-cases (n == 0)) [
            | inl z ↦ absurd (ne (ap some ((==_iff n 0).0 z)))
            | inr z ↦ rw (z, Returns) (h, ne)
          ]
