-- ===== src/Rs485/Device/Keeps.antt =====
-- The functions of the RS485 table keep what does not depend on the settings that were found on the
-- line before.
use libtta.Base.{
  ℕ, zero, suc, ◌≡◌, ap, ℤ, Bool, true, false, ◌==◌, ==_iff, Bool-cases, inl, inr, Option, none,
  some, List, arith,
}
use libtta.Base.Run.{Outcome, ok, fault, stuck, Returns, modify, pure, then_run, ◌>>=◌}
use libtta.Context.{State, Rc, Timeval}
use libtta.Context.Keeps.{
  Keeps, Left, keeps_rules, Keeps-unless, Keeps-given, Keeps-bind, Keeps-next, Keeps-gets,
  Keeps-call, Keeps-ask, Keeps-act, Keeps-pure,
}
use libtta.Context.Keeps.Arrays.{array_rules, check_sums-Keeps}
use libtta.Wait.Keeps.{select_loop-Keeps}
use libtta.Link.{System}
use libtta.Message.{Ttamsg}
use libtta.Core.Keeps.{LinkKeeps, receive_pkt-Keeps}
use libtta.Core.Sound.{IsCalm}
use libtta.Core.Session.{BackendKeeps}
use libtta.Rs485.Termios.{Termios, cleared, speed_of, line_settings}
use libtta.Rs485.Port.{
  Serial, Rs485, wait_tx, after_write, write_uart, ioctl_rts, send, recv, flush, close, wait_input,
}
use libtta.Rs485.Packet.{check_integrity, pre_check_confirmation, conv_pkt2ttamsg, conv_ttamsg2pkt}
use libtta.Rs485.Device.{set_fd, give_up, configure, connect, note_ignored, link, receive, backend}
use libtta.Rs485.Device.Flag.{SerialLaws, receive_pkt-IsNotZero}
use libtta.Packet.Check.{IsNotZero}
use libtta.Core.Api.{max_message_length}
use libtta.Core.Engine.{receive_pkt}

module _ {W : Type 0} (os : Serial W) (P : Rs485 → Type 0)
    (steady : (d : Rs485) (old : Termios) → P d → P (record d { old_tios = old })) where
  wait_tx-Keeps : (left : ℕ) (s : ℤ) → Keeps P (wait_tx os left s)
  unfolding wait_tx
  wait_tx-Keeps zero s = search keeps_rules
  wait_tx-Keeps (suc left) s = Keeps-bind _ _ (Keeps-ask (os.tiocsergetlsr s)) λ txempty.
      Keeps-unless (txempty == 0) _ _ (Keeps-pure true)
        (Keeps-bind _ _ (Keeps-act (os.usleep 100)) (λ _. wait_tx-Keeps left s))

  after_write-Keeps : (s : ℤ) (rc : Rc) → Keeps P (after_write os s rc)
  unfolding after_write
  after_write-Keeps s none = search keeps_rules
  after_write-Keeps s (some n) = search (keeps_rules, wait_tx-Keeps)

  write_uart-Keeps : (s : ℤ) (buf : List ℕ) (n : ℕ) → Keeps P (write_uart os s buf n)
  unfolding write_uart
  write_uart-Keeps s buf n = search (array_rules, after_write-Keeps) depth 12

  ioctl_rts-Keeps : (s : ℤ) (on : Bool) → Keeps P (ioctl_rts os s on)
  unfolding ioctl_rts
  ioctl_rts-Keeps s on = search keeps_rules depth 12

  send-Keeps : (pkt : List ℕ) (n : ℕ) → Keeps P (send os pkt n)
  unfolding send
  send-Keeps pkt n = search (array_rules, write_uart-Keeps, ioctl_rts-Keeps) depth 20

  recv-Keeps : (n : ℕ) → Keeps P (recv os n)
  unfolding recv
  recv-Keeps n = search keeps_rules depth 10

  flush-Keeps : Keeps P (flush os)
  unfolding flush
  flush-Keeps = search keeps_rules depth 10

  close-Keeps : Keeps P (close os)
  unfolding close
  close-Keeps = search keeps_rules depth 10

  wait_input-Keeps : (rounds : ℕ) (tv : Option Timeval) → Keeps P (wait_input os rounds tv)
  unfolding wait_input
  wait_input-Keeps rounds tv = search (keeps_rules, select_loop-Keeps P os.select)

  set_fd-Keeps : (s : ℤ) → Keeps P (set_fd os s)
  set_fd-Keeps s = record { at = λ st h. h }

  give_up-Keeps : (s : ℤ) → Keeps P (give_up os s)
  unfolding give_up
  give_up-Keeps s = search (keeps_rules, set_fd-Keeps) depth 10

  check_integrity-Keeps : (pkt : List ℕ) (n : ℕ) → Keeps P (check_integrity os pkt n)
  unfolding check_integrity
  check_integrity-Keeps pkt n = check_sums-Keeps (flush os) pkt n flush-Keeps

  noted_tios-Keeps :
      (old : Termios)
      → Keeps {W = W} P
          (modify (λ st. record st { backend_data = record st.backend_data { old_tios = old } }))
  noted_tios-Keeps old = record { at = λ st h. steady st.backend_data old h }

  configure-Keeps : (s : ℤ) → Keeps P (configure os s)
  unfolding configure
  configure-Keeps s = Keeps-bind _ _ (Keeps-ask (os.tcgetattr s)) λ old.
      Keeps-next _ _ (noted_tios-Keeps old) (
        Keeps-bind _ _ (Keeps-gets (λ st. st.backend_data)) λ d.
          Keeps-given (os.cfsetispeed cleared (speed_of d.baud)) _ _ (give_up-Keeps s) λ tios1.
            Keeps-given (os.cfsetospeed tios1 (speed_of d.baud)) _ _ (give_up-Keeps s) λ tios2.
              Keeps-bind _ _
                (Keeps-call (os.tcsetattr s (line_settings d.data_bit d.stop_bit d.parity tios2)))
                λ set.
                  Keeps-given set _ _ (give_up-Keeps s)
                    λ n. Keeps-bind _ _ (Keeps-act (os.tiocmbic_rts s)) λ _. Keeps-pure (some 0))

  connect-Keeps : Keeps P (connect os)
  unfolding connect
  connect-Keeps = search (keeps_rules, set_fd-Keeps, configure-Keeps) depth 12

pre_check_confirmation-Keeps :
    {W : Type 0} (P : Rs485 → Type 0) (req rsp : List ℕ) (n : ℕ)
    → Keeps {W = W} P (pre_check_confirmation req rsp n)
unfolding pre_check_confirmation
pre_check_confirmation-Keeps P req rsp n = search keeps_rules depth 12

conv_pkt2ttamsg-Keeps :
    {W : Type 0} (P : Rs485 → Type 0) (pkt : List ℕ) (n : ℕ)
    → Keeps {W = W} P (conv_pkt2ttamsg pkt n)
unfolding conv_pkt2ttamsg
conv_pkt2ttamsg-Keeps P pkt n = search array_rules depth 12

conv_ttamsg2pkt-Keeps :
    {W : Type 0} (P : Rs485 → Type 0) (msg : Ttamsg) (pkt : List ℕ)
    → Keeps {W = W} P (conv_ttamsg2pkt msg pkt)
unfolding conv_ttamsg2pkt
conv_ttamsg2pkt-Keeps P msg pkt = search array_rules depth 30

module _ {W : Type 0} (os : Serial W) (P : Rs485 → Type 0)
    (steady : (d : Rs485) (old : Termios) → P d → P (record d { old_tios = old }))
    (clear : (d : Rs485) → P d → d.confirmation_to_ignore ≡ false) (sys : System W) (rounds : ℕ)
    (calm : IsCalm sys rounds) (laws : SerialLaws os rounds) where
  pub link-Keeps : LinkKeeps P (link os rounds)
  link-Keeps = record {
    connect = connect-Keeps os P steady;
    close = close-Keeps os P steady;
    send = send-Keeps os P steady;
    recv = recv-Keeps os P steady;
    flush = flush-Keeps os P steady;
    select = λ tv n. wait_input-Keeps os P steady rounds tv;
    check_integrity = check_integrity-Keeps os P steady;
  }

  noted-Left :
      (o : Outcome ((Rc × List ℕ) × State Rs485 W))
      → Returns o (λ r t. IsNotZero r.0 t)
      → Left P o
      → Left {A = Rc × List ℕ} P
          (then_run o (λ r. note_ignored os sys rounds r.0 >>= λ _. pure (r.0, r.1)))
  noted-Left (ok ((none, pkt), t)) nz h = h
  noted-Left (ok ((some n, pkt), t)) nz h = elim (Bool-cases (n == 0)) [
    | inl z ↦ absurd (nz (ap some ((==_iff n 0).0 z)))
    | inr z ↦ rw (z, Left) h
  ]
  noted-Left fault nz h = absurd nz
  noted-Left stuck nz h = absurd nz

  pub receive-Keeps : (fgtm : Bool) → Keeps P (receive os sys rounds max_message_length fgtm)
  unfolding receive
  receive-Keeps fgtm = record {
    at = λ st h.
        let packet = receive_pkt sys rounds (link os rounds) max_message_length fgtm in
        simp (clear st.backend_data h) (
          noted-Left (packet st)
            (receive_pkt-IsNotZero sys os rounds max_message_length calm laws (omega arith) fgtm st)
            ((receive_pkt-Keeps P sys rounds (link os rounds) link-Keeps max_message_length fgtm).at
              st h));
  }

  pub backend-Keeps : BackendKeeps P (backend os sys rounds)
  backend-Keeps = record {
    link = link-Keeps;
    receive = receive-Keeps;
    pre_check = pre_check_confirmation-Keeps P;
    conv_pkt2ttamsg = conv_pkt2ttamsg-Keeps P;
    conv_ttamsg2pkt = conv_ttamsg2pkt-Keeps P;
  }
