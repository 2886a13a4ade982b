-- ===== src/Core/Keeps.antt =====
-- The engine keeps what the functions of the transport keep: no function of src/tta.c touches the
-- private data itself.
use libtta.Base.{ℕ, zero, suc, Bool, ◌≡◌, refl, Option, none, some, List, [], ◌∷◌}
use libtta.Base.Run.{M}
use libtta.Context.{State, Rc, Timeval, eintr}
use libtta.Context.Keeps.{Keeps, Left, keeps_rules, Keeps-cases}
use libtta.Link.{System, Sleep, slept, interrupted, Link}
use libtta.Core.Engine.{
  Step, step_hd, step_data, step_tail, Rx, flush, woken, sleep_loop, sleep_and_flush,
  compute_data_length_after_hd, reconnect, send_recovery, send_loop, send_pkt, select_recovery,
  recv_recovery, next_step, restart_timer, took, received, selected, round, receive_loop,
  receive_pkt,
}

-- The functions of the table keep `P`.
pub record LinkKeeps {D W : Type 0} (P : D → Type 0) (link : Link D W) : Type 0 where
  pub connect : Keeps P link.connect
  pub close : Keeps P link.close
  pub send : (pkt : List ℕ) (n : ℕ) → Keeps P (link.send pkt n)
  pub recv : (n : ℕ) → Keeps P (link.recv n)
  pub flush : Keeps P link.flush
  pub select : (tv : Option Timeval) (n : ℕ) → Keeps P (link.select tv n)
  pub check_integrity : (pkt : List ℕ) (n : ℕ) → Keeps P (link.check_integrity pkt n)

module _ {D W : Type 0} (P : D → Type 0) (sys : System W) (rounds : ℕ) (link : Link D W)
    (kept : LinkKeeps P link) where
  woken-Left :
      (r : Sleep × W) (st : State D W) (rest : ℕ → ℕ → M (State D W) (Unit {0}))
      → ((a b : ℕ) → Keeps P (rest a b))
      → P st.backend_data
      → Left P (woken sys rounds link r st rest)
  woken-Left (slept, w) st rest k h = h
  woken-Left (interrupted a b, w) st rest k h =
      (k a b).at (record st { world = w; errno = eintr }) h
  woken-Left (Sleep.failed e, w) st rest k h = h

  sleep_loop-Keeps : (f sec nsec : ℕ) → Keeps P (sleep_loop sys rounds link f sec nsec)
  unfolding sleep_loop
  sleep_loop-Keeps zero sec nsec = search keeps_rules
  sleep_loop-Keeps (suc f) sec nsec = record {
    at = λ st h.
        woken-Left (sys.nanosleep sec nsec st.world) st (sleep_loop sys rounds link f)
          (sleep_loop-Keeps f) h;
  }

  pub flush-Keeps : Keeps P (flush sys rounds link)
  unfolding flush
  flush-Keeps = kept.flush

  pub sleep_and_flush-Keeps : Keeps P (sleep_and_flush sys rounds link)
  unfolding sleep_and_flush
  sleep_and_flush-Keeps = search (keeps_rules, sleep_loop-Keeps, flush-Keeps)

  reconnect-Keeps : Keeps P (reconnect sys rounds link)
  unfolding reconnect
  reconnect-Keeps = search (keeps_rules, kept.close, kept.connect)

  send_recovery-Keeps : Keeps P (send_recovery sys rounds link)
  unfolding send_recovery
  send_recovery-Keeps = search (keeps_rules, reconnect-Keeps, sleep_and_flush-Keeps) depth 10

  select_recovery-Keeps : Keeps P (select_recovery sys rounds link)
  unfolding select_recovery
  select_recovery-Keeps = search (keeps_rules, reconnect-Keeps, sleep_and_flush-Keeps) depth 10

  recv_recovery-Keeps : Keeps P (recv_recovery sys rounds link)
  unfolding recv_recovery
  recv_recovery-Keeps = search (keeps_rules, reconnect-Keeps)

  send_loop-Keeps : (f : ℕ) (pkt : List ℕ) (n : ℕ) → Keeps P (send_loop sys rounds link f pkt n)
  unfolding send_loop
  send_loop-Keeps zero pkt n = search keeps_rules
  send_loop-Keeps (suc f) pkt n =
      Keeps-cases _ _ (kept.send pkt n)
        (search (keeps_rules, send_recovery-Keeps, send_loop-Keeps f) depth 10)
        (λ k. search keeps_rules)

  pub send_pkt-Keeps : (pkt : List ℕ) (n : ℕ) → Keeps P (send_pkt sys rounds link pkt n)
  unfolding send_pkt
  send_pkt-Keeps pkt n = search (keeps_rules, send_loop-Keeps) depth 10

  next_step-Keeps : (rx : Rx) → Keeps P (next_step sys rounds link rx)
  unfolding next_step compute_data_length_after_hd
  next_step-Keeps rx = by_step rx.step refl
    where
      by_step : (step : Step) → rx.step ≡ step → Keeps P (next_step sys rounds link rx)
      by_step step_hd e = rw e (search keeps_rules depth 10)
      by_step step_data e = rw e (search keeps_rules)
      by_step step_tail e = rw e (search keeps_rules)

  restart_timer-Keeps : (next : Option Rx) → Keeps P (restart_timer sys rounds link next)
  unfolding restart_timer
  restart_timer-Keeps none = search keeps_rules
  restart_timer-Keeps (some rx) = search keeps_rules

  took-Keeps : (cap : ℕ) (rx : Rx) (bs : List ℕ) → Keeps P (took sys rounds link cap rx bs)
  unfolding took
  took-Keeps cap rx bs = search (keeps_rules, next_step-Keeps, restart_timer-Keeps) depth 10

  received-Keeps :
      (cap : ℕ) (rx : Rx) (r : Option (List ℕ)) → Keeps P (received sys rounds link cap rx r)
  unfolding received
  received-Keeps cap rx none = search (keeps_rules, recv_recovery-Keeps)
  received-Keeps cap rx (some []) = search (keeps_rules, recv_recovery-Keeps)
  received-Keeps cap rx (some (b ∷ bs)) = took-Keeps cap rx (b ∷ bs)

  selected-Keeps : (cap : ℕ) (rx : Rx) (rc : Rc) → Keeps P (selected sys rounds link cap rx rc)
  unfolding selected
  selected-Keeps cap rx none = search (keeps_rules, select_recovery-Keeps)
  selected-Keeps cap rx (some n) = search (keeps_rules, kept.recv, received-Keeps)

  round-Keeps : (cap : ℕ) (rx : Rx) → Keeps P (round sys rounds link cap rx)
  unfolding round
  round-Keeps cap rx = search (keeps_rules, kept.select, selected-Keeps)

  receive_loop-Keeps : (f cap : ℕ) (rx : Rx) → Keeps P (receive_loop sys rounds link f cap rx)
  unfolding receive_loop
  receive_loop-Keeps zero cap rx = search keeps_rules
  receive_loop-Keeps (suc f) cap rx =
      search (keeps_rules, kept.check_integrity, round-Keeps, receive_loop-Keeps f) depth 10

  pub receive_pkt-Keeps : (cap : ℕ) (fg : Bool) → Keeps P (receive_pkt sys rounds link cap fg)
  unfolding receive_pkt
  receive_pkt-Keeps cap fg = search (keeps_rules, receive_loop-Keeps)
