-- ===== src/Core/Recovery.antt =====
-- The error recovery of src/tta.c: it ends, and it leaves `errno` as it was.
use libtta.Base.{ℕ, zero, suc, ◌<◌, ◌≡◌, refl, arith, ◌&&◌}
use libtta.Base.Run.{Outcome, M, Returns, Returns-then, Returns-if, Returns-when, pure, then_run}
use libtta.Context.{Errno, State, recovers_link, set_errno, eintr}
use libtta.Link.{System, Sleep, slept, interrupted, failed, Link}
use libtta.Core.Engine.{
  flush, woken, sleep_loop, sleep_and_flush, reconnect, send_recovery, select_recovery,
  recv_recovery, send_lost_link, recv_lost_link, is_etimedout, is_ebadf,
}
use libtta.Core.Sound.{IsCalm, IsSound}

module _ {D W : Type 0} (sys : System W) (rounds : ℕ) (link : Link D W) (cap : ℕ)
    (calm : IsCalm sys rounds) (sound : IsSound link cap) where
  woken-Returns :
      (f sec nsec : ℕ) (st : State D W) (rest : ℕ → ℕ → M (State D W) (Unit {0})) (r : Sleep × W)
      → ((a b : ℕ) (t : State D W) → calm.signals t.world < f → Returns (rest a b t) (λ _ _. Unit))
      → calm.signals st.world < suc f
      → sys.nanosleep sec nsec st.world ≡ r
      → Returns (woken sys rounds link r st rest) (λ _ _. Unit)
  woken-Returns f sec nsec st rest (slept, w) ih h e = tt
  woken-Returns f sec nsec st rest (interrupted a b, w) ih h e =
      ih a b (record st { world = w; errno = eintr })
        (omega (arith, calm.signals_fall sec nsec a b st.world w e))
  woken-Returns f sec nsec st rest (failed x, w) ih h e = tt

  sleep_loop-Returns :
      (f sec nsec : ℕ) (st : State D W)
      → calm.signals st.world < f
      → Returns (sleep_loop sys rounds link f sec nsec st) (λ _ _. Unit)
  unfolding sleep_loop
  sleep_loop-Returns zero sec nsec st h = absurd (omega arith)
  sleep_loop-Returns (suc f) sec nsec st h =
      woken-Returns f sec nsec st (sleep_loop sys rounds link f) (sys.nanosleep sec nsec st.world)
        (sleep_loop-Returns f) h refl

  pub sleep_and_flush-Returns :
      (st : State D W) → Returns (sleep_and_flush sys rounds link st) (λ _ _. Unit)
  unfolding sleep_and_flush flush
  sleep_and_flush-Returns st =
      Returns-then (λ _ _. Unit) (λ _ _. Unit) _ _
        (sleep_loop-Returns rounds _ _ st (calm.signals-lt st.world))
        (λ a s _. sound.flush_returns s)

  reconnect-Returns : (st : State D W) → Returns (reconnect sys rounds link st) (λ _ _. Unit)
  unfolding reconnect
  reconnect-Returns st =
      Returns-then (λ _ _. Unit) (λ _ _. Unit) _ _ (sound.close_returns st)
        λ _ s _. Returns-then (λ _ _. Unit) (λ _ _. Unit) _ _ (sound.connect_returns s) λ _ t _. tt

  sleep_and_flush_tt :
      (st : State D W)
      → Returns (then_run (sleep_and_flush sys rounds link st) (λ _. pure tt)) (λ _ _. Unit)
  sleep_and_flush_tt st =
      Returns-then (λ _ _. Unit) (λ _ _. Unit) _ _ (sleep_and_flush-Returns st) (λ _ s _. tt)

  -- `errno = saved_errno` at the end, whatever came before.
  restored :
      (e : Errno) (o : Outcome (Unit {0} × State D W))
      → Returns o (λ _ _. Unit)
      → Returns (then_run o (λ _. set_errno e)) (λ _ st'. st'.errno ≡ e)
  restored e o h = Returns-then (λ _ _. Unit) (λ _ st'. st'.errno ≡ e) _ _ h (λ _ s _. refl)

  -- The recovery after a failed write.
  pub send_recovery-errno :
      (st : State D W) → Returns (send_recovery sys rounds link st) (λ _ st'. st'.errno ≡ st.errno)
  unfolding send_recovery
  send_recovery-errno st =
      Returns-when (λ _ st'. st'.errno ≡ st.errno) (recovers_link st.ctx) _ st
        (restored st.errno _ (
          Returns-if (λ _ _. Unit) (send_lost_link st.errno) _ _ st (reconnect-Returns st)
            (sleep_and_flush_tt st)))
        refl

  -- The recovery after a failed `select`.
  pub select_recovery-errno :
      (st : State D W)
      → Returns (select_recovery sys rounds link st) (λ _ st'. st'.errno ≡ st.errno)
  unfolding select_recovery
  select_recovery-errno st =
      Returns-when (λ _ st'. st'.errno ≡ st.errno) (recovers_link st.ctx) _ st
        (restored st.errno _ (
          Returns-if (λ _ _. Unit) (is_etimedout st.errno) _ _ st (sleep_and_flush_tt st)
            (Returns-when (λ _ _. Unit) (is_ebadf st.errno) _ st (reconnect-Returns st) tt)))
        refl

  -- The recovery after a failed read.
  pub recv_recovery-errno :
      (st : State D W) → Returns (recv_recovery sys rounds link st) (λ _ st'. st'.errno ≡ st.errno)
  unfolding recv_recovery
  recv_recovery-errno st =
      Returns-when (λ _ st'. st'.errno ≡ st.errno) (recovers_link st.ctx && recv_lost_link st.errno)
        _ st (restored st.errno _ (reconnect-Returns st)) refl

  -- Over a transport that keeps its part, and where sleeps end, the recoveries after a failed write,
  -- after a failed `select` and after a failed read end, and `errno` is what the failure left.
  pub recovery-errno :
      (st : State D W)
      → Returns (send_recovery sys rounds link st) (λ _ t. t.errno ≡ st.errno)
        × Returns (select_recovery sys rounds link st) (λ _ t. t.errno ≡ st.errno)
        × Returns (recv_recovery sys rounds link st) (λ _ t. t.errno ≡ st.errno)
  recovery-errno st = (send_recovery-errno st, select_recovery-errno st, recv_recovery-errno st)
