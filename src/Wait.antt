-- ===== src/Wait.antt =====
-- The wait for input that the transports share: `select`, again after each signal. It is written
-- out in `_tta_rs485_select` and in `_tta_tcp_select`.
pub mod Laws
pub mod Stream
pub mod Keeps
use libtta.Base.{ℕ, zero, suc, ℤ, Option, none, some}
use libtta.Base.Run.{M, Outcome, ok, stuck, gets, ◌>>=◌}
use libtta.Context.{Errno, etimedout, eintr, Timeval, State, Rc, fail_with}
use libtta.Syscall.{Syscall, done, failed}

module _ {D W : Type 0} (select : ℤ → Option Timeval → W → Syscall × (Option Timeval × W)) where
  abbrev pub after_signal :
      Errno → Option Timeval → W → (Option Timeval → M (State D W) Rc) → M (State D W) Rc
  after_signal eintr tv w again st = again tv (record st { world = w; errno = eintr })
  after_signal e tv w again st = ok (none, record st { world = w; errno = e })

  -- What follows a `select`: `again` is the loop's next round, after a signal.
  abbrev pub selected :
      Syscall × (Option Timeval × W) → (Option Timeval → M (State D W) Rc) → M (State D W) Rc
  selected (done zero, (tv, w)) again st = fail_with etimedout (record st { world = w })
  selected (done (suc n), (tv, w)) again st = ok (some (suc n), record st { world = w })
  selected (failed e, (tv, w)) again st = after_signal e tv w again st

  unfoldable pub select_loop : ℕ → ℤ → Option Timeval → M (State D W) Rc
  select_loop zero s tv = λ st. stuck
  select_loop (suc f) s tv = λ st. selected (select s tv st.world) (select_loop f s) st
