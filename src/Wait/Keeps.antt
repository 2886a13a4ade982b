-- ===== src/Wait/Keeps.antt =====
-- The wait for input leaves the private data of the transport alone.
use libtta.Base.{ℕ, zero, suc, ℤ, Option}
use libtta.Base.Run.{M}
use libtta.Context.{Errno, State, Timeval, Rc, eintr}
use libtta.Context.Keeps.{Keeps, Left, keeps_rules}
use libtta.Syscall.{Syscall, done, failed}
use libtta.Wait.{after_signal, selected, select_loop}

module _ {D W : Type 0} (P : D → Type 0)
    (select : ℤ → Option Timeval → W → Syscall × (Option Timeval × W)) where
  after_signal-Left :
      (e : Errno) (tv : Option Timeval) (w : W) (again : Option Timeval → M (State D W) Rc)
      (st : State D W)
      → ((tv : Option Timeval) → Keeps P (again tv))
      → P st.backend_data
      → Left P (after_signal select e tv w again st)
  after_signal-Left eintr tv w again st k h = (k tv).at (record st { world = w; errno = eintr }) h
  after_signal-Left _ tv w again st k h = h

  selected-Left :
      (r : Syscall × (Option Timeval × W)) (again : Option Timeval → M (State D W) Rc)
      (st : State D W)
      → ((tv : Option Timeval) → Keeps P (again tv))
      → P st.backend_data
      → Left P (selected select r again st)
  selected-Left (done zero, (tv, w)) again st k h = h
  selected-Left (done (suc n), (tv, w)) again st k h = h
  selected-Left (failed e, (tv, w)) again st k h = after_signal-Left e tv w again st k h

  pub select_loop-Keeps :
      (f : ℕ) (s : ℤ) (tv : Option Timeval) → Keeps P (select_loop select f s tv)
  unfolding select_loop
  select_loop-Keeps zero s tv = search keeps_rules
  select_loop-Keeps (suc f) s tv = record {
    at = λ st h. selected-Left (select s tv st.world) _ st (select_loop-Keeps f s) h;
  }
