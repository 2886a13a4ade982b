-- ===== src/Wait/Laws.antt =====
-- The wait for input ends if signals do, and it never reports 0.
use libtta.Base.{ℕ, zero, suc, ◌<◌, ◌≡◌, refl, ℤ, Option, none, some, arith}
use libtta.Base.Run.{M, Returns}
use libtta.Context.{Errno, eintr, Timeval, State, Rc}
use libtta.Syscall.{Syscall, done, failed}
use libtta.Wait.{after_signal, selected, select_loop}

-- Signals cut a `select` short fewer than `rounds` times in a row.
pub record IsQuiet {W : Type 0} (select : ℤ → Option Timeval → W → Syscall × (Option Timeval × W))
    (rounds : ℕ) : Type 0 where
  pub signals : W → ℕ
  pub signals-lt : (w : W) → signals w < rounds
  pub signals_fall :
      (s : ℤ) (tv tv' : Option Timeval) (w w' : W)
      → select s tv w ≡ (failed eintr, (tv', w'))
      → signals w' < signals w

-- A result is a positive number of ready descriptors, or -1; only the world and `errno` change.
abbrev pub Waited : {D W : Type 0} → State D W → Rc → State D W → Type 0
Waited st none t = (t.ctx ≡ st.ctx) × (t.backend_data ≡ st.backend_data)
Waited st (some n) t = (0 < n) × (t.ctx ≡ st.ctx) × (t.backend_data ≡ st.backend_data)

module _ {D W : Type 0} (select : ℤ → Option Timeval → W → Syscall × (Option Timeval × W))
    (rounds : ℕ) (quiet : IsQuiet select rounds) where
  signal-Waited :
      (f : ℕ) (s : ℤ) (tv tv' : Option Timeval) (e : Errno) (w : W) (st : State D W)
      (again : Option Timeval → M (State D W) Rc)
      → ((tv : Option Timeval) (t : State D W)
          → quiet.signals t.world < f
          → Returns (again tv t) (Waited t))
      → quiet.signals st.world < suc f
      → select s tv st.world ≡ (failed e, (tv', w))
      → Returns (after_signal select e tv' w again st) (Waited st)
  signal-Waited f s tv tv' eintr w st again ih h e =
      ih tv' (record st { world = w; errno = eintr })
        (omega (arith, quiet.signals_fall s tv tv' st.world w e))
  signal-Waited f s tv tv' _ w st again ih h e = (refl, refl)

  selected-Waited :
      (f : ℕ) (s : ℤ) (tv : Option Timeval) (r : Syscall × (Option Timeval × W)) (st : State D W)
      (again : Option Timeval → M (State D W) Rc)
      → ((tv : Option Timeval) (t : State D W)
          → quiet.signals t.world < f
          → Returns (again tv t) (Waited t))
      → quiet.signals st.world < suc f
      → select s tv st.world ≡ r
      → Returns (selected select r again st) (Waited st)
  selected-Waited f s tv (done zero, (tv', w)) st again ih h e = (refl, refl)
  selected-Waited f s tv (done (suc n), (tv', w)) st again ih h e = (omega arith, refl, refl)
  selected-Waited f s tv (failed x, (tv', w)) st again ih h e =
      signal-Waited f s tv tv' x w st again ih h e

  loop-Waited :
      (f : ℕ) (s : ℤ) (tv : Option Timeval) (st : State D W)
      → quiet.signals st.world < f
      → Returns (select_loop select f s tv st) (Waited st)
  unfolding select_loop
  loop-Waited zero s tv st h = absurd (omega arith)
  loop-Waited (suc f) s tv st h =
      selected-Waited f s tv (select s tv st.world) st (select_loop select f s) (loop-Waited f s) h
        refl

  -- Where signals end, the wait ends: with a positive number of descriptors, or with -1. The
  -- context and the private data of the transport stay as they were.
  pub select_loop-Waited :
      (s : ℤ) (tv : Option Timeval) (st : State D W)
      → Returns (select_loop select rounds s tv st) (Waited st)
  select_loop-Waited s tv st = loop-Waited rounds s tv st (quiet.signals-lt st.world)
