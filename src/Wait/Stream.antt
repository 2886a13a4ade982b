-- ===== src/Wait/Stream.antt =====
-- A descriptor whose bytes come in order: what `select` and `read` (or `recv`) do on it, and what
-- the wait and the read of the transports then do.
use libtta.Base.{ℕ, suc, ◌≤◌, ◌<◌, ◌≡◌, ℤ, Option, List, ◌++◌, length}
use libtta.Base.Run.{Returns}
use libtta.Context.{State, Timeval}
use libtta.Syscall.{Syscall, Reading, bytes, done, call_read}
use libtta.Wait.{select_loop}
use libtta.Core.Stream.{Ready, Taken}

-- While bytes are pending, `select` reports input, and a read takes some of them from the front.
pub record StreamLaws {W : Type 0}
    (select : ℤ → Option Timeval → W → Syscall × (Option Timeval × W))
    (read : ℤ → ℕ → W → Reading × W) : Type 0 where
  pub line : W → List ℕ
  pub select_ready :
      (s : ℤ) (tv : Option Timeval) (w : W)
      → 0 < length (line w)
      → (n : ℕ) × (tv' : Option Timeval) × (w' : W) × (select s tv w ≡ (done (suc n), (tv', w')))
        × (line w' ≡ line w)
  pub read_some :
      (s : ℤ) (n : ℕ) (w : W)
      → 0 < n
      → 0 < length (line w)
      → (bs : List ℕ) × (w' : W) × (read s n w ≡ (bytes bs, w'))
        × (0 < length bs)
        × (length bs ≤ n)
        × (line w ≡ bs ++ line w')

module _ {D W : Type 0} (select : ℤ → Option Timeval → W → Syscall × (Option Timeval × W))
    (read : ℤ → ℕ → W → Reading × W) (stream : StreamLaws select read) where
  abbrev pub pending : State D W → List ℕ
  pending st = stream.line st.world

  pub select_loop-Ready :
      (rounds : ℕ) (s : ℤ) (tv : Option Timeval) (st : State D W)
      → 0 < length (pending st)
      → Returns (select_loop select (suc rounds) s tv st) (Ready pending (λ _. Unit) (pending st))
  unfolding select_loop
  select_loop-Ready rounds s tv st h =
      let (k, tv', w', e, q) = stream.select_ready s tv st.world h in rw (e, Returns) (q, tt)

  pub call_read-Taken :
      (s : ℤ) (n : ℕ) (st : State D W)
      → 0 < n
      → 0 < length (pending st)
      → Returns (call_read (read s n) st) (Taken pending (λ _. Unit) n (pending st))
  call_read-Taken s n st pos h =
      let (bs, w', e, a, b, q) = stream.read_some s n st.world pos h in
      rw (e, Returns) (a, b, q, tt)
