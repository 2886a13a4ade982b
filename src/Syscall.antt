-- ===== src/Syscall.antt =====
-- What a system call reports, and how it reaches the return code and `errno`.
use libtta.Base.{ℕ, Option, none, some, List}
use libtta.Base.Run.{M, Outcome, ok}
use libtta.Context.{Errno, State, Rc}

pub data Syscall : Type 0 where
  done : ℕ → Syscall
  failed : Errno → Syscall

-- A call that reads: the bytes that it has put into the buffer.
pub data Reading : Type 0 where
  bytes : List ℕ → Reading
  failed : Errno → Reading

module _ {D W : Type 0} where
  -- The result is the code; a failure is -1 and sets `errno`.
  abbrev pub as_rc : Syscall × W → State D W → Outcome (Rc × State D W)
  as_rc (done n, w) st = ok (some n, record st { world = w })
  as_rc (Syscall.failed e, w) st = ok (none, record st { world = w; errno = e })

  abbrev pub call : (W → Syscall × W) → M (State D W) Rc
  call f st = as_rc (f st.world) st

  abbrev pub as_bytes : Reading × W → State D W → Outcome (Option (List ℕ) × State D W)
  as_bytes (bytes bs, w) st = ok (some bs, record st { world = w })
  as_bytes (Reading.failed e, w) st = ok (none, record st { world = w; errno = e })

  abbrev pub call_read : (W → Reading × W) → M (State D W) (Option (List ℕ))
  call_read f st = as_bytes (f st.world) st

  -- A call whose result is not looked at.
  abbrev pub act : (W → W) → M (State D W) (Unit {0})
  act f st = ok (tt, record st { world = f st.world })

  abbrev pub ask : {A : Type 0} → (W → A × W) → M (State D W) A
  ask f st = ok ((f st.world).0, record st { world = (f st.world).1 })
