-- ===== src/Link.antt =====
-- The interface between the protocol engine (src/tta.c) and the transports: the table of functions
-- `tta_backend_t`, and what the library takes from the system.
use libtta.Base.{ℕ, Bool, Option, List}
use libtta.Base.Run.{M}
use libtta.Context.{Errno, Timeval, State, Rc}
use libtta.Message.{Ttamsg}

-- What `nanosleep` reports: the time left (in seconds and nanoseconds) if a signal cut it short.
pub data Sleep : Type 0 where
  slept : Sleep
  interrupted : ℕ → ℕ → Sleep
  failed : Errno → Sleep

-- The system calls of the engine itself. `malloc n` is what a fresh block of `n` bytes holds.
pub record System (W : Type 0) : Type 0 where
  pub nanosleep : ℕ → ℕ → W → Sleep × W
  pub malloc : ℕ → List ℕ

-- The part of the table that receiving and sending a packet needs. `recv n` is a read of at most
-- `n` bytes: `none` is -1, an empty list is 0.
pub record Link (D W : Type 0) : Type 0 where
  pub header_length : ℕ
  pub checksum_length : ℕ
  pub max_adu_length : ℕ
  pub connect : M (State D W) Rc
  pub close : M (State D W) (Unit {0})
  pub send : List ℕ → ℕ → M (State D W) Rc
  pub recv : ℕ → M (State D W) (Option (List ℕ))
  pub flush : M (State D W) Rc
  pub select : Option Timeval → ℕ → M (State D W) Rc
  pub check_integrity : List ℕ → ℕ → M (State D W) Rc

-- The rest of the table. `receive cap` fills a packet buffer of `cap` bytes and returns the code
-- and the bytes that were written; `conv_ttamsg2pkt` returns the length and the buffer.
pub record Backend (D W : Type 0) : Type 0 where
  pub link : Link D W
  pub open link use *
  pub receive : ℕ → Bool → M (State D W) (Rc × List ℕ)
  pub pre_check_confirmation : List ℕ → List ℕ → ℕ → M (State D W) Rc
  pub conv_pkt2ttamsg : List ℕ → ℕ → M (State D W) Ttamsg
  pub conv_ttamsg2pkt : Ttamsg → List ℕ → M (State D W) (ℕ × List ℕ)
