-- ===== src/Core/Sound.antt =====
-- What the engine relies on from a transport and from the system, as records of laws.
use libtta.Base.{ℕ, ◌+◌, ◌-◌, ◌≤◌, ◌<◌, ◌≡◌, Option, none, some, List, length, get_elem?}
use libtta.Base.Run.{Returns}
use libtta.Context.{Timeval, State}
use libtta.Link.{System, interrupted, Link}

-- Signals interrupt a sleep fewer than `rounds` times in a row.
pub record IsCalm {W : Type 0} (sys : System W) (rounds : ℕ) : Type 0 where
  pub signals : W → ℕ
  pub signals-lt : (w : W) → signals w < rounds
  pub signals_fall :
      (sec nsec a b : ℕ) (w w' : W)
      → sys.nanosleep sec nsec w ≡ (interrupted a b, w')
      → signals w' < signals w

-- A read returns at most as many bytes as were asked for.
abbrev pub Fits : Option (List ℕ) → ℕ → Type 0
Fits none n = Unit
Fits (some bytes) n = length bytes ≤ n

-- A whole packet: a header, as many data bytes as its last byte says, and the checksums.
abbrev pub IsFrame : {D W : Type 0} → Link D W → List ℕ → Type 0
IsFrame link pkt =
    (len : ℕ) × (get_elem? pkt (link.header_length - 1) ≡ some len)
    × (length pkt ≡ link.header_length + (len + link.checksum_length))

-- The functions of the table return, reads fit, and the packets it admits fit `cap` bytes.
pub record IsSound {D W : Type 0} (link : Link D W) (cap : ℕ) : Type 0 where
  pub header_pos : 0 < link.header_length
  pub header_fits : link.header_length ≤ link.max_adu_length
  pub adu_fits : link.max_adu_length ≤ cap
  pub connect_returns : (st : State D W) → Returns (link.connect st) (λ _ _. Unit)
  pub close_returns : (st : State D W) → Returns (link.close st) (λ _ _. Unit)
  pub flush_returns : (st : State D W) → Returns (link.flush st) (λ _ _. Unit)
  pub select_returns :
      (tv : Option Timeval) (n : ℕ) (st : State D W) → Returns (link.select tv n st) (λ _ _. Unit)
  pub recv_returns : (n : ℕ) (st : State D W) → Returns (link.recv n st) (λ r _. Fits r n)
  pub check_returns :
      (pkt : List ℕ) (st : State D W)
      → IsFrame link pkt
      → Returns (link.check_integrity pkt (length pkt) st) (λ _ _. Unit)
