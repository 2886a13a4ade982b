-- ===== src/Core/Stream/Source.antt =====
-- What the engine's loop asks of a transport whose bytes come in order, and a packet at their front.
use libtta.Base.{
  ℕ, ◌+◌, ◌-◌, ◌≤◌, ◌<◌, ◌≡◌, refl, ap, Option, none, some, List, [], ◌∷◌, ◌++◌, length, get_elem?,
  arith,
}
use libtta.Base.Run.{Returns}
use libtta.Context.{State, Rc, Timeval}
use libtta.Link.{Link}

-- While as many bytes are pending as are waited for, the wait succeeds, and a read takes some of them
-- from the front. `ready`
-- is what a wait establishes for the read that follows it, and `idle` what holds between the two.
abbrev pub Ready : {S : Type 0} → (S → List ℕ) → (S → Type 0) → List ℕ → Rc → S → Type 0
Ready pending ready p none t = ⊥
Ready pending ready p (some n) t = (pending t ≡ p) × ready t

abbrev pub Taken :
    {S : Type 0} → (S → List ℕ) → (S → Type 0) → ℕ → List ℕ → Option (List ℕ) → S → Type 0
Taken pending idle n p none t = ⊥
Taken pending idle n p (some bytes) t =
    (0 < length bytes) × (length bytes ≤ n) × (p ≡ bytes ++ pending t) × idle t

pub record Delivers {D W : Type 0} (link : Link D W) : Type 1 where
  pub pending : State D W → List ℕ
  pub idle : State D W → Type 0
  pub ready : ℕ → State D W → Type 0
  pub select_waits :
      (tv : Option Timeval) (n : ℕ) (st : State D W)
      → idle st
      → 0 < n
      → n ≤ length (pending st)
      → Returns (link.select tv n st) (Ready pending (ready n) (pending st))
  pub recv_takes :
      (n : ℕ) (st : State D W)
      → ready n st
      → 0 < n
      → 0 < length (pending st)
      → Returns (link.recv n st) (Taken pending idle n (pending st))

pub same_front :
    (xs zs ys ws : List ℕ) → xs ++ ys ≡ zs ++ ws → length xs ≡ length zs → (xs ≡ zs) × (ys ≡ ws)
same_front [] [] ys ws e l = (refl, e)
same_front [] (z ∷ zs) ys ws e l = absurd (omega arith)
same_front (x ∷ xs) [] ys ws e l = absurd (omega arith)
same_front (x ∷ xs) (z ∷ zs) ys ws e l =
    let (p, q) = same_front xs zs ys ws (ap tail e) (omega arith) in (cc p, q)
  where
    tail : List ℕ → List ℕ
    tail [] = []
    tail (y ∷ ys) = ys

-- A packet that the transport admits: a header, as many data bytes as its last byte says, and the
-- checksums.
pub record IsFirst {D W : Type 0} (link : Link D W) (cap : ℕ) (frame : List ℕ) : Type 0 where
  pub len : ℕ
  pub found : get_elem? frame (link.header_length - 1) ≡ some len
  pub size : length frame ≡ link.header_length + (len + link.checksum_length)
  pub header_pos : 0 < link.header_length
  pub adu : length frame ≤ link.max_adu_length
  pub room : link.max_adu_length ≤ cap
