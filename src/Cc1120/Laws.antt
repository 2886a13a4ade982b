-- ===== src/Cc1120/Laws.antt =====
-- What the driver relies on from the chip, and what reads and writes of its registers keep.
use libtta.Base.{
  ℕ, ◌<◌, ◌≡◌, ◌≢◌, refl, ◌∙◌, ap, ℤ, pos, negsuc, none, some, List, [], ◌∷◌, length, get_elem?,
  get_elem?-some,
}
use libtta.Base.Run.{M, Outcome, ok, Returns, Returns-then, Returns-weaken, then_run, or_fault}
use libtta.Base.Buffer.{read_bytes}
use libtta.Context.{State}
use libtta.Cc1120.Registers.{marcstate, idle_state}
use libtta.Cc1120.Access.{Spi, strobe, read_single, write_single}

-- The state that a read of the register `MARCSTATE` gives.
abbrev pub marc : {W : Type 0} → Spi W → ℤ → W → List ℕ
marc spi fd w = (spi.read fd marcstate 1 w).0

-- The world after a strobe.
abbrev pub strobed : {W : Type 0} → Spi W → ℤ → ℕ → W → W
strobed spi fd cmd w = (spi.strobe fd cmd w).1

-- The driver fills the structure, and the chip reports fewer than `rounds` times in a row that it
-- is not idle.
pub record SpiLaws {W : Type 0} (spi : Spi W) (rounds : ℕ) : Type 0 where
  pub strobe_fills : (fd : ℤ) (cmd : ℕ) (w : W) → 0 < length (spi.strobe fd cmd w).0
  pub read_fills : (fd : ℤ) (addr n : ℕ) (w : W) → 0 < length (spi.read fd addr n w).0
  pub busy : W → ℕ
  pub busy-lt : (w : W) → busy w < rounds
  pub busy_falls :
      (fd : ℤ) (w : W)
      → get_elem? (marc spi fd w) 0 ≢ some idle_state
      → busy (spi.read fd marcstate 1 w).1 < busy w

-- Only the world has changed.
abbrev pub Kept : {A D W : Type 0} → State D W → A → State D W → Type 0
Kept st _ t = (t.ctx ≡ st.ctx) × (t.backend_data ≡ st.backend_data) × (t.errno ≡ st.errno)

pub Kept-then :
    {A B D W : Type 0} (st : State D W) (o : Outcome (A × State D W)) (f : A → M (State D W) B)
    → Returns o (Kept st)
    → ((a : A) (t : State D W) → Returns (f a t) (Kept t))
    → Returns (then_run o f) (Kept st)
Kept-then st o f h k = Returns-then (Kept st) (Kept st) o f h λ a t kept.
    Returns-weaken (Kept t) (Kept st) (f a t) (k a t)
      (λ b u p. (p.0 ∙ kept.0, p.1 ∙ kept.1, p.2 ∙ kept.2))

-- The number is an index into a table of `n` entries.
abbrev pub IsIndex : ℤ → ℕ → Type 0
IsIndex (pos i) n = i < n
IsIndex (negsuc i) n = ⊥

pub some_inj : (x y : ℕ) → some x ≡ some y → x ≡ y
some_inj x y h = cc

module _ {D W : Type 0} (spi : Spi W) (rounds : ℕ) (laws : SpiLaws spi rounds) (fd : ℤ) where
  pub strobe_lem :
      (cmd : ℕ) (st : State D W)
      → (x : ℕ) × (strobe spi fd cmd st ≡ ok (x, record st { world = strobed spi fd cmd st.world }))
  unfolding strobe
  strobe_lem cmd st =
      let (x, e) =
        get_elem?-some 0 (spi.strobe fd cmd st.world).0 (laws.strobe_fills fd cmd st.world) in
      (x, rw e refl)

  pub strobe-Kept : (cmd : ℕ) (st : State D W) → Returns (strobe spi fd cmd st) (Kept st)
  strobe-Kept cmd st = let (x, e) = strobe_lem cmd st in rw (e, Returns) (refl, refl, refl)

  first_byte :
      (buf : List ℕ) (x : ℕ) (st : State D W)
      → get_elem? buf 0 ≡ some x
      → then_run (read_bytes buf 1 st) (λ val. or_fault (get_elem? val 0)) ≡ ok (x, st)
  unfolding read_bytes
  first_byte [] x st e = absurd (none≢some x e)
    where
      none≢some : (n : ℕ) → none ≢ some n
      none≢some n h = cc
  first_byte (y ∷ buf) x st e = ap (λ n. ok (n, st)) (some_inj y x e)

  -- The register that was read.
  pub read_single_lem :
      (addr : ℕ) (st : State D W)
      → (x : ℕ) × (get_elem? (spi.read fd addr 1 st.world).0 0 ≡ some x)
        × (read_single spi fd addr st
            ≡ ok (x, record st { world = (spi.read fd addr 1 st.world).1 }))
  unfolding read_single
  read_single_lem addr st =
      let (x, e) =
        get_elem?-some 0 (spi.read fd addr 1 st.world).0 (laws.read_fills fd addr 1 st.world) in
      (
        x,
        e,
        first_byte (spi.read fd addr 1 st.world).0 x
            (record st { world = (spi.read fd addr 1 st.world).1 }) e,
      )

  pub read_single-Kept :
      (addr : ℕ) (st : State D W) → Returns (read_single spi fd addr st) (Kept st)
  read_single-Kept addr st =
      let (x, _, e) = read_single_lem addr st in rw (e, Returns) (refl, refl, refl)

  pub write_single-Kept :
      (addr val : ℕ) (st : State D W) → Returns (write_single spi fd addr val st) (Kept st)
  unfolding write_single read_bytes
  write_single-Kept addr val st = (refl, refl, refl)
