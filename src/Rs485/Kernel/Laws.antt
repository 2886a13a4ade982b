-- ===== src/Rs485/Kernel/Laws.antt =====
-- The mode that a context notes is the mode that the driver is in.
use libtta.Base.{
  ℕ, ◌≡◌, ◌≤◌, ◌<◌, ◌⊎◌, ℤ, Bool, true, false, none, some, List, [], ◌∷◌, ◌||◌, if◌then◌else◌, ◌==◌,
}
use libtta.Base.Run.{M, get, pure, ◌>>=◌}
use libtta.Context.{Errno, State, Rc}
use libtta.Syscall.{Syscall, done, failed}
use libtta.Rs485.Modes.{rs485}
use libtta.Rs485.Kernel.{Kernel, Moded, mode_rs232, mode_rs485, set_serial_mode, get_serial_mode}

-- The driver is in the mode of the flags that it has taken last; a call that fails changes nothing.
pub record KernelLaws {W : Type 0} (os : Kernel W) : Type 0 where
  pub enabled : W → Bool
  pub flag : (0 == os.ser_rs485_enabled) ≡ false
  pub taken :
      (s : ℤ) (flags n : ℕ) (w w' : W)
      → os.tiocsrs485 s flags w ≡ (done n, w')
      → enabled w' ≡ (flags == os.ser_rs485_enabled)
  pub refused :
      (s : ℤ) (flags : ℕ) (e : Errno) (w w' : W)
      → os.tiocsrs485 s flags w ≡ (failed e, w')
      → enabled w' ≡ enabled w

abbrev pub mode_of : Bool → ℕ
mode_of true = mode_rs485
mode_of false = mode_rs232

-- A call of `tta_rs485_set_serial_mode`: the state that it found, its argument and its result.
abbrev pub Call : Type 0 → Type 0
Call W = State Moded W × (ℕ × Rc)

-- The last mode that was set with success, or the mode before.
abbrev pub last_set : {W : Type 0} → ℕ → List (Call W) → ℕ
last_set old [] = old
last_set old ((st, (mode, none)) ∷ calls) = last_set old calls
last_set old ((st, (mode, some n)) ∷ calls) = last_set mode calls

module _ {W : Type 0} (os : Kernel W) where
  -- The flags of a mode.
  abbrev pub flags_of : ℕ → ℕ
  flags_of mode = if mode == mode_rs485 then os.ser_rs485_enabled else 0

  -- The driver is asked for the mode RS485, and for the mode RS232 where it was in RS485.
  abbrev pub is_asked : State Moded W → ℕ → Bool
  is_asked st mode = mode == mode_rs485 || st.backend_data.serial_mode == mode_rs485

  -- In the state `st` the driver refuses the flags of the mode.
  abbrev pub Refused : State Moded W → ℕ → Type 0
  Refused st mode =
      (is_asked st mode ≡ true)
      × ((e : Errno) × (w : W) × (os.tiocsrs485 st.ctx.s (flags_of mode) st.world ≡ (failed e, w)))

  -- A mode is set with code 0; what is no mode, or is refused by the driver in this call, gives -1.
  abbrev pub Told : Call W → Type 0
  Told (st, (mode, none)) = mode_rs485 < mode ⊎ Refused st mode
  Told (st, (mode, some n)) = (mode ≤ mode_rs485) × (n ≡ 0)

  abbrev pub AllTold : List (Call W) → Type 0
  AllTold [] = Unit
  AllTold (c ∷ calls) = Told c × AllTold calls

  -- `tta_rs485_set_serial_mode` for each of the numbers in turn, with what it finds and returns.
  abbrev pub set_all : List ℕ → M (State Moded W) (List (Call W))
  set_all [] = pure []
  set_all (mode ∷ modes) = do
    st ← get
    rc ← set_serial_mode os rs485 mode
    calls ← set_all modes
    pure ((st, (mode, rc)) ∷ calls)

  -- The calls, and then `tta_rs485_get_serial_mode`.
  abbrev pub set_then_get : List ℕ → M (State Moded W) (List (Call W) × Rc)
  set_then_get modes = do calls ← set_all modes; rc ← get_serial_mode os rs485; pure (calls, rc)

module _ {W : Type 0} (os : Kernel W) (laws : KernelLaws os) where
  -- The mode of the context is `mode`, and the driver is in it.
  abbrev pub InStep : ℕ → State Moded W → Type 0
  InStep mode t = (t.backend_data.serial_mode ≡ mode) × (mode_of (laws.enabled t.world) ≡ mode)

  -- What a call with this mode and result makes of the mode before.
  abbrev Stepped : State Moded W → ℕ → ℕ → Rc → State Moded W → Type 0
  Stepped st old mode rc t =
      Told os (st, (mode, rc)) × InStep (last_set old ((st, (mode, rc)) ∷ [])) t
