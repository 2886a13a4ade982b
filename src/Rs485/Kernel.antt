-- ===== src/Rs485/Kernel.antt =====
-- The branches of src/tta_rs485.c for `HAVE_DECL_TIOCSRS485`, which the `config.h` of the repository
-- switches off: the driver itself keeps the line in the mode RS485.
pub mod Laws
use libtta.Base.{ℕ, ℤ, Option, none, some, List, ◌==◌, if◌then◌else◌}
use libtta.Base.Run.{M, pure, gets, modify, ◌>>=◌, ◌>>◌}
use libtta.Context.{Errno, einval, Tta, State, Rc, fail_with}
use libtta.Syscall.{Syscall, call}
use libtta.Rs485.Port.{Rs485}
use libtta.Rs485.Modes.{BackendType, rs485, Created, new_rs485}

-- `TIOCSRS485` with the flags of `struct serial_rs485`, whose other fields are 0.
pub record Kernel (W : Type 0) : Type 0 where
  pub ser_rs485_enabled : ℕ
  pub tiocsrs485 : ℤ → ℕ → W → Syscall × W

-- `tta_rs485_t` with the field `serial_mode`.
pub record Moded : Type 0 where
  pub port : Rs485
  pub serial_mode : ℕ

abbrev pub mode_rs232 : ℕ
mode_rs232 = 0

abbrev pub mode_rs485 : ℕ
mode_rs485 = 1

-- The mode RS232 has been set by default.
unfoldable pub new_moded : Tta → Rs485 → List ℕ → ℤ → ℕ → ℕ → ℕ → M Errno (Created Moded)
unfolding new_rs485
new_moded raw raw_data device baud parity data_bit stop_bit =
    new_rs485 raw raw_data device baud parity data_bit stop_bit >>= λ made. elim made [
      | none ↦ pure none
      | some r ↦ pure (some (r.0, record { port = r.1; serial_mode = mode_rs232 }))
    ]

module _ {W : Type 0} (os : Kernel W) where
  -- `ctx_rs485->serial_mode = mode; return 0;`
  abbrev pub note_mode : ℕ → M (State Moded W) Rc
  note_mode mode = do
    modify (λ st. record st { backend_data = record st.backend_data { serial_mode = mode } })
    pure (some 0)

  -- The driver is asked first, and the mode is noted if it agrees.
  unfoldable pub switch : ℕ → ℕ → M (State Moded W) Rc
  switch flags mode = do
    s ← gets (λ st. st.ctx.s)
    rc ← call (os.tiocsrs485 s flags)
    elim rc [ none ↦ pure none | some _ ↦ note_mode mode ]

  unfoldable pub set_serial_mode : BackendType → ℕ → M (State Moded W) Rc
  unfolding switch
  set_serial_mode rs485 mode =
      if mode == mode_rs485
      then switch os.ser_rs485_enabled mode_rs485
      else if mode == mode_rs232
      then (gets (λ st. st.backend_data.serial_mode) >>= λ old.
          if old == mode_rs485 then switch 0 mode_rs232 else note_mode mode_rs232)
      else fail_with einval
  set_serial_mode _ mode = fail_with einval

  unfoldable pub get_serial_mode : BackendType → M (State Moded W) Rc
  get_serial_mode rs485 = gets (λ st. some st.backend_data.serial_mode)
  get_serial_mode _ = fail_with einval
