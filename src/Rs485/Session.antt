-- ===== src/Rs485/Session.antt =====
-- What a program does with an RS485 context: the calls of src/tta.c, and those of src/tta_rs485.c.
pub mod Laws
pub mod Whole
pub mod Answer
use libtta.Base.{ℕ}
use libtta.Base.Run.{M}
use libtta.Context.{State, Rc}
use libtta.Rs485.Port.{Serial, Rs485}
use libtta.Rs485.Modes.{rs485, set_serial_mode, get_serial_mode, set_rts, get_rts}

-- The calls of the transport itself.
pub data Own : Type 0 where
  serial_mode rts : ℕ → Own
  ask_serial_mode ask_rts : Own

module _ {W : Type 0} (os : Serial W) where
  unfoldable pub own : Own → M (State Rs485 W) Rc
  own (serial_mode mode) = set_serial_mode os rs485 mode
  own (rts mode) = set_rts os rs485 mode
  own ask_serial_mode = get_serial_mode os rs485
  own ask_rts = get_rts os rs485
