-- ===== src/Rs485/Modes.antt =====
-- `tta_new_rs485` and the calls on the modes of the line (src/tta_rs485.c). `config.h` has
-- `HAVE_DECL_TIOCM_RTS` and does not have `HAVE_DECL_TIOCSRS485`.
pub mod Laws
pub mod Heap
use libtta.Base.{ℕ, ℤ, u8, false, not, Option, none, some, List, leb, ◌==◌, ◌||◌, if◌then◌else◌}
use libtta.Base.Run.{M, pure, gets, modify, ◌>>=◌, ◌>>◌}
use libtta.Context.{Errno, einval, enotsup, Tta, Proto, State, Rc, fail_with, init_common}
use libtta.Strlcpy.{strlcpy}
use libtta.Rs485.Port.{Serial, Rs485, rts_none, rts_up, rts_down, ioctl_rts}

-- sizeof(ctx_rs485->device)
abbrev pub device_size : ℕ
device_size = 16

-- `errno` and what the constructor returns; `none` is NULL.
abbrev pub Created : Type 0 → Type 0
Created D = Option (Tta × D)

abbrev pub refuse : {D : Type 0} → M Errno (Created D)
refuse e = pure none einval

-- `raw` and `raw_data` are what the fresh blocks hold. The fields for the bits are `uint8_t`.
unfoldable pub new_rs485 : Tta → Rs485 → List ℕ → ℤ → ℕ → ℕ → ℕ → M Errno (Created Rs485)
unfolding init_common strlcpy
new_rs485 raw raw_data device baud parity data_bit stop_bit = do
  let ctx = record (init_common raw) { proto = Proto.rs485 }
  (ret_size, name) ← strlcpy raw_data.device device device_size
  if ret_size == 0 || leb device_size ret_size
      then refuse
      else if (parity == b'N' || parity == b'E') || parity == b'O'
      then pure (
          some (
            ctx,
            record raw_data {
              device = name;
              baud = baud;
              parity = parity;
              data_bit = u8 data_bit;
              stop_bit = u8 stop_bit;
              rts = rts_none;
              confirmation_to_ignore = false;
            },
          ))
      else refuse

-- `_tta_backend_type_t` of a context.
pub data BackendType : Type 0 where
  tcp rs485 rf : BackendType

module _ {W : Type 0} (os : Serial W) where
  unfoldable pub set_serial_mode : BackendType → ℕ → M (State Rs485 W) Rc
  set_serial_mode rs485 mode = fail_with enotsup
  set_serial_mode _ mode = fail_with einval

  unfoldable pub get_serial_mode : BackendType → M (State Rs485 W) Rc
  get_serial_mode rs485 = fail_with enotsup
  get_serial_mode _ = fail_with einval

  unfoldable pub set_rts : BackendType → ℕ → M (State Rs485 W) Rc
  unfolding ioctl_rts
  set_rts rs485 mode =
      if (mode == rts_none || mode == rts_up) || mode == rts_down
      then (do
        modify (λ st. record st { backend_data = record st.backend_data { rts = mode } })
        s ← gets (λ st. st.ctx.s)
        ioctl_rts os s (not (mode == rts_up))
        pure (some 0))
      else fail_with einval
  set_rts _ mode = fail_with einval

  unfoldable pub get_rts : BackendType → M (State Rs485 W) Rc
  get_rts rs485 = gets (λ st. some st.backend_data.rts)
  get_rts _ = fail_with einval
