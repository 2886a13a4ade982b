-- ===== src/Rs485/Session/Laws.antt =====
-- In every state of a program with an RS485 context the settings are those that were given, the mode
-- of RTS is one of the three, and no confirmation is to be ignored.
use libtta.Base.{
  ℕ, ◌≤◌, ◌≡◌, refl, ℤ, true, false, ◌==◌, ◌||◌, Bool-cases, inl, inr, some, List, ◌∷◌, ◌++◌,
  length, arith,
}
use libtta.Base.Run.{ok, Returns-elim}
use libtta.Context.{Errno, Tta, State}
use libtta.Context.Keeps.{Keeps, Left, keeps_rules}
use libtta.Link.{System}
use libtta.Strlcpy.Laws.{IsText}
use libtta.Core.Sound.{IsCalm}
use libtta.Core.Session.{Reach}
use libtta.Core.Session.Laws.{Reach-Keeps}
use libtta.Rs485.Termios.{Termios}
use libtta.Rs485.Port.{Serial, Rs485, rts_none, rts_up, rts_down, ioctl_rts}
use libtta.Rs485.Device.{backend}
use libtta.Rs485.Device.Flag.{SerialLaws}
use libtta.Rs485.Modes.{
  rs485, device_size, new_rs485, set_serial_mode, get_serial_mode, set_rts, get_rts,
}
use libtta.Rs485.Modes.Laws.{Made, new_rs485-Made}
use libtta.Rs485.Session.{Own, serial_mode, rts, ask_serial_mode, ask_rts, own}
use libtta.Rs485.Device.Keeps.{backend-Keeps}

-- `d` has come from the new context `d0`.
pub record IsKept (d0 d : Rs485) : Type 0 where
  pub device_kept : d.device ≡ d0.device
  pub baud_kept : d.baud ≡ d0.baud
  pub data_bit_kept : d.data_bit ≡ d0.data_bit
  pub stop_bit_kept : d.stop_bit ≡ d0.stop_bit
  pub parity_kept : d.parity ≡ d0.parity
  pub rts_known : d.rts ≤ rts_down
  pub never_ignores : d.confirmation_to_ignore ≡ false

known_mode :
    (mode : ℕ) → ((mode == rts_none || mode == rts_up) || mode == rts_down) ≡ true → mode ≤ rts_down
known_mode mode h = ground arith

module _ {W : Type 0} (os : Serial W) (d0 : Rs485) where
  set_rts-Keeps : (mode : ℕ) → Keeps (IsKept d0) (set_rts os rs485 mode)
  unfolding set_rts ioctl_rts
  set_rts-Keeps mode = record {
    at = λ st h. elim (Bool-cases ((mode == rts_none || mode == rts_up) || mode == rts_down)) [
      | inl known ↦ rw (known, Left) (with_mode st.backend_data h (known_mode mode known))
      | inr other ↦ rw (other, Left) h
    ];
  }
    where
      with_mode : (d : Rs485) → IsKept d0 d → mode ≤ rts_down → IsKept d0 (record d { rts = mode })
      with_mode d h le = record {
        device_kept = h.device_kept;
        baud_kept = h.baud_kept;
        data_bit_kept = h.data_bit_kept;
        stop_bit_kept = h.stop_bit_kept;
        parity_kept = h.parity_kept;
        rts_known = le;
        never_ignores = h.never_ignores;
      }

  own-Keeps : (c : Own) → Keeps (IsKept d0) (own os c)
  unfolding own set_serial_mode get_serial_mode get_rts
  own-Keeps (serial_mode mode) = search keeps_rules
  own-Keeps (rts mode) = set_rts-Keeps mode
  own-Keeps ask_serial_mode = search keeps_rules
  own-Keeps ask_rts = search keeps_rules

IsKept-steady :
    (d0 d : Rs485) (old : Termios) → IsKept d0 d → IsKept d0 (record d { old_tios = old })
IsKept-steady d0 d old h = record {
  device_kept = h.device_kept;
  baud_kept = h.baud_kept;
  data_bit_kept = h.data_bit_kept;
  stop_bit_kept = h.stop_bit_kept;
  parity_kept = h.parity_kept;
  rts_known = h.rts_known;
  never_ignores = h.never_ignores;
}

new-IsKept :
    (raw_data d : Rs485) (s : List ℕ) (baud : ℤ) (parity data_bit stop_bit : ℕ) (e e' : Errno)
    (ctx : Tta)
    → Made raw_data s baud parity data_bit stop_bit e (some (ctx, d)) e'
    → IsKept d d
new-IsKept raw_data d s baud parity data_bit stop_bit e e' ctx made = record {
  device_kept = refl;
  baud_kept = refl;
  data_bit_kept = refl;
  stop_bit_kept = refl;
  parity_kept = refl;
  rts_known = made.7.rts_known;
  never_ignores = made.6;
}

module _ {W : Type 0} (os : Serial W) (sys : System W) (rounds : ℕ) (calm : IsCalm sys rounds)
    (laws : SerialLaws os rounds) where
  -- Where `tta_new_rs485` has made a context, and any calls of src/tta.c and src/tta_rs485.c have
  -- been made on it since, while anything else changed outside; where signals and sleeps end, and
  -- reads fit what was asked for: the device and the line settings are those of the new context,
  -- the mode of RTS is one of the three, and no confirmation is to be ignored.
  pub Reach-IsKept :
      (raw : Tta) (raw_data : Rs485) (s rest : List ℕ) (baud : ℤ) (parity data_bit stop_bit : ℕ)
      (e e' : Errno) (ctx : Tta) (d : Rs485) (w : W) (t : State Rs485 W)
      → IsText s
      → device_size ≤ length raw_data.device
      → new_rs485 raw raw_data (s ++ 0 ∷ rest) baud parity data_bit stop_bit e
        ≡ ok (some (ctx, d), e')
      → Reach sys rounds
          (backend os sys rounds)
          Own
          (own os)
          (record { ctx = ctx; backend_data = d; errno = e'; world = w })
          t
      → IsKept d t.backend_data
  Reach-IsKept raw raw_data s rest baud parity data_bit stop_bit e e' ctx d w t text room made r =
      Reach-Keeps (IsKept d) sys rounds (backend os sys rounds)
        (backend-Keeps os (IsKept d) (IsKept-steady d) (λ d' h. h.never_ignores) sys rounds calm
          laws)
        Own (own os) (own-Keeps os d) r
        (new-IsKept raw_data d s baud parity data_bit stop_bit e e' ctx (
          Returns-elim (Made raw_data s baud parity data_bit stop_bit e) _
            (new_rs485-Made raw raw_data s rest baud parity data_bit stop_bit e text room) made))
