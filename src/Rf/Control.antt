-- ===== src/Rf/Control.antt =====
-- The calls of the radio transport on identity, channel, power and thresholds (src/tta_rf.c).
use libtta.Base.{ℕ, ℤ, int_to_u8, Option, some, List}
use libtta.Base.Run.{M, pure, gets, modify, ◌>>=◌, ◌>>◌}
use libtta.Base.Buffer.{read_bytes}
use libtta.Context.{State, Rc}
use libtta.Cc1120.Registers.{agc_cs_thr, agc_gain_adjust}
use libtta.Cc1120.Access.{Spi, write_single}
use libtta.Cc1120.Setup
use libtta.Rf.Radio.{Rf, fd}
use libtta.Rf.Packet.{id_length}

module _ {W : Type 0} (spi : Spi W) (rounds : ℕ) where
  unfoldable pub set_id : List ℕ → M (State Rf W) Rc
  set_id id = do
    own ← read_bytes id id_length
    modify (λ st. record st { backend_data = record st.backend_data { id = own } })
    pure (some 0)

  unfoldable pub get_id : M (State Rf W) (List ℕ)
  get_id = gets (λ st. st.backend_data.id) >>= λ id. read_bytes id id_length

  unfoldable pub set_ch : ℤ → M (State Rf W) Rc
  set_ch ch = do
    modify (λ st. record st { backend_data = record st.backend_data { ch = ch } })
    s ← fd spi
    Setup.set_ch spi rounds s ch
    pure (some 0)

  unfoldable pub set_power : ℤ → M (State Rf W) Rc
  set_power power = do
    modify (λ st. record st { backend_data = record st.backend_data { power = power } })
    s ← fd spi
    Setup.set_power spi rounds s power
    pure (some 0)

  unfoldable pub set_agc_cs_thr : ℤ → M (State Rf W) Rc
  set_agc_cs_thr thr = do s ← fd spi; write_single spi s agc_cs_thr (int_to_u8 thr); pure (some 0)

  unfoldable pub set_agc_gain_adjust : ℤ → M (State Rf W) Rc
  set_agc_gain_adjust val = do
    s ← fd spi
    write_single spi s agc_gain_adjust (int_to_u8 val)
    pure (some 0)

  -- `none` is -1, with `*rssi` as it was.
  unfoldable pub get_rssi : M (State Rf W) (Option ℤ)
  get_rssi = fd spi >>= λ s. Setup.get_rssi spi s
