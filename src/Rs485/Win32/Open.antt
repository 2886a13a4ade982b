-- ===== src/Rs485/Win32/Open.antt =====
-- What `_tta_rs485_connect` leaves behind on Windows.
use libtta.Base.{
  ℕ, ◌≡◌, ◌⊎◌, false, refl, ap, List, true, Bool-cases, Option-cases, inl, inr, none, some,
}
use libtta.Base.Run.{Returns}
use libtta.Context.{State, Rc}
use libtta.Rs485.Win32.Settings.{Dcb, dcb_settings}
use libtta.Rs485.Win32.{Windows, WinRs485, configure, give_up, clear_rts, connect}

module _ {W : Type 0} (os : Windows W) where
  -- The settings of the port `st`, over those that the device had.
  abbrev pub settings : State WinRs485 W → Dcb → Dcb
  settings st =
      dcb_settings st.backend_data.baud st.backend_data.data_bit st.backend_data.stop_bit
        st.backend_data.parity

  -- The settings of the device could not be read, or those of the port not be set.
  abbrev pub Unset : State WinRs485 W → ℕ → W → W → Type 0
  Unset st h w1 w =
      (os.get_comm_state (some h) w1 ≡ (none, w))
      ⊎ ((dcb : Dcb) × (w2 : W) × (os.get_comm_state (some h) w1 ≡ (some dcb, w2))
          × (os.set_comm_state (some h) (settings st dcb) w2 ≡ (false, w)))

  -- The device could not be opened, or its handle was closed in the end.
  abbrev pub Shut : State WinRs485 W → W → Type 0
  Shut st w' =
      (os.create_file st.backend_data.device st.world ≡ (none, w'))
      ⊎ ((h : ℕ) × (w1 : W) × (w : W) × (os.create_file st.backend_data.device st.world
            ≡ (some h, w1))
          × Unset st h w1 w
          × (w' ≡ (os.close_handle (some h) w).1))

  -- Either the result is -1, no handle is kept, and none is open, or it is 0, the handle is open, the
  -- settings that the device had are saved, those of the port have been set over them, and RTS was
  -- cleared last.
  abbrev pub Opened : State WinRs485 W → Rc → State WinRs485 W → Type 0
  Opened st none t = (t.backend_data.w_ser.fd ≡ none) × Shut st t.world
  Opened st (some n) t =
      (n ≡ 0)
      × (t.backend_data.w_ser.n_bytes ≡ 0)
      × ((h : ℕ) × (w1 : W) × (w2 : W) × (w3 : W) × (t.backend_data.w_ser.fd ≡ some h)
          × (os.create_file st.backend_data.device st.world ≡ (some h, w1))
          × (os.get_comm_state (some h) w1 ≡ (some t.backend_data.old_dcb, w2))
          × (os.set_comm_state (some h) (settings st t.backend_data.old_dcb) w2 ≡ (true, w3))
          × (t.world ≡ os.tiocmbic_rts st.ctx.s w3))

  -- The settings of `st`, over an open handle with nothing read ahead.
  abbrev opened : State WinRs485 W → ℕ → List ℕ → W → State WinRs485 W
  opened st h buf w = record st {
    backend_data = record st.backend_data {
      w_ser = record { fd = some h; buf = buf; n_bytes = 0 };
    };
    world = w;
  }

  configure-Opened :
      (st : State WinRs485 W) (h : ℕ) (buf : List ℕ) (w : W)
      → os.create_file st.backend_data.device st.world ≡ (some h, w)
      → Returns (configure os (opened st h buf w)) (Opened st)
  unfolding configure give_up clear_rts
  configure-Opened st h buf w made =
      let r = os.get_comm_state (some h) w in
      elim (Option-cases r.0) [
        | inl e ↦
            let shut : Shut st (os.close_handle (some h) r.1).1 =
              inr (h, w, r.1, made, inl (ap (λ x. (x, r.1)) e), refl) in
            simp (e, Returns) (refl, shut)
        | inr (dcb, e) ↦
            let r' = os.set_comm_state (some h) (settings st dcb) r.1 in
            let got : os.get_comm_state (some h) w ≡ (some dcb, r.1) = ap (λ x. (x, r.1)) e in
            elim (Bool-cases r'.0) [
              | inl set ↦
                  simp (e, set, Returns)
                    (refl, refl, (h, w, r.1, r'.1, refl, made, got, ap (λ b. (b, r'.1)) set, refl))
              | inr unset ↦
                  let shut : Shut st (os.close_handle (some h) r'.1).1 =
                    inr (h, w, r'.1, made, inr (dcb, r.1, got, ap (λ b. (b, r'.1)) unset), refl) in
                  simp (e, unset, Returns) (refl, shut)
            ]
      ]

  -- What opening the device leaves behind, on every branch. With -1 no handle is kept: the device
  -- could not be opened, or its settings not be read or not be set, and then the handle was closed
  -- last. With 0 the handle is open, nothing is read ahead, the settings that were read from the
  -- device are saved, those of the port were set over them, and RTS was cleared last.
  pub win32_connect-Opened : (st : State WinRs485 W) → Returns (connect os st) (Opened st)
  unfolding connect configure
  win32_connect-Opened st =
      let made = os.create_file st.backend_data.device st.world in
      elim (Option-cases made.0) [
        | inl e ↦ simp (e, Returns) (refl, inl (ap (λ x. (x, made.1)) e))
        | inr (h, e) ↦ simp (e, Returns) (configure-Opened st h _ made.1 (ap (λ x. (x, made.1)) e))
      ]
