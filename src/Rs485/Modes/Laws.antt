-- ===== src/Rs485/Modes/Laws.antt =====
-- What a new RS485 context holds, and what the calls on the mode of RTS make of it.
use libtta.Base.{
  u8, ℕ, ◌≤◌, ◌<◌, ◌≡◌, refl, sym, ◌⊎◌, inl, inr, ℤ, true, false, Bool-cases, none, some, List, [],
  ◌∷◌, ◌++◌, length, leb, ◌==◌, ◌||◌, if◌then◌else◌, arith, ap, subst, leb→le,
}
use libtta.Base.Run.{M, Returns, Returns-then, pure, ◌>>=◌}
use libtta.Base.Buffer.{overwrite}
use libtta.Context.{Errno, einval, Tta, State}
use libtta.Strlcpy.Laws.{IsText, fitted, strlcpy_lem}
use libtta.Rs485.Port.{Serial, Rs485, rts_none, rts_up, rts_down, ioctl_rts}
use libtta.Rs485.Modes.{rs485, device_size, Created, new_rs485, set_rts, get_rts}

abbrev pub IsParity : ℕ → Type 0
IsParity p = p ≡ b'N' ⊎ (p ≡ b'E' ⊎ p ≡ b'O')

-- A device and settings of the line that the transport can open.
pub record IsWellFormed (d : Rs485) : Type 0 where
  pub parity_known : IsParity d.parity
  pub rts_known : d.rts ≤ rts_down

-- What the constructor makes of the arguments.
abbrev pub Made : Rs485 → List ℕ → ℤ → ℕ → ℕ → ℕ → Errno → Created Rs485 → Errno → Type 0
Made raw s baud parity data_bit stop_bit e none e' =
    (e' ≡ einval) × (length s ≡ 0 ⊎ (device_size ≤ length s ⊎ ¬ IsParity parity))
Made raw s baud parity data_bit stop_bit e (some (ctx, d)) e' =
    (e' ≡ e)
    × (0 < length s)
    × (length s < device_size)
    × (d.device ≡ overwrite raw.device (fitted device_size s))
    × ((d.baud ≡ baud)
        × (d.parity ≡ parity)
        × (d.data_bit ≡ u8 data_bit)
        × (d.stop_bit ≡ u8 stop_bit))
    × (d.rts ≡ rts_none)
    × (d.confirmation_to_ignore ≡ false)
    × IsWellFormed d

-- Both tests of the constructor.
refused_text : (n : ℕ) → (n == 0 || leb device_size n) ≡ true → n ≡ 0 ⊎ device_size ≤ n
refused_text n h = ground arith

refused_size :
    (n : ℕ) (P : Type 0) → (n == 0 || leb device_size n) ≡ true → n ≡ 0 ⊎ (device_size ≤ n ⊎ P)
refused_size n P h = elim (refused_text n h) [ inl z ↦ inl z | inr le ↦ inr (inl le) ]

taken_size : (n : ℕ) → (n == 0 || leb device_size n) ≡ false → (0 < n) × (n < device_size)
taken_size n h = ground arith

known-IsParity : (p : ℕ) → ((p == b'N' || p == b'E') || p == b'O') ≡ true → IsParity p
known-IsParity p h = ground arith

unknown-IsParity : (p : ℕ) → ((p == b'N' || p == b'E') || p == b'O') ≡ false → ¬ IsParity p
unknown-IsParity p h k = ground arith

-- Where `device` points to a text that ends, and the array for it has its 16 bytes: the constructor
-- refuses with EINVAL a text that is empty or longer than 15 bytes, and a parity that is not N, E
-- or O. Otherwise the context holds the text, the rate and the parity as they were given, the
-- numbers of data bits and of stop bits modulo 256, and the mode "none" of RTS, and is well-formed.
pub new_rs485-Made :
    (raw : Tta) (raw_data : Rs485) (s rest : List ℕ) (baud : ℤ) (parity data_bit stop_bit : ℕ)
    (e : Errno)
    → IsText s
    → device_size ≤ length raw_data.device
    → Returns
        (new_rs485 raw raw_data (s ++ 0 ∷ rest) baud parity data_bit stop_bit e)
        (Made raw_data s baud parity data_bit stop_bit e)
unfolding new_rs485
new_rs485-Made raw raw_data s rest baud parity data_bit stop_bit e h room =
    rw (strlcpy_lem raw_data.device s rest device_size e h (omega arith) room, Returns)
      (elim (Bool-cases (length s == 0 || leb device_size (length s))) [
        | inl out ↦ rw (out, Returns) (refl, refused_size (length s) (¬ IsParity parity) out)
        | inr fits ↦
            rw (fits, Returns)
              (elim (Bool-cases ((parity == b'N' || parity == b'E') || parity == b'O')) [
                | inl known ↦
                    rw (known, Returns)
                      (
                        refl,
                        (taken_size (length s) fits).0,
                        (taken_size (length s) fits).1,
                        refl,
                        (refl, refl, refl, refl),
                        refl,
                        refl,
                        record {
                          parity_known = known-IsParity parity known;
                          rts_known = omega arith;
                        },
                      )
                | inr unknown ↦
                    rw (unknown, Returns) (refl, inr (inr (unknown-IsParity parity unknown)))
              ])
      ])

-- The last of the modes that is one, or the mode before.
abbrev pub last_mode : ℕ → List ℕ → ℕ
last_mode old [] = old
last_mode old (mode ∷ modes) = last_mode (if leb mode rts_down then mode else old) modes

mode_test :
    (mode : ℕ) → ((mode == rts_none || mode == rts_up) || mode == rts_down) ≡ leb mode rts_down
mode_test mode = ground arith

last_mode-le : (old : ℕ) (modes : List ℕ) → old ≤ rts_down → last_mode old modes ≤ rts_down
last_mode-le old [] h = h
last_mode-le old (mode ∷ modes) h = elim (Bool-cases (leb mode rts_down)) [
  | inl known ↦ rw known (last_mode-le mode modes (leb→le mode rts_down known))
  | inr other ↦ rw other (last_mode-le old modes h)
]

module _ {W : Type 0} (os : Serial W) where
  -- `tta_rs485_set_rts` for each of the modes in turn.
  abbrev pub set_all : List ℕ → M (State Rs485 W) (Unit {0})
  set_all [] = pure tt
  set_all (mode ∷ modes) = set_rts os rs485 mode >>= λ _. set_all modes

  -- The settings and the device stay, and the mode of RTS is `mode`.
  abbrev pub Became : Rs485 → ℕ → State Rs485 W → Type 0
  Became d mode t = t.backend_data ≡ record d { rts = mode }

  set_rts-Became :
      (mode : ℕ) (st : State Rs485 W)
      → Returns
          (set_rts os rs485 mode st)
          (λ _. Became st.backend_data (last_mode st.backend_data.rts (mode ∷ [])))
  unfolding set_rts ioctl_rts
  set_rts-Became mode st =
      rw (mode_test mode, Returns)
        (elim (Bool-cases (leb mode rts_down)) [
          | inl known ↦ rw (known, Returns) refl
          | inr other ↦ rw (other, Returns) refl
        ])

  set_all-Became :
      (modes : List ℕ) (st : State Rs485 W)
      → Returns
          (set_all modes st)
          (λ _. Became st.backend_data (last_mode st.backend_data.rts modes))
  set_all-Became [] st = refl
  set_all-Became (mode ∷ modes) st =
      let next = last_mode st.backend_data.rts (mode ∷ []) in
      Returns-then (λ _. Became st.backend_data next)
        (λ _. Became st.backend_data (last_mode next modes)) (set_rts os rs485 mode st) _
        (set_rts-Became mode st)
        (λ _ t e.
          subst (λ d. Returns (set_all modes t) (λ _. Became d (last_mode d.rts modes))) e
            (set_all-Became modes t))

  -- After `tta_rs485_set_rts` for any numbers in turn, `tta_rs485_get_rts` returns the last of them
  -- that is a mode, and the mode before if none is. The device and the other settings are as they
  -- were, and a well-formed context stays well-formed.
  pub set_all-get_rts :
      (modes : List ℕ) (st : State Rs485 W)
      → IsWellFormed st.backend_data
      → let mode = last_mode st.backend_data.rts modes in
        Returns
          ((set_all modes >>= λ _. get_rts os rs485) st)
          (λ rc t. (rc ≡ some mode) × Became st.backend_data mode t × IsWellFormed t.backend_data)
  unfolding get_rts
  set_all-get_rts modes st h =
      let mode = last_mode st.backend_data.rts modes in
      let kept : IsWellFormed (record st.backend_data { rts = mode }) = record {
        parity_known = h.parity_known;
        rts_known = last_mode-le st.backend_data.rts modes h.rts_known;
      } in
      Returns-then (λ _. Became st.backend_data mode)
        (λ rc t. (rc ≡ some mode) × Became st.backend_data mode t × IsWellFormed t.backend_data)
        (set_all modes st) _ (set_all-Became modes st)
        (λ _ t e. (ap (λ d. some d.rts) e, e, subst IsWellFormed (sym e) kept))
