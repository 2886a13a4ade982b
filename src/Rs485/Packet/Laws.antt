-- ===== src/Rs485/Packet/Laws.antt =====
-- The packets of the RS485 transport: what is written, what is read back, and what is checked.
use libtta.Base.{
  ℕ, ◌+◌, ◌≤◌, ◌<◌, ◌≡◌, ◌≢◌, refl, List, [], ◌∷◌, ◌++◌, length, append_two, none, some, arith,
}
use libtta.Base.Run.{ok, fault, Returns}
use libtta.Base.Buffer.{overwrite, store-overwrite}
use libtta.Context.{State, embbadcrc}
use libtta.Message.Laws.{message}
use libtta.Packet.Frame.{with_sums, append_data-with_sums, append_data-fault}
use libtta.Packet.Check.{check_sums-with_sums, check_sums-corrupted}
use libtta.Packet.Wrap.{unwrap-message}
use libtta.Rs485.Port.{Serial, Rs485, flush}
use libtta.Rs485.Packet.{stx, check_integrity, conv_pkt2ttamsg, conv_ttamsg2pkt}

-- A packet on the line: `STX`, the message, and the two sums.
abbrev pub header : ℕ → ℕ → ℕ → ℕ → List ℕ
header devid subid cmd n = stx ∷ devid ∷ subid ∷ cmd ∷ n ∷ []

abbrev pub frame : ℕ → ℕ → ℕ → List ℕ → List ℕ
frame devid subid cmd bytes = with_sums (header devid subid cmd (length bytes) ++ bytes)

module _ {W : Type 0} (tid devid subid cmd : ℕ) (bytes buf : List ℕ) (st : State Rs485 W) where
  -- A message whose packet fits the buffer is written as its frame, and nothing behind it changes.
  pub conv_ttamsg2pkt-frame :
      length bytes + 7 ≤ length buf
      → conv_ttamsg2pkt (message tid devid subid cmd bytes) buf st
        ≡ ok ((length bytes + 7, overwrite buf (frame devid subid cmd bytes)), st)
  unfolding conv_ttamsg2pkt
  conv_ttamsg2pkt-frame fits =
      rw
        (
          store-overwrite buf [] 0 stx st refl (omega arith),
          store-overwrite buf (stx ∷ []) 1 devid st refl (omega arith),
          store-overwrite buf (stx ∷ devid ∷ []) 2 subid st refl (omega arith),
          store-overwrite buf (stx ∷ devid ∷ subid ∷ []) 3 cmd st refl (omega arith),
          store-overwrite buf (stx ∷ devid ∷ subid ∷ cmd ∷ []) 4 (length bytes) st refl
              (omega arith),
          append_data-with_sums buf (header devid subid cmd (length bytes)) bytes
              (message tid devid subid cmd bytes) 5 2 st refl refl (omega arith),
        )
        (let e : 5 + length bytes + 2 ≡ length bytes + 7 = omega arith in rw e)

  -- A message whose packet is longer than the buffer, which has room for the header, makes the
  -- code write past the end of the buffer.
  pub conv_ttamsg2pkt-fault :
      5 ≤ length buf
      → length buf < length bytes + 7
      → conv_ttamsg2pkt (message tid devid subid cmd bytes) buf st ≡ fault
  unfolding conv_ttamsg2pkt
  conv_ttamsg2pkt-fault hd short =
      rw
        (
          store-overwrite buf [] 0 stx st refl (omega arith),
          store-overwrite buf (stx ∷ []) 1 devid st refl (omega arith),
          store-overwrite buf (stx ∷ devid ∷ []) 2 subid st refl (omega arith),
          store-overwrite buf (stx ∷ devid ∷ subid ∷ []) 3 cmd st refl (omega arith),
          store-overwrite buf (stx ∷ devid ∷ subid ∷ cmd ∷ []) 4 (length bytes) st refl
              (omega arith),
        )
        (append_data-fault buf (header devid subid cmd (length bytes)) bytes
          (message tid devid subid cmd bytes) 5 2 st refl refl (omega arith) (omega arith))

module _ {W : Type 0} (os : Serial W) (tid devid subid cmd : ℕ) (bytes : List ℕ)
    (st : State Rs485 W) where
  -- The frame of a message passes the integrity check, and is read back as the message, with the
  -- transaction number 0, whatever stands behind it in the buffer.
  pub conv_pkt2ttamsg-frame :
      (rest : List ℕ)
      → (check_integrity os (frame devid subid cmd bytes) (length bytes + 7) st
          ≡ ok (some (length bytes + 7), st))
        × (conv_pkt2ttamsg (frame devid subid cmd bytes ++ rest) (length bytes + 7) st
            ≡ ok (message 0 devid subid cmd bytes, st))
  unfolding check_integrity conv_pkt2ttamsg
  conv_pkt2ttamsg-frame rest = (
    check_sums-with_sums (flush os) (length bytes + 7)
        (header devid subid cmd (length bytes) ++ bytes) st (omega arith),
    rw append_two (unwrap-message 1 0 devid subid cmd (stx ∷ []) bytes (_ ∷ _ ∷ rest) st refl),
  )

  -- A frame in which one byte has been changed on the way is refused with `EMBBADCRC`.
  pub check_integrity-corrupted :
      ((t : State Rs485 W) → Returns (flush os t) (λ _ _. Unit))
      → (xs ys : List ℕ) (a b : ℕ) → frame devid subid cmd bytes ≡ xs ++ a ∷ ys
      → a < 256
      → b < 256
      → a ≢ b
      → Returns
          (check_integrity os (xs ++ b ∷ ys) (length (xs ++ b ∷ ys)) st)
          (λ rc t. (rc ≡ none) × (t.errno ≡ embbadcrc))
  unfolding check_integrity
  check_integrity-corrupted flushes xs ys a b e ha hb ne =
      check_sums-corrupted (flush os) flushes (header devid subid cmd (length bytes) ++ bytes) xs ys
        a b st e ha hb ne
