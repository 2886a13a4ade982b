-- ===== src/Rf/Packet/Laws.antt =====
-- The packets of the radio transport: what is written, what is read back, and whose they are.
use libtta.Base.{
  ℕ, ◌+◌, ◌≤◌, ◌≡◌, refl, List, [], ◌∷◌, ◌++◌, length, append_two, none, some, Bool, true, false,
  ◌==◌, ◌&&◌, if◌then◌else◌, arith,
}
use libtta.Base.Run.{ok, pure}
use libtta.Base.Buffer.{overwrite, store-overwrite, read_bytes-append}
use libtta.Context.{State, embbadrfid, fail_with}
use libtta.Message.Laws.{message}
use libtta.Packet.Frame.{with_sums, append_data-with_sums}
use libtta.Packet.Check.{check_sums-with_sums}
use libtta.Packet.Wrap.{unwrap-message}
use libtta.Cc1120.Access.{Spi}
use libtta.Rf.Radio.{Rf, flush}
use libtta.Rf.Packet.{check_integrity, conv_pkt2ttamsg, conv_ttamsg2pkt, pre_check_confirmation}

-- A packet on the air: the identity, the message, and the two sums.
abbrev pub header : (a b c d devid subid cmd n : ℕ) → List ℕ
header a b c d devid subid cmd n = a ∷ b ∷ c ∷ d ∷ devid ∷ subid ∷ cmd ∷ n ∷ []

abbrev pub frame : (a b c d devid subid cmd : ℕ) → List ℕ → List ℕ
frame a b c d devid subid cmd bytes =
    with_sums (header a b c d devid subid cmd (length bytes) ++ bytes)

-- The state in which the identity is these four bytes.
abbrev pub with_id : {W : Type 0} → (a b c d : ℕ) → State Rf W → State Rf W
with_id a b c d st = record st { backend_data = record st.backend_data { id = a ∷ b ∷ c ∷ d ∷ [] } }

module _ {W : Type 0} (a b c d tid devid subid cmd : ℕ) (bytes buf : List ℕ) (st : State Rf W) where
  -- A message whose packet fits the buffer is written as the frame of the own identity, and nothing
  -- behind it changes.
  pub conv_ttamsg2pkt-with_id :
      length bytes + 10 ≤ length buf
      → conv_ttamsg2pkt (message tid devid subid cmd bytes) buf (with_id a b c d st)
        ≡ ok (
          (length bytes + 10, overwrite buf (frame a b c d devid subid cmd bytes)),
          with_id a b c d st,
        )
  unfolding conv_ttamsg2pkt
  conv_ttamsg2pkt-with_id fits =
      let st' = with_id a b c d st in
      rw
        (
          store-overwrite buf [] 0 a st' refl (omega arith),
          store-overwrite buf (a ∷ []) 1 b st' refl (omega arith),
          store-overwrite buf (a ∷ b ∷ []) 2 c st' refl (omega arith),
          store-overwrite buf (a ∷ b ∷ c ∷ []) 3 d st' refl (omega arith),
          store-overwrite buf (a ∷ b ∷ c ∷ d ∷ []) 4 devid st' refl (omega arith),
          store-overwrite buf (a ∷ b ∷ c ∷ d ∷ devid ∷ []) 5 subid st' refl (omega arith),
          store-overwrite buf (a ∷ b ∷ c ∷ d ∷ devid ∷ subid ∷ []) 6 cmd st' refl (omega arith),
          store-overwrite buf (a ∷ b ∷ c ∷ d ∷ devid ∷ subid ∷ cmd ∷ []) 7 (length bytes) st' refl
              (omega arith),
          append_data-with_sums buf (header a b c d devid subid cmd (length bytes)) bytes
              (message tid devid subid cmd bytes) 8 2 st' refl refl (omega arith),
        )
        (let e : 8 + length bytes + 2 ≡ length bytes + 10 = omega arith in rw e)

module _ {W : Type 0} (spi : Spi W) (a b c d devid subid cmd : ℕ) (bytes : List ℕ)
    (st : State Rf W) where
  -- The frame of a message passes the integrity check, and is read back as the message, with the
  -- transaction number 0, whatever stands behind it in the buffer.
  pub conv_pkt2ttamsg-with_id :
      (rest : List ℕ)
      → (check_integrity spi (frame a b c d devid subid cmd bytes) (length bytes + 10) st
          ≡ ok (some (length bytes + 10), st))
        × (conv_pkt2ttamsg (frame a b c d devid subid cmd bytes ++ rest) (length bytes + 10) st
            ≡ ok (message 0 devid subid cmd bytes, st))
  unfolding check_integrity conv_pkt2ttamsg
  conv_pkt2ttamsg-with_id rest = (
    check_sums-with_sums (flush spi) (length bytes + 10)
        (header a b c d devid subid cmd (length bytes) ++ bytes) st (omega arith),
    rw append_two
        (unwrap-message 4 0 devid subid cmd (a ∷ b ∷ c ∷ d ∷ []) bytes (_ ∷ _ ∷ rest) st refl),
  )

module _ {W : Type 0} (a b c d a' b' c' d' : ℕ) (req rsp : List ℕ) (n : ℕ) (st : State Rf W) where
  -- A packet is taken for a confirmation if and only if it carries the own identity: otherwise the
  -- result is -1 with `EMBBADRFID`.
  pub pre_check_confirmation-with_id :
      pre_check_confirmation req (a' ∷ b' ∷ c' ∷ d' ∷ rsp) n (with_id a b c d st) ≡ (
        if a' == a && (b' == b && (c' == c && d' == d))
        then ok (some 0, with_id a b c d st)
        else ok (none, record (with_id a b c d st) { errno = embbadrfid }))
  unfolding pre_check_confirmation
  pre_check_confirmation-with_id =
      let got = a' ∷ b' ∷ c' ∷ d' ∷ [] in
      let own = a ∷ b ∷ c ∷ d ∷ [] in
      let st' = with_id a b c d st in
      rw (read_bytes-append 4 got rsp st' refl, read_bytes-append 4 own [] st' refl)
        (verdict (a' == a) (b' == b) (c' == c) (d' == d))
    where
      verdict :
          (p q r t : Bool)
          → (if p && (q && (r && (t && true))) then pure (some 0) else fail_with embbadrfid)
              (with_id a b c d st)
            ≡ (if p && (q && (r && t))
                then ok (some 0, with_id a b c d st)
                else ok (none, record (with_id a b c d st) { errno = embbadrfid }))
      verdict false q r t = refl
      verdict true false r t = refl
      verdict true true false t = refl
      verdict true true true false = refl
      verdict true true true true = refl
