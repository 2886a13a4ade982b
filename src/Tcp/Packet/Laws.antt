-- ===== src/Tcp/Packet/Laws.antt =====
-- The packets of the TCP transport: what is written, what is read back, and which answer belongs to
-- which request.
use libtta.Base.{
  ℕ, ◌+◌, ◌*◌, ◌/◌, ◌%◌, ◌≤◌, ◌<◌, ◌≡◌, refl, subst, List, [], ◌∷◌, ◌++◌, length, none, some, true,
  false, Bool-cases, ◌==◌, if◌then◌else◌, inl, inr, arith,
}
use libtta.Base.Run.{ok}
use libtta.Base.Buffer.{overwrite, store-overwrite, copy_bytes-overwrite}
use libtta.Context.{State, embbaddata}
use libtta.Message.Laws.{message}
use libtta.Packet.Wrap.{unwrap-message}
use libtta.Tcp.Socket.{Tcp}
use libtta.Tcp.Packet.{next_tid, conv_pkt2ttamsg, conv_ttamsg2pkt, pre_check_confirmation}

-- A packet of the stream: the transaction number in two bytes, two zero bytes, and the message.
abbrev pub header : ℕ → ℕ → ℕ → ℕ → ℕ → List ℕ
header tid devid subid cmd n = tid / 256 ∷ tid % 256 ∷ 0 ∷ 0 ∷ devid ∷ subid ∷ cmd ∷ n ∷ []

abbrev pub frame : ℕ → ℕ → ℕ → ℕ → List ℕ → List ℕ
frame tid devid subid cmd bytes = header tid devid subid cmd (length bytes) ++ bytes

-- The state after a packet has taken the next transaction number.
abbrev pub counted : {W : Type 0} → State Tcp W → State Tcp W
counted st = record st {
  backend_data = record st.backend_data { tid = next_tid st.backend_data.tid };
}

module _ {W : Type 0} (tid devid subid cmd : ℕ) (bytes buf : List ℕ) (st : State Tcp W) where
  -- A message whose packet fits the buffer is written as the frame with the next transaction
  -- number, which is taken, and nothing behind it changes.
  pub conv_ttamsg2pkt-counted :
      length bytes + 8 ≤ length buf
      → conv_ttamsg2pkt (message tid devid subid cmd bytes) buf st
        ≡ ok (
          (
            length bytes + 8,
            overwrite buf (frame (next_tid st.backend_data.tid) devid subid cmd bytes),
          ),
          counted st,
        )
  unfolding conv_ttamsg2pkt
  conv_ttamsg2pkt-counted fits =
      let t = next_tid st.backend_data.tid in
      let hi = t / 256 in
      let lo = t % 256 in
      let st' = counted st in
      rw
        (
          store-overwrite buf [] 0 hi st' refl (omega arith),
          store-overwrite buf (hi ∷ []) 1 lo st' refl (omega arith),
          store-overwrite buf (hi ∷ lo ∷ []) 2 0 st' refl (omega arith),
          store-overwrite buf (hi ∷ lo ∷ 0 ∷ []) 3 0 st' refl (omega arith),
          store-overwrite buf (hi ∷ lo ∷ 0 ∷ 0 ∷ []) 4 devid st' refl (omega arith),
          store-overwrite buf (hi ∷ lo ∷ 0 ∷ 0 ∷ devid ∷ []) 5 subid st' refl (omega arith),
          store-overwrite buf (hi ∷ lo ∷ 0 ∷ 0 ∷ devid ∷ subid ∷ []) 6 cmd st' refl (omega arith),
          store-overwrite buf (hi ∷ lo ∷ 0 ∷ 0 ∷ devid ∷ subid ∷ cmd ∷ []) 7 (length bytes) st' refl
              (omega arith),
          copy_bytes-overwrite bytes buf (header t devid subid cmd (length bytes)) 8 st' refl
              (omega arith),
        )
        (let e : 8 + length bytes + 0 ≡ length bytes + 8 = omega arith in rw e)

  -- The frame gives the message back, whatever its transaction number and whatever stands behind it.
  pub conv_pkt2ttamsg-frame :
      (rest : List ℕ) (n : ℕ)
      → conv_pkt2ttamsg (frame tid devid subid cmd bytes ++ rest) n st
        ≡ ok (message tid devid subid cmd bytes, st)
  unfolding conv_pkt2ttamsg
  conv_pkt2ttamsg-frame rest n =
      let p : tid / 256 * 256 + tid % 256 ≡ tid = omega arith in
      rw p (
        unwrap-message 4 tid devid subid cmd (tid / 256 ∷ tid % 256 ∷ 0 ∷ 0 ∷ []) bytes rest st
          refl)

-- The number stays within 16 bits, and the frame that carries it gives the message back with it,
-- whatever stands behind it in the buffer.
pub conv_pkt2ttamsg-counted :
    {W : Type 0} (tid devid subid cmd : ℕ) (bytes : List ℕ) (st : State Tcp W) (rest : List ℕ)
    → tid < 65536
    → (next_tid tid < 65536)
      × (conv_pkt2ttamsg (frame (next_tid tid) devid subid cmd bytes ++ rest) (length bytes + 8) st
          ≡ ok (message (next_tid tid) devid subid cmd bytes, st))
conv_pkt2ttamsg-counted tid devid subid cmd bytes st rest small =
    (ground arith, conv_pkt2ttamsg-frame (next_tid tid) devid subid cmd bytes [] st rest _)

-- The two bytes of the transaction number of a packet.
module _ {W : Type 0} (hi lo hi' lo' : ℕ) (req rsp : List ℕ) (n : ℕ) (st : State Tcp W) where
  -- An answer is taken for the confirmation of the request if and only if it carries the
  -- transaction number of the request; otherwise the result is -1 with `EMBBADDATA`.
  pub pre_check_confirmation-tid :
      lo < 256
      → lo' < 256
      → pre_check_confirmation (hi ∷ lo ∷ req) (hi' ∷ lo' ∷ rsp) n st ≡ (
          if hi * 256 + lo == hi' * 256 + lo'
          then ok (some 0, st)
          else ok (none, record st { errno = embbaddata }))
  unfolding pre_check_confirmation
  pre_check_confirmation-tid a b = elim (Bool-cases (hi == hi')) [
    | inr p ↦ let d : (hi * 256 + lo == hi' * 256 + lo') ≡ false = ground arith in rw (p, d) refl
    | inl p ↦ elim (Bool-cases (lo == lo')) [
      | inr q ↦
          let d : (hi * 256 + lo == hi' * 256 + lo') ≡ false = ground arith in rw (p, q, d) refl
      | inl q ↦
          let d : (hi * 256 + lo == hi' * 256 + lo') ≡ true = ground arith in rw (p, q, d) refl
    ]
  ]

-- The numbers of two packets, as the sender has written them.
pub pre_check_confirmation-written :
    {W : Type 0} (a b : ℕ) (req rsp : List ℕ) (n : ℕ) (st : State Tcp W)
    → pre_check_confirmation (a / 256 ∷ a % 256 ∷ req) (b / 256 ∷ b % 256 ∷ rsp) n st
      ≡ (if a == b then ok (some 0, st) else ok (none, record st { errno = embbaddata }))
pre_check_confirmation-written a b req rsp n st =
    let p : a / 256 * 256 + a % 256 ≡ a = omega arith in
    let q : b / 256 * 256 + b % 256 ≡ b = omega arith in
    subst
      (λ k.
        pre_check_confirmation (a / 256 ∷ a % 256 ∷ req) (b / 256 ∷ b % 256 ∷ rsp) n st
        ≡ (if k == b then ok (some 0, st) else ok (none, record st { errno = embbaddata })))
      p
      (subst
        (λ l. pre_check_confirmation (a / 256 ∷ a % 256 ∷ req) (b / 256 ∷ b % 256 ∷ rsp) n st ≡ (
          if a / 256 * 256 + a % 256 == l
          then ok (some 0, st)
          else ok (none, record st { errno = embbaddata })))
        q
        (pre_check_confirmation-tid (a / 256) (a % 256) (b / 256) (b % 256) req rsp n st
          (omega arith) (omega arith)))
