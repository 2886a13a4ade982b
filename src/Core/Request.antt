-- ===== src/Core/Request.antt =====
-- `tta_request` of src/tta.c returns, and what it hands out is whole, whatever bytes come in.
use libtta.Base.{ℕ, ◌≡◌, true, Bool-cases, inl, inr, Option, none, some, List}
use libtta.Base.Run.{M, ok, Returns, Returns-then, Returns-option, gets, pure, ◌>>=◌}
use libtta.Context.{State, Rc, recovers_protocol}
use libtta.Link.{System, Backend}
use libtta.Message.{Ttamsg}
use libtta.Message.Laws.{IsWhole}
use libtta.Core.Api.{check_confirmation, request, max_message_length}
use libtta.Core.Engine.{send_pkt, sleep_and_flush}
use libtta.Core.Recovery.{sleep_and_flush-Returns}
use libtta.Core.Sound.{IsCalm, IsSound, IsFrame}
use libtta.Core.Whole.{IsReceived}

-- The verdict on a confirmation: -1 or 0.
abbrev pub IsVerdict : Rc → Type 0
IsVerdict none = Unit
IsVerdict (some n) = n ≡ 0

-- The result of `tta_request`: -1 alone, or 0 with a message that is whole.
abbrev pub Answer : Rc × Option Ttamsg → Type 0
Answer (none, none) = Unit
Answer (none, some msg) = ⊥
Answer (some n, none) = ⊥
Answer (some n, some msg) = (n ≡ 0) × IsWhole msg

module _ {D W : Type 0} (sys : System W) (rounds : ℕ) (b : Backend D W) (cap : ℕ)
    (calm : IsCalm sys rounds) (sound : IsSound b.link cap)
    (converts : (pkt : List ℕ) (n : ℕ) (st : State D W)
      → IsFrame b.link pkt
      → Returns (b.conv_pkt2ttamsg pkt n st) (λ msg _. IsWhole msg))
    (req : List ℕ)
    (compares : (rsp : List ℕ) (n : ℕ) (st : State D W)
      → IsFrame b.link rsp
      → Returns (b.pre_check_confirmation req rsp n st) (λ rc _. IsVerdict rc)) where
  check-IsVerdict :
      (rsp : List ℕ) (n : ℕ) (st : State D W)
      → IsFrame b.link rsp
      → Returns (check_confirmation sys rounds b req rsp n st) (λ rc _. IsVerdict rc)
  unfolding check_confirmation
  check-IsVerdict rsp n st frame =
      Returns-then (λ rc _. IsVerdict rc) (λ rc _. IsVerdict rc) _ _ (compares rsp n st frame)
        judged
    where
      judged :
          (rc : Rc) (t : State D W)
          → IsVerdict rc
          → let rest : M (State D W) Rc = elim rc [
            | none ↦ gets (λ st. recovers_protocol st.ctx) >>= λ r. elim r [
              | true ↦ sleep_and_flush sys rounds b.link >>= λ _. pure none
              | _ ↦ pure none
            ]
            | some n ↦ pure (some n)
          ] in
            Returns (rest t) (λ rc _. IsVerdict rc)
      judged (some n) t h = h
      judged none t h = elim (Bool-cases (recovers_protocol t.ctx)) [
        | inl on ↦
            rw (on, Returns)
              (Returns-then (λ _ _. Unit) (λ rc _. IsVerdict rc) _ _
                (sleep_and_flush-Returns sys rounds b.link cap calm sound t) (λ _ _ _. tt))
        | inr off ↦ rw (off, Returns) tt
      ]

  confirmed-Answer :
      (pkt : List ℕ) (n : ℕ)
      → IsFrame b.link pkt
      → (rc : Rc) (t : State D W) → IsVerdict rc
      → let rest : M (State D W) (Rc × Option Ttamsg) = elim rc [
        | none ↦ pure (none, none)
        | some c ↦ b.conv_pkt2ttamsg pkt n >>= λ ttarsp. pure (some c, some ttarsp)
      ] in
        Returns (rest t) (λ r _. Answer r)
  confirmed-Answer pkt n frame none t h = tt
  confirmed-Answer pkt n frame (some c) t h =
      Returns-then (λ msg _. IsWhole msg) (λ r _. Answer r) (b.conv_pkt2ttamsg pkt n t) _
        (converts pkt n t frame) (λ msg u whole. (h, whole))

  received-Answer :
      (r : Rc × List ℕ) (t : State D W)
      → IsReceived b.link r
      → let rest : M (State D W) (Rc × Option Ttamsg) = elim r.0 [
        | none ↦ pure (none, none)
        | some rsplen ↦ check_confirmation sys rounds b req r.1 rsplen >>= λ rc. elim rc [
          | none ↦ pure (none, none)
          | some c ↦ b.conv_pkt2ttamsg r.1 rsplen >>= λ ttarsp. pure (some c, some ttarsp)
        ]
      ] in
        Returns (rest t) (λ r _. Answer r)
  received-Answer (none, pkt) t h = tt
  received-Answer (some n, pkt) t frame =
      Returns-then (λ rc _. IsVerdict rc) (λ r _. Answer r) _ _ (check-IsVerdict pkt n t frame)
        (confirmed-Answer pkt n frame)

  -- From the packet of the request on, where sending ends in a state from which a packet is received
  -- whole or not at all.
  pub request-Answer :
      (msg : Ttamsg) (reqlen : ℕ) (st st1 : State D W) (Good : State D W → Type 0)
      → b.conv_ttamsg2pkt msg (sys.malloc max_message_length) st ≡ ok ((reqlen, req), st1)
      → Returns (send_pkt sys rounds b.link req reqlen st1) (λ _ t. Good t)
      → ((t : State D W)
          → Good t
          → Returns (b.receive max_message_length true t) (λ r _. IsReceived b.link r))
      → Returns (request sys rounds b msg st) (λ r _. Answer r)
  unfolding request
  request-Answer msg reqlen st st1 Good conv sent receives =
      rw (conv, Returns)
        (Returns-then (λ _ t. Good t) (λ r _. Answer r) _ _ sent
          λ rc t good.
            Returns-option (λ r _. Answer r) rc _ _ t tt
              λ n.
                Returns-then (λ r _. IsReceived b.link r) (λ r _. Answer r) _ _ (receives t good)
                  received-Answer)
