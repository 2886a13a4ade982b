-- ===== src/Core/Confirm.antt =====
-- `check_confirmation` and `tta_request` of src/tta.c: from what the functions of a transport do with
-- a request and its answer to what the call returns.
use libtta.Base.{
  ℕ, ◌≡◌, refl, Bool, true, false, Bool-cases, inl, inr, if◌then◌else◌, Option, none, some, List,
}
use libtta.Base.Run.{M, ok, Returns, Returns-then, pure, ◌>>=◌}
use libtta.Context.{State, Rc, recovers_protocol}
use libtta.Message.{Ttamsg}
use libtta.Link.{System, Backend}
use libtta.Core.Engine.{send_pkt}
use libtta.Core.Api.{check_confirmation, request, max_message_length}
use libtta.Core.Sound.{IsCalm, IsSound}
use libtta.Core.Recovery.{sleep_and_flush-Returns}

module _ {D W : Type 0} where
  abbrev Confirmed : Bool → State D W → Rc → State D W → Type 0
  Confirmed true st rc t = (rc ≡ some 0) × (t ≡ st)
  Confirmed false st rc t = rc ≡ none

  -- What `tta_request` returns for an answer that is read as `msg` in the state `st`, by whether it
  -- belongs to the request.
  abbrev pub Answered : Bool → State D W → Ttamsg → Rc × Option Ttamsg → State D W → Type 0
  Answered true st msg r t = (r ≡ (some 0, some msg)) × (t ≡ st)
  Answered false st msg r t = r ≡ (none, none)

module _ {D W : Type 0} (sys : System W) (rounds : ℕ) (b : Backend D W) (cap : ℕ)
    (calm : IsCalm sys rounds) (sound : IsSound b.link cap) where
  check_confirmation-Confirmed :
      (same : Bool) (req rsp : List ℕ) (n : ℕ) (st u : State D W)
      → b.pre_check_confirmation req rsp n st ≡ (if same then ok (some 0, st) else ok (none, u))
      → Returns (check_confirmation sys rounds b req rsp n st) (Confirmed same st)
  unfolding check_confirmation
  check_confirmation-Confirmed true req rsp n st u e = rw (e, Returns) (refl, refl)
  check_confirmation-Confirmed false req rsp n st u e =
      elim (Bool-cases (recovers_protocol u.ctx)) [
        | inl r ↦
            rw (e, r, Returns)
              (Returns-then (λ _ _. Unit) (Confirmed false st) _ _
                (sleep_and_flush-Returns sys rounds b.link cap calm sound u) (λ _ t _. refl))
        | inr r ↦ rw (e, r, Returns) refl
      ]

  answer-Answered :
      (same : Bool) (msg : Ttamsg) (rsp : List ℕ) (rsplen : ℕ) (st : State D W)
      → b.conv_pkt2ttamsg rsp rsplen st ≡ ok (msg, st)
      → (rc : Rc) (t : State D W) → Confirmed same st rc t
      → let answer : M (State D W) (Rc × Option Ttamsg) = elim rc [
        | none ↦ pure (none, none)
        | some c ↦ b.conv_pkt2ttamsg rsp rsplen >>= λ ttarsp. pure (some c, some ttarsp)
      ] in
        Returns (answer t) (Answered same st msg)
  answer-Answered true msg rsp rsplen st read rc t (e, s) = rw (e, s, read, Returns) (refl, refl)
  answer-Answered false msg rsp rsplen st read rc t e = rw (e, Returns) refl

  -- Where sleeps end and the functions of the transport keep their part: a request that is written,
  -- sent and answered gives 0 and the message that the answer is read as if the answer is taken for
  -- its confirmation, and -1 otherwise.
  pub request-Answered :
      (same : Bool) (req msg : Ttamsg) (reqbuf rsp : List ℕ) (reqlen rsplen n : ℕ)
      (st st1 st2 st3 u : State D W)
      → b.conv_ttamsg2pkt req (sys.malloc max_message_length) st ≡ ok ((reqlen, reqbuf), st1)
      → send_pkt sys rounds b.link reqbuf reqlen st1 ≡ ok (some n, st2)
      → b.receive max_message_length true st2 ≡ ok ((some rsplen, rsp), st3)
      → b.pre_check_confirmation reqbuf rsp rsplen st3
        ≡ (if same then ok (some 0, st3) else ok (none, u))
      → b.conv_pkt2ttamsg rsp rsplen st3 ≡ ok (msg, st3)
      → Returns (request sys rounds b req st) (Answered same st3 msg)
  unfolding request
  request-Answered same req msg reqbuf rsp reqlen rsplen n st st1 st2 st3 u conv sent got check
        read =
      rw (conv, sent, got, Returns)
        (Returns-then (Confirmed same st3) (Answered same st3 msg) _ _
          (check_confirmation-Confirmed same reqbuf rsp rsplen st3 u check)
          (λ rc t h. answer-Answered same msg rsp rsplen st3 read rc t h))
