-- ===== src/Core/Whole.antt =====
-- `tta_receive` of src/tta.c hands out whole messages, whatever bytes come in.
use libtta.Base.{ℕ, Bool, Option, none, some, List}
use libtta.Base.Run.{M, Returns, Returns-then, pure, ◌>>=◌}
use libtta.Context.{State, Rc}
use libtta.Link.{System, Link, Backend}
use libtta.Message.{Ttamsg}
use libtta.Message.Laws.{IsWhole}
use libtta.Core.Api.{receive, max_message_length}
use libtta.Core.Sound.{IsFrame}

module _ {D W : Type 0} where
  -- The result of `receive` of a transport: -1, or a code with a packet that is whole.
  abbrev pub IsReceived : Link D W → Rc × List ℕ → Type 0
  IsReceived link (none, pkt) = Unit
  IsReceived link (some n, pkt) = IsFrame link pkt

-- The result of `tta_receive`: -1 alone, or a length with a message that is whole.
abbrev pub Delivered : Rc × Option Ttamsg → Type 0
Delivered (none, none) = Unit
Delivered (none, some msg) = ⊥
Delivered (some n, none) = ⊥
Delivered (some n, some msg) = IsWhole msg

module _ {D W : Type 0} (sys : System W) (rounds : ℕ) (b : Backend D W)
    (converts : (pkt : List ℕ) (n : ℕ) (st : State D W)
      → IsFrame b.link pkt
      → Returns (b.conv_pkt2ttamsg pkt n st) (λ msg _. IsWhole msg)) where
  converted :
      (r : Rc × List ℕ) (t : State D W)
      → IsReceived b.link r
      → let rest : M (State D W) (Rc × Option Ttamsg) = elim r.0 [
        | none ↦ pure (none, none)
        | some n ↦ b.conv_pkt2ttamsg r.1 n >>= λ msg. pure (some n, some msg)
      ] in
        Returns (rest t) (λ r _. Delivered r)
  converted (none, pkt) t h = tt
  converted (some n, pkt) t frame =
      Returns-then (λ msg _. IsWhole msg) (λ r _. Delivered r) (b.conv_pkt2ttamsg pkt n t) _
        (converts pkt n t frame) (λ msg u whole. whole)

  pub receive-Delivered :
      (fgtm : Bool) (st : State D W)
      → Returns (b.receive max_message_length fgtm st) (λ r _. IsReceived b.link r)
      → Returns (receive sys rounds b fgtm st) (λ r _. Delivered r)
  unfolding receive
  receive-Delivered fgtm st h =
      Returns-then (λ r _. IsReceived b.link r) (λ r _. Delivered r) _ _ h converted
