-- ===== src/Core/Owned.antt =====
-- `tta_reply` of src/tta.c with the heap that it takes its message from. The function `conv_ttamsg2pkt`
-- of each transport ends with `ttamsg_free`, so that sending a message gives it back.
use libtta.Base.{ℕ, ◌≡◌, suc, refl, none, List, [], ◌∷◌, ◌++◌, length, bit_or, u8}
use libtta.Base.Run.{M, Outcome, ok, fault, stuck, pure, then_run, ◌>>=◌}
use libtta.Base.Buffer.{load}
use libtta.Context.{State, Rc}
use libtta.Link.{System, Backend}
use libtta.Message.{Ttamsg}
use libtta.Message.Heap.{Msg, Heap, view, ttamsg_make, ttamsg_free}
use libtta.Message.Heap.Laws.{owned, view_lem, free_lem}
use libtta.Core.Api
use libtta.Core.Api.{max_message_length}
use libtta.Core.Engine.{send_pkt}

-- The outcome of a step on the heap, in a state that it does not touch.
abbrev on_heap : {A S : Type 0} → Outcome (A × Heap) → M S (A × Heap)
on_heap (ok r) st = ok (r, st)
on_heap fault st = fault
on_heap stuck st = stuck

module _ {D W : Type 0} (sys : System W) (rounds : ℕ) (b : Backend D W) (raw : Msg) where
  -- `tta_send` of a message on the heap. Each transport reads the message, writes the packet, and
  -- gives the message back before the packet is sent.
  unfoldable pub send : ℕ → Heap → M (State D W) (Rc × Heap)
  unfolding ttamsg_free
  send p h = do
    (ttamsg, h1) ← on_heap (view p h)
    (buflen, buf) ← b.conv_ttamsg2pkt ttamsg (sys.malloc max_message_length)
    (_, h2) ← on_heap (ttamsg_free p h1)
    rc ← send_pkt sys rounds b.link buf buflen
    pure (rc, h2)

  unfoldable pub reply : Ttamsg → List ℕ → ℕ → Heap → M (State D W) (Rc × Heap)
  reply ttareq src datalen h = do
    devid ← load ttareq.buf 0
    subid ← load ttareq.buf 1
    cmd ← load ttareq.buf 2
    (p, h1) ← on_heap (ttamsg_make sys.malloc raw devid subid (bit_or cmd 0x80) src (u8 datalen) h)
    send p h1

  -- Sending a message that is alone in two blocks behind those of `h` gives both back.
  pub send-freed :
      (n : ℕ) (l : List ℕ) (h : Heap) (st : State D W)
      → send (suc (length h)) (owned h n l) st
        ≡ then_run
            (Api.send sys rounds b (record { tid = 0; len = n; buf = l }) st)
            (λ rc. pure (rc, h ++ (none ∷ none ∷ [])))
  unfolding send Api.send
  send-freed n l h st = rw (view_lem n l h) (
      given_back (
        b.conv_ttamsg2pkt (record { tid = 0; len = n; buf = l }) (sys.malloc max_message_length)
          st))
    where
      given_back :
          (o : Outcome ((ℕ × List ℕ) × State D W))
          → then_run {B = Rc × Heap} o (λ r.
            on_heap (ttamsg_free (suc (length h)) (owned h n l)) >>= λ freed.
            send_pkt sys rounds b.link r.1 r.0 >>= λ rc. pure (rc, freed.1))
            ≡ then_run {B = Rc × Heap}
                (then_run o (λ r. send_pkt sys rounds b.link r.1 r.0))
                (λ rc. pure (rc, h ++ (none ∷ none ∷ [])))
      given_back (ok ((buflen, buf), t)) = rw (free_lem n l h) refl
      given_back fault = refl
      given_back stuck = refl
