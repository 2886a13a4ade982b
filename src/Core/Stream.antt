-- ===== src/Core/Stream.antt =====
-- Bytes that arrive in pieces: whatever the pieces are, `_tta_receive_pkt` cuts the first packet out.
mod Source
mod Round
pub use Source.{Ready, Taken, Delivers, IsFirst}
use libtta.Base.{
  ℕ, zero, suc, ◌+◌, ◌-◌, ◌≤◌, ◌<◌, ◌≡◌, refl, sym, ap, ◌∙◌, inl, inr, Bool, true, false,
  Bool-cases, ltb, leb, le→leb, ◌==◌, ==_iff, if◌then◌else◌, Option, none, some, List, [], ◌∷◌,
  ◌++◌, append_assoc, length, get_elem?, length-append, get_elem?-append, arith,
}
use libtta.Base.Run.{Outcome, Returns, Returns-then, Returns-ok, pure, then_run}
use libtta.Context.{State, Rc, Timeval}
use libtta.Link.{System, Link}
use libtta.Core.Engine.{
  Step, step_hd, step_data, step_tail, Rx, compute_data_length_after_hd, next_step, restart_timer,
  took, received, selected, round, go_on, receive_loop, receive_pkt,
}
use Source.{same_front}
use Round.{Part, Split, Next, Part-left, round-Next}

module _ {D W : Type 0} (sys : System W) (rounds : ℕ) (link : Link D W) (cap : ℕ)
    (delivers : Delivers link) (frame rest : List ℕ) (first : IsFirst link cap frame) where
  -- What the loop comes to: the check of the packet, with the rest still pending, and no read begun.
  abbrev pub Checks : Outcome ((Rc × List ℕ) × State D W) → Type 0
  Checks o =
      (t : State D W) × (delivers.pending t ≡ rest)
      × delivers.idle t
      × (o ≡ then_run (link.check_integrity frame (length frame) t) (λ rc. pure (rc, frame)))

  whole-Part :
      (step : Step) (n left : ℕ)
      → Part sys rounds link cap delivers frame rest first step n left
      → left ≡ 0
      → n ≡ length frame
  whole-Part step_hd n left (e, pos) z = absurd (omega arith)
  whole-Part step_data n left (e, hd) z = omega arith
  whole-Part step_tail n left inv z = absurd inv

  loop-Checks :
      (f : ℕ) (rx : Rx) (st : State D W)
      → Split sys rounds link cap delivers frame rest first st rx
      → cap < f + length rx.pkt
      → Checks (receive_loop sys rounds link f cap rx st)
  unfolding receive_loop
  loop-Checks zero rx st (e, calm, part) h = absurd (
      omega (
        arith,
        Part-left sys rounds link cap delivers frame rest first rx.step (length rx.pkt)
            rx.length_to_read part,
        first.adu,
        first.room,
      ))
  loop-Checks (suc f) rx st (e, calm, part) h = elim (Bool-cases (rx.length_to_read == 0)) [
    | inl z ↦
        let whole = whole-Part rx.step (length rx.pkt) rx.length_to_read part ((==_iff _ 0).0 z) in
        let (p, q) = same_front rx.pkt frame (delivers.pending st) rest e whole in
        (st, q, calm, rw (z, p) refl)
    | inr more ↦
        let (next, t, run, g) =
          Returns-ok (Next sys rounds link cap delivers frame rest first (length rx.pkt))
            (round sys rounds link cap rx st)
            (round-Next sys rounds link cap delivers frame rest first rx st (e, calm, part)
              (ground arith)) in
        rw (more, run, Checks) (went_on f rx next t h g (loop-Checks f))
  ]
    where
      went_on :
          (f : ℕ) (rx : Rx) (next : Option Rx) (t : State D W)
          → cap < suc f + length rx.pkt
          → Next sys rounds link cap delivers frame rest first (length rx.pkt) next t
          → ((rx : Rx) (st : State D W)
              → Split sys rounds link cap delivers frame rest first st rx
              → cap < f + length rx.pkt
              → Checks (receive_loop sys rounds link f cap rx st))
          → Checks (go_on sys rounds link rx.pkt (receive_loop sys rounds link f cap) next t)
      went_on f rx none t h g ih = absurd g
      went_on f rx (some rx') t h g ih = ih rx' t g.0 (omega arith)

  -- Where the pending bytes start with a whole packet that the transport admits, and arrive in
  -- pieces of any size, receiving comes to the integrity check of exactly that packet, and leaves
  -- the bytes behind it pending.
  pub receive_pkt-Checks :
      (fgtimeout : Bool) (st : State D W)
      → delivers.pending st ≡ frame ++ rest
      → delivers.idle st
      → Checks (receive_pkt sys rounds link cap fgtimeout st)
  unfolding receive_pkt
  receive_pkt-Checks fgtimeout st e calm =
      loop-Checks (cap + 1) _ st (e, calm, (omega arith, first.header_pos)) (omega arith)
