-- ===== src/Core/Receive.antt =====
-- `_tta_receive_pkt` ends, stays within the packet buffer and accepts whole packets only.
mod Round
use libtta.Base.{
  ℕ, zero, suc, ◌+◌, ◌-◌, ◌≤◌, ◌<◌, ◌≡◌, refl, inl, inr, ◌⊎◌, ◌∙◌, Bool, true, Bool-cases, ltb, leb,
  le→leb, ◌==◌, ==_iff, if◌then◌else◌, Option, none, some, List, [], ◌∷◌, ◌++◌, length, get_elem?,
  length-append, get_elem?-append, get_elem?-some, arith,
}
use libtta.Base.Run.{ok, Returns, Returns-then, Returns-ok, Returns-if, pure, then_run}
use libtta.Context.{State, Rc, Timeval, econnreset}
use libtta.Link.{System, Link}
use libtta.Core.Engine.{
  Step, step_hd, step_data, step_tail, Rx, compute_data_length_after_hd, next_step, restart_timer,
  took, received, selected, round, go_on, receive_loop, receive_pkt, select_recovery, recv_recovery,
}
use libtta.Core.Sound.{IsCalm, IsSound, IsFrame, Fits}
use libtta.Core.Recovery.{select_recovery-errno, recv_recovery-errno}
use Round.{IsPart, IsRx, Grown, round-Grown}

module _ {D W : Type 0} (sys : System W) (rounds : ℕ) (link : Link D W) (cap : ℕ)
    (calm : IsCalm sys rounds) (sound : IsSound link cap) where
  part_fits :
      (step : Step) (pkt : List ℕ) (left : ℕ)
      → IsPart link step pkt left
      → length pkt ≤ link.max_adu_length
  part_fits step_hd pkt left (e, pos) = omega (arith, sound.header_fits)
  part_fits step_data pkt left (len, found, e, hd, adu) = omega arith
  part_fits step_tail pkt left inv = absurd inv

  part_whole :
      (step : Step) (pkt : List ℕ) (left : ℕ)
      → IsPart link step pkt left
      → left ≡ 0
      → IsFrame link pkt
  part_whole step_hd pkt left (e, pos) z = absurd (omega arith)
  part_whole step_data pkt left (len, found, e, hd, adu) z = (len, found, omega arith)
  part_whole step_tail pkt left inv z = absurd inv

  -- The loop's result: the code -1, or the verdict of the transport on a whole packet.
  abbrev pub Accepted : Rc × List ℕ → Type 0
  Accepted (rc, pkt) =
      (length pkt ≤ link.max_adu_length)
      × (rc ≡ none
          ⊎ (IsFrame link pkt
              × ((t t' : State D W) × (link.check_integrity pkt (length pkt) t ≡ ok (rc, t')))))

  went_on :
      (f : ℕ) (pkt : List ℕ) (next : Option Rx) (s : State D W)
      → length pkt ≤ link.max_adu_length
      → cap < suc f + length pkt
      → Grown link (length pkt) next
      → ((rx : Rx) (t : State D W)
          → IsRx link rx
          → cap < f + length rx.pkt
          → Returns (receive_loop sys rounds link f cap rx t) (λ r _. Accepted r))
      → Returns
          (go_on sys rounds link pkt (receive_loop sys rounds link f cap) next s)
          (λ r _. Accepted r)
  went_on f pkt none s small h g ih = (small, inl refl)
  went_on f pkt (some rx) s small h g ih = ih rx s g.0 (omega arith)

  receive_loop-Accepted :
      (f : ℕ) (rx : Rx) (st : State D W)
      → IsRx link rx
      → cap < f + length rx.pkt
      → Returns (receive_loop sys rounds link f cap rx st) (λ r _. Accepted r)
  unfolding receive_loop
  receive_loop-Accepted zero rx st inv h =
      absurd (omega (arith, part_fits rx.step rx.pkt rx.length_to_read inv, sound.adu_fits))
  receive_loop-Accepted (suc f) rx st inv h = elim (Bool-cases (rx.length_to_read == 0)) [
    | inl z ↦ rw (z, Returns) (checked (part_whole _ _ _ inv ((==_iff _ 0).0 z)))
    | inr more ↦
        rw (more, Returns)
          (Returns-then (λ r _. Grown link (length rx.pkt) r) (λ r _. Accepted r) _ _
            (round-Grown sys rounds link cap calm sound rx st inv)
            (λ next s g. went_on f rx.pkt next s small h g (receive_loop-Accepted f)))
  ]
    where
      small : length rx.pkt ≤ link.max_adu_length
      small = part_fits rx.step rx.pkt rx.length_to_read inv

      checked :
          IsFrame link rx.pkt
          → Returns
              (then_run (link.check_integrity rx.pkt (length rx.pkt) st) (λ rc. pure (rc, rx.pkt)))
              (λ r _. Accepted r)
      checked frame =
          let (rc, t, e, _) =
            Returns-ok (λ _ _. Unit {0}) _ (sound.check_returns rx.pkt st frame) in
          rw (e, Returns) (small, inr (frame, (st, t, e)))

  -- Over any transport that keeps its part, and where sleeps end, receiving a packet ends, writes no
  -- byte past the longest packet that the transport admits, and returns either -1 or what the
  -- integrity check of the transport said of a whole packet.
  pub receive_pkt-Accepted :
      (fgtimeout : Bool) (st : State D W)
      → Returns (receive_pkt sys rounds link cap fgtimeout st) (λ r _. Accepted r)
  unfolding receive_pkt
  receive_pkt-Accepted fgtimeout st =
      receive_loop-Accepted (cap + 1) _ st (ground (arith, sound.header_pos)) (omega arith)
