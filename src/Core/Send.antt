-- ===== src/Core/Send.antt =====
-- `_send_pkt` ends if failures do, and what its result says.
use libtta.Base.{
  ℕ, zero, suc, ◌<◌, ◌≡◌, refl, ◌⊎◌, inl, inr, false, not, Bool-cases, ◌&&◌, ◌==◌, ==_iff,
  if◌then◌else◌, ltb, none, some, List, arith,
}
use libtta.Base.Run.{M, Returns, Returns-then, pure, get, ◌>>=◌, then_run}
use libtta.Context.{State, Rc, embbaddata, recovers_link, fail_with}
use libtta.Link.{System, Link}
use libtta.Core.Engine.{send_recovery, send_loop, send_pkt}

-- Writes of this packet fail fewer than `rounds` times in a row: `failures` falls with each failed
-- write and the recovery that follows it.
pub record IsPatient {D W : Type 0} (sys : System W) (rounds : ℕ) (link : Link D W) (pkt : List ℕ)
    (n : ℕ) : Type 0 where
  pub failures : State D W → ℕ
  pub failures-lt : (st : State D W) → failures st < rounds
  pub send_returns :
      (st : State D W)
      → Returns (link.send pkt n st) (λ rc t.
        rc ≡ none → Returns (send_recovery sys rounds link t) (λ _ u. failures u < failures st))

-- The result is the whole packet or nothing, and a partial write is an error.
abbrev pub Sent : {D W : Type 0} → ℕ → Rc → State D W → Type 0
Sent n none t = (t.errno ≡ embbaddata) ⊎ (recovers_link t.ctx ≡ false)
Sent n (some k) t = (k ≡ 0) ⊎ (k ≡ n)

module _ {D W : Type 0} (sys : System W) (rounds : ℕ) (link : Link D W) (pkt : List ℕ) (n : ℕ)
    (patient : IsPatient sys rounds link pkt n) where
  -- A result of -1 leaves the loop only where links are not to be recovered.
  abbrev Left : Rc → State D W → Type 0
  Left none t = recovers_link t.ctx ≡ false
  Left (some k) t = Unit

  failed_round :
      (f : ℕ) (st t : State D W)
      → ((u : State D W)
          → patient.failures u < f
          → Returns (send_loop sys rounds link f pkt n u) Left)
      → patient.failures st < suc f
      → Returns (send_recovery sys rounds link t) (λ _ u. patient.failures u < patient.failures st)
      → Returns
          (then_run (send_recovery sys rounds link t) (λ _. get >>= λ u.
            if recovers_link u.ctx then send_loop sys rounds link f pkt n else pure none))
          Left
  failed_round f st t ih h r =
      Returns-then (λ _ u. patient.failures u < patient.failures st) Left _ _ r
        λ _ u lt. elim (Bool-cases (recovers_link u.ctx)) [
          | inl on ↦ rw (on, Returns) (ih u (omega arith))
          | inr off ↦ rw (off, Returns) off
        ]

  loop-Left :
      (f : ℕ) (st : State D W)
      → patient.failures st < f
      → Returns (send_loop sys rounds link f pkt n st) Left
  unfolding send_loop
  loop-Left zero st h = absurd (omega arith)
  loop-Left (suc f) st h =
      Returns-then
        (λ rc t.
          rc ≡ none
          → Returns (send_recovery sys rounds link t)
              (λ _ u. patient.failures u < patient.failures st))
        Left _ _ (patient.send_returns st) (λ rc t. tried rc t (loop-Left f))
    where
      tried :
          (rc : Rc) (t : State D W)
          → ((u : State D W)
              → patient.failures u < f
              → Returns (send_loop sys rounds link f pkt n u) Left)
          → (rc ≡ none
              → Returns
                  (send_recovery sys rounds link t)
                  (λ _ u. patient.failures u < patient.failures st))
          → let m : M (State D W) Rc = elim rc [
            | some n ↦ pure (some n)
            | none ↦ send_recovery sys rounds link >>= λ _. get >>= λ u.
                if recovers_link u.ctx then send_loop sys rounds link f pkt n else pure none
          ] in
            Returns (m t) Left
      tried (some k) t ih r = tt
      tried none t ih r = failed_round f st t ih h (r refl)

  -- Where failures end, sending a packet ends, and returns the length of the whole packet, 0, or
  -- -1; -1 comes from a partial write, which sets `EMBBADDATA`, or from a link that is not to be
  -- recovered.
  pub send_pkt-Sent : (st : State D W) → Returns (send_pkt sys rounds link pkt n st) (Sent n)
  unfolding send_pkt
  send_pkt-Sent st =
      Returns-then Left (Sent n) _ _ (loop-Left rounds st (patient.failures-lt st)) judged
    where
      judged :
          (rc : Rc) (t : State D W)
          → Left rc t
          → let m : M (State D W) Rc = elim rc [
            | none ↦ pure none
            | some k ↦ if ltb 0 k && not (k == n) then fail_with embbaddata else pure (some k)
          ] in
            Returns (m t) (Sent n)
      judged none t off = inr off
      judged (some k) t _ = elim (Bool-cases (ltb 0 k)) [
        | inr z ↦ rw (z, Returns) (inl (ground arith))
        | inl z ↦ elim (Bool-cases (k == n)) [
          | inl e ↦ rw (z, e, Returns) (inr ((==_iff k n).0 e))
          | inr e ↦ rw (z, e, Returns) (inl refl)
        ]
      ]
