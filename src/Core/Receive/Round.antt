-- ===== src/Core/Receive/Round.antt =====
-- One round of the loop of `_tta_receive_pkt` (src/tta.c): it keeps the buffer within its bounds.
use libtta.Base.{
  ℕ, ◌+◌, ◌-◌, ◌≤◌, ◌<◌, ◌≡◌, inl, inr, ◌∙◌, true, Bool-cases, ltb, leb, le→leb, ◌==◌,
  if◌then◌else◌, Option, none, some, List, [], ◌∷◌, ◌++◌, length, get_elem?, length-append,
  get_elem?-append, get_elem?-some, arith,
}
use libtta.Base.Run.{Returns, Returns-then, Returns-if, pure, then_run}
use libtta.Context.{State, Rc, Timeval, econnreset}
use libtta.Link.{System, Link}
use libtta.Core.Engine.{
  Step, step_hd, step_data, step_tail, Rx, compute_data_length_after_hd, next_step, restart_timer,
  took, received, selected, round, select_recovery, recv_recovery,
}
use libtta.Core.Sound.{IsCalm, IsSound, Fits}
use libtta.Core.Recovery.{select_recovery-errno, recv_recovery-errno}

module _ {D W : Type 0} (link : Link D W) where
  -- What holds of the local variables at the head of the loop.
  abbrev pub IsPart : Step → List ℕ → ℕ → Type 0
  IsPart step_hd pkt left = (length pkt + left ≡ link.header_length) × (0 < left)
  IsPart step_data pkt left =
      (len : ℕ) × (get_elem? pkt (link.header_length - 1) ≡ some len)
      × (length pkt + left ≡ link.header_length + (len + link.checksum_length))
      × (link.header_length ≤ length pkt)
      × (link.header_length + (len + link.checksum_length) ≤ link.max_adu_length)
  IsPart step_tail pkt left = ⊥

  abbrev pub IsRx : Rx → Type 0
  IsRx rx = IsPart rx.step rx.pkt rx.length_to_read

  -- The outcome of one round: the loop is left, or it goes on with more than `n` bytes.
  abbrev pub Grown : ℕ → Option Rx → Type 0
  Grown n none = Unit
  Grown n (some rx) = IsRx rx × (n < length rx.pkt)

module _ {D W : Type 0} (sys : System W) (rounds : ℕ) (link : Link D W) (cap : ℕ)
    (calm : IsCalm sys rounds) (sound : IsSound link cap) where
  -- After the header the number of bytes to come is its last byte and the checksums.
  next_step-Grown :
      (n left : ℕ) (pkt : List ℕ) (p_tv : Option Timeval) (st : State D W)
      → length pkt ≡ link.header_length
      → n < length pkt
      → Returns
          (next_step sys rounds link
            (record { pkt = pkt; length_to_read = left; step = step_hd; p_tv = p_tv })
            st)
          (λ r _. Grown link n r)
  unfolding next_step compute_data_length_after_hd
  next_step-Grown n left pkt p_tv st e h =
      let (len, found) =
        get_elem?-some (link.header_length - 1) pkt (omega (arith, sound.header_pos)) in
      rw (found, Returns)
        (elim (Bool-cases (ltb link.max_adu_length (length pkt + (len + link.checksum_length)))) [
          | inl long ↦ rw (long, Returns) tt
          | inr short ↦
              rw (short, Returns) ((len, found, ground arith, ground arith, ground arith), h)
        ])

  restart_timer-Grown :
      (n : ℕ) (next : Option Rx) (st : State D W)
      → Grown link n next
      → Returns (restart_timer sys rounds link next st) (λ r _. Grown link n r)
  unfolding restart_timer
  restart_timer-Grown n none st g = tt
  restart_timer-Grown n (some rx) st g = elim (Bool-cases (rx.length_to_read == 0)) [
    | inl z ↦ rw (z, Returns) g
    | inr z ↦ rw (z, Returns) g
  ]

  -- The rest of `took` once the bytes fit.
  took_rest :
      (rx : Rx) (bytes : List ℕ) (st : State D W)
      → leb (length rx.pkt + length bytes) cap ≡ true
      → Returns
          ((if rx.length_to_read - length bytes == 0
              then next_step sys rounds link (record rx {
                pkt = rx.pkt ++ bytes;
                length_to_read = rx.length_to_read - length bytes;
              })
              else pure (
                  some (record rx {
                    pkt = rx.pkt ++ bytes;
                    length_to_read = rx.length_to_read - length bytes;
                  })))
            st)
          (λ r _. Grown link (length rx.pkt) r)
      → Returns (took sys rounds link cap rx bytes st) (λ r _. Grown link (length rx.pkt) r)
  unfolding took
  took_rest rx bytes st fits h =
      rw (fits, Returns)
        (Returns-then (λ r _. Grown link (length rx.pkt) r) (λ r _. Grown link (length rx.pkt) r) _
          _ h (λ r s g. restart_timer-Grown (length rx.pkt) r s g))

  took-Grown :
      (step : Step) (pkt : List ℕ) (left : ℕ) (p_tv : Option Timeval) (bytes : List ℕ)
      (st : State D W)
      → IsPart link step pkt left
      → 0 < length bytes
      → length bytes ≤ left
      → Returns
          (took sys rounds link cap
            (record { pkt = pkt; length_to_read = left; step = step; p_tv = p_tv })
            bytes
            st)
          (λ r _. Grown link (length pkt) r)
  took-Grown step_hd pkt left p_tv bytes st (e, _) pos le =
      took_rest (record { pkt = pkt; length_to_read = left; step = step_hd; p_tv = p_tv }) bytes st
        (le→leb _ _ (omega (arith, sound.header_fits, sound.adu_fits)))
        (elim (Bool-cases (left - length bytes == 0)) [
          | inl z ↦
              rw (z, Returns)
                (next_step-Grown (length pkt) (left - length bytes) (pkt ++ bytes) p_tv st
                  (ground (arith, length-append pkt bytes))
                  (omega (arith, length-append pkt bytes)))
          | inr z ↦
              rw (z, Returns)
                (
                  (ground (arith, length-append pkt bytes), ground arith),
                  ground (arith, length-append pkt bytes),
                )
        ])
  took-Grown step_data pkt left p_tv bytes st (len, found, e, hd, adu) pos le =
      took_rest (record { pkt = pkt; length_to_read = left; step = step_data; p_tv = p_tv }) bytes
        st (le→leb _ _ (omega (arith, sound.adu_fits)))
        (Returns-if (λ r _. Grown link (length pkt) r) (left - length bytes == 0) _ _ st
          (unfold next_step in grown) grown)
    where
      grown : Grown link (length pkt) (
          some (record {
            pkt = pkt ++ bytes;
            length_to_read = left - length bytes;
            step = step_data;
            p_tv = p_tv;
          }))
      grown = (
        (
          len,
          get_elem?-append (link.header_length - 1) pkt bytes (omega (arith, sound.header_pos))
              ∙ found,
          omega (arith, length-append pkt bytes),
          omega (arith, length-append pkt bytes),
          adu,
        ),
        omega (arith, length-append pkt bytes),
      )
  took-Grown step_tail pkt left p_tv bytes st inv pos le = absurd inv

  -- A round that does not leave the loop has read a byte at least, within the buffer.
  pub round-Grown :
      (rx : Rx) (st : State D W)
      → IsRx link rx
      → Returns (round sys rounds link cap rx st) (λ r _. Grown link (length rx.pkt) r)
  unfolding round
  round-Grown rx st inv =
      Returns-then (λ _ _. Unit) (λ r _. Grown link (length rx.pkt) r) _ _
        (sound.select_returns rx.p_tv rx.length_to_read st) λ rc s _. chosen rc s
    where
      left_select :
          (s : State D W)
          → Returns
              (then_run (select_recovery sys rounds link s) (λ _. pure none))
              (λ r _. Grown link (length rx.pkt) r)
      left_select s =
          Returns-then (λ _ t. t.errno ≡ s.errno) (λ r _. Grown link (length rx.pkt) r) _ _
            (select_recovery-errno sys rounds link cap calm sound s) (λ _ t _. tt)

      left_recv :
          (s : State D W)
          → Returns
              (then_run (recv_recovery sys rounds link s) (λ _. pure none))
              (λ r _. Grown link (length rx.pkt) r)
      left_recv s =
          Returns-then (λ _ t. t.errno ≡ s.errno) (λ r _. Grown link (length rx.pkt) r) _ _
            (recv_recovery-errno sys rounds link cap calm sound s) (λ _ t _. tt)

      read :
          (r : Option (List ℕ)) (s : State D W)
          → Fits r rx.length_to_read
          → Returns (received sys rounds link cap rx r s) (λ r _. Grown link (length rx.pkt) r)
      read none s h = left_recv s
      read (some []) s h = left_recv (record s { errno = econnreset })
      read (some (b ∷ bs)) s h =
          took-Grown rx.step rx.pkt rx.length_to_read rx.p_tv (b ∷ bs) s inv (omega arith) h

      chosen :
          (rc : Rc) (s : State D W)
          → Returns (selected sys rounds link cap rx rc s) (λ r _. Grown link (length rx.pkt) r)
      chosen none s = left_select s
      chosen (some n) s =
          Returns-then (λ r _. Fits r rx.length_to_read) (λ r _. Grown link (length rx.pkt) r) _ _
            (sound.recv_returns rx.length_to_read s) (λ r t h. read r t h)
