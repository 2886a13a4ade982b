-- ===== src/Core/Stream/Round.antt =====
-- One round of the loop of `_tta_receive_pkt` (src/tta.c), while bytes are pending.
use libtta.Base.{
  ℕ, ◌+◌, ◌-◌, ◌≤◌, ◌<◌, ◌≡◌, sym, subst, ap, ◌∙◌, inl, inr, true, false, Bool-cases, ltb, leb,
  le→leb, ◌==◌, if◌then◌else◌, Option, none, some, List, [], ◌∷◌, ◌++◌, append_assoc, length,
  get_elem?, length-append, get_elem?-append, arith,
}
use libtta.Base.Run.{Returns, Returns-then, pure}
use libtta.Context.{State, Rc, Timeval}
use libtta.Link.{System, Link}
use libtta.Core.Engine.{
  Step, step_hd, step_data, step_tail, Rx, compute_data_length_after_hd, next_step, restart_timer,
  took, received, selected, round,
}
use libtta.Core.Stream.Source.{Ready, Taken, Delivers, IsFirst}

module _ {D W : Type 0} (sys : System W) (rounds : ℕ) (link : Link D W) (cap : ℕ)
    (delivers : Delivers link) (frame rest : List ℕ) (first : IsFirst link cap frame) where
  abbrev pub Part : Step → ℕ → ℕ → Type 0
  Part step_hd n left = (n + left ≡ link.header_length) × (0 < left)
  Part step_data n left = (n + left ≡ length frame) × (link.header_length ≤ n)
  Part step_tail n left = ⊥

  -- What has been read and what is pending make up the packet and the rest.
  abbrev pub Split : State D W → Rx → Type 0
  Split st rx =
      (rx.pkt ++ delivers.pending st ≡ frame ++ rest)
      × delivers.idle st
      × Part rx.step (length rx.pkt) rx.length_to_read

  abbrev pub Next : ℕ → Option Rx → State D W → Type 0
  Next n none t = ⊥
  Next n (some rx) t = Split t rx × (n < length rx.pkt)

  pub Part-left : (step : Step) (n left : ℕ) → Part step n left → n + left ≤ length frame
  Part-left step_hd n left (e, pos) = omega (arith, first.size)
  Part-left step_data n left (e, hd) = omega arith
  Part-left step_tail n left inv = absurd inv

  timer-Next :
      (n : ℕ) (next : Option Rx) (st : State D W)
      → Next n next st
      → Returns (restart_timer sys rounds link next st) (Next n)
  unfolding restart_timer
  timer-Next n none st g = absurd g
  timer-Next n (some rx) st g = elim (Bool-cases (rx.length_to_read == 0)) [
    | inl z ↦ rw (z, Returns) g
    | inr z ↦ rw (z, Returns) g
  ]

  -- The header is complete.
  header-Next :
      (n left : ℕ) (pkt : List ℕ) (p_tv : Option Timeval) (st : State D W)
      → pkt ++ delivers.pending st ≡ frame ++ rest
      → delivers.idle st
      → length pkt ≡ link.header_length
      → n < length pkt
      → Returns
          (next_step sys rounds link
            (record { pkt = pkt; length_to_read = left; step = step_hd; p_tv = p_tv })
            st)
          (Next n)
  unfolding next_step compute_data_length_after_hd
  header-Next n left pkt p_tv st e calm hd lt =
      let i = link.header_length - 1 in
      let here : get_elem? pkt i ≡ some first.len =
        sym (get_elem?-append i pkt (delivers.pending st) (omega (arith, first.header_pos)))
        ∙ ap (λ l. get_elem? l i) e
        ∙ get_elem?-append i frame rest (omega (arith, first.header_pos, first.size))
        ∙ first.found in
      let short : ltb link.max_adu_length (length pkt + (first.len + link.checksum_length))
          ≡ false =
        ground (arith, first.size, first.adu) in
      rw (here, short, Returns) ((e, calm, (omega (arith, first.size), omega arith)), lt)

  whole-Next :
      (step : Step) (pkt bytes : List ℕ) (left : ℕ) (p_tv : Option Timeval) (st : State D W)
      → (pkt ++ bytes) ++ delivers.pending st ≡ frame ++ rest
      → delivers.idle st
      → Part step (length pkt) left
      → 0 < length bytes
      → length bytes ≤ left
      → Returns
          ((if left - length bytes == 0
              then next_step sys rounds link (record {
                pkt = pkt ++ bytes;
                length_to_read = left - length bytes;
                step = step;
                p_tv = p_tv;
              })
              else pure (
                  some (record {
                    pkt = pkt ++ bytes;
                    length_to_read = left - length bytes;
                    step = step;
                    p_tv = p_tv;
                  })))
            st)
          (Next (length pkt))
  unfolding next_step
  whole-Next step_tail pkt bytes left p_tv st e calm inv pos le = absurd inv
  whole-Next step_hd pkt bytes left p_tv st e calm (hd, _) pos le =
      elim (Bool-cases (left - length bytes == 0)) [
        | inl z ↦
            rw (z, Returns)
              (header-Next (length pkt) (left - length bytes) (pkt ++ bytes) p_tv st e calm
                (ground (arith, length-append pkt bytes)) (omega (arith, length-append pkt bytes)))
        | inr z ↦
            rw (z, Returns)
              (
                (e, calm, (ground (arith, length-append pkt bytes), ground arith)),
                omega (arith, length-append pkt bytes),
              )
      ]
  whole-Next step_data pkt bytes left p_tv st e calm (sum, hd) pos le =
      elim (Bool-cases (left - length bytes == 0)) [
        | inl z ↦ rw (z, Returns) grown
        | inr z ↦ rw (z, Returns) grown
      ]
    where
      grown :
          Next
            (length pkt)
            (some (record {
              pkt = pkt ++ bytes;
              length_to_read = left - length bytes;
              step = step_data;
              p_tv = p_tv;
            }))
            st
      grown = (
        (e, calm, (omega (arith, length-append pkt bytes), omega (arith, length-append pkt bytes))),
        omega (arith, length-append pkt bytes),
      )

  took-Next :
      (rx : Rx) (bytes : List ℕ) (st st' : State D W)
      → Split st rx
      → Taken delivers.pending delivers.idle rx.length_to_read
          (delivers.pending st)
          (some bytes)
          st'
      → Returns (took sys rounds link cap rx bytes st') (Next (length rx.pkt))
  unfolding took
  took-Next rx bytes st st' (e, _, part) (pos, le, q, calm) =
      let fits : leb (length rx.pkt + length bytes) cap ≡ true = le→leb _ _ (
        omega (
          arith,
          Part-left rx.step (length rx.pkt) rx.length_to_read part,
          first.adu,
          first.room,
        )) in
      let e' : (rx.pkt ++ bytes) ++ delivers.pending st' ≡ frame ++ rest =
        append_assoc rx.pkt bytes (delivers.pending st') ∙ ap (λ l. rx.pkt ++ l) (sym q) ∙ e in
      rw (fits, Returns)
        (Returns-then (Next (length rx.pkt)) (Next (length rx.pkt)) _ _
          (whole-Next rx.step rx.pkt bytes rx.length_to_read rx.p_tv st' e' calm part pos le)
          (λ r t g. timer-Next (length rx.pkt) r t g))

  received-Next :
      (rx : Rx) (r : Option (List ℕ)) (st st' : State D W)
      → Split st rx
      → Taken delivers.pending delivers.idle rx.length_to_read (delivers.pending st) r st'
      → Returns (received sys rounds link cap rx r st') (Next (length rx.pkt))
  unfolding received took
  received-Next rx none st st' inv h = absurd h
  received-Next rx (some []) st st' inv h = absurd (omega (arith, h.0))
  received-Next rx (some (b ∷ bs)) st st' inv h = took-Next rx (b ∷ bs) st st' inv h

  -- What is left of the packet is pending.
  left_pending :
      (rx : Rx) (st : State D W) → Split st rx → rx.length_to_read ≤ length (delivers.pending st)
  left_pending rx st (e, _, part) = omega (
    arith,
    Part-left rx.step (length rx.pkt) rx.length_to_read part,
    ap length e,
    length-append rx.pkt (delivers.pending st),
    length-append frame rest,
  )

  pub round-Next :
      (rx : Rx) (st : State D W)
      → Split st rx
      → 0 < rx.length_to_read
      → Returns (round sys rounds link cap rx st) (Next (length rx.pkt))
  unfolding round
  round-Next rx st (e, calm, part) pos =
      Returns-then (Ready delivers.pending (delivers.ready rx.length_to_read) (delivers.pending st))
        (Next (length rx.pkt)) _ _
        (delivers.select_waits rx.p_tv rx.length_to_read st calm pos
          (left_pending rx st (e, calm, part)))
        (λ rc t h. chosen rc t h)
    where
      chosen :
          (rc : Rc) (t : State D W)
          → Ready delivers.pending (delivers.ready rx.length_to_read) (delivers.pending st) rc t
          → Returns (selected sys rounds link cap rx rc t) (Next (length rx.pkt))
      chosen none t h = absurd h
      chosen (some n) t h =
          let more : 0 < length (delivers.pending t) =
            omega (arith, left_pending rx st (e, calm, part), ap length h.0) in
          Returns-then (Taken delivers.pending delivers.idle rx.length_to_read (delivers.pending t))
            (Next (length rx.pkt)) _ _ (delivers.recv_takes rx.length_to_read t h.1 pos more)
            (λ r u g.
              received-Next rx r st u (e, calm, part)
                (subst (λ p. Taken delivers.pending delivers.idle rx.length_to_read p r u) h.0 g))
