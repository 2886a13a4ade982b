-- ===== src/Rs485/Port/Laws.antt =====
-- What reaches the line: `write_uart`, and a message from `tta_send` to `write`.
use libtta.Base.{
  ℕ, zero, suc, ◌≡◌, ◌≢◌, ◌≤◌, refl, ==_iff, arith, inl, inr, ℤ, Bool, true, false, not, Bool-cases,
  ◌==◌, if◌then◌else◌, none, some, List, ◌++◌, length,
}
use libtta.Base.Run.{Outcome, ok, Returns, Returns-then, Returns-weaken, then_run}
use libtta.Base.Buffer.{read_bytes-append}
use libtta.Context.{State, Rc}
use libtta.Syscall.{Syscall, done, failed, as_rc}
use libtta.Rs485.Port.{
  Serial, Rs485, rts_none, rts_up, wait_tx, after_write, write_uart, ioctl_rts, send,
}

module _ {W : Type 0} (os : Serial W) where
  -- The world after RTS has been set to `on`, the other lines as they were.
  abbrev pub with_rts : ℤ → Bool → W → W
  with_rts s on w = os.tiocmset s (record (os.tiocmget s w).0 { rts = on }) (os.tiocmget s w).1

  -- The world after `k` polls of the transmitter that have found it busy, each with its pause.
  abbrev pub polls : ℕ → ℤ → W → W
  polls zero s w = w
  polls (suc k) s w = polls k s (os.usleep 100 (os.tiocsergetlsr s w).1)

  -- The first `k` polls find the transmitter busy.
  abbrev pub BusyFor : ℕ → ℤ → W → Type 0
  BusyFor zero s w = Unit
  BusyFor (suc k) s w =
      ((os.tiocsergetlsr s w).0 ≡ 0) × BusyFor k s (os.usleep 100 (os.tiocsergetlsr s w).1)

  -- The wait for the transmitter ends with the first poll that finds it empty, or with `false` after
  -- `left` and one polls that all find it busy.
  abbrev pub Waited : ℕ → ℤ → W → Bool → W → Type 0
  Waited left s w true w' =
      (k : ℕ) × (k ≤ left)
      × BusyFor k s w
      × ((os.tiocsergetlsr s (polls k s w)).0 ≢ 0)
      × (w' ≡ (os.tiocsergetlsr s (polls k s w)).1)
  Waited left s w false w' = BusyFor (suc left) s w × (w' ≡ (os.tiocsergetlsr s (polls left s w)).1)

  Waited-more :
      (left : ℕ) (s : ℤ) (w w' : W) (sent : Bool)
      → (os.tiocsergetlsr s w).0 ≡ 0
      → Waited left s (os.usleep 100 (os.tiocsergetlsr s w).1) sent w'
      → Waited (suc left) s w sent w'
  Waited-more left s w w' true e (k, le, busy, empty, r) = (suc k, omega arith, (e, busy), empty, r)
  Waited-more left s w w' false e (busy, r) = ((e, busy), r)

  nonzero : (n : ℕ) → (n == 0) ≡ false → n ≢ 0
  nonzero n h e = absurd (ground arith)

  wait_tx-Waited :
      (left : ℕ) (s : ℤ) (st : State Rs485 W)
      → Returns (wait_tx os left s st) (λ sent t. Waited left s st.world sent t.world)
  unfolding wait_tx
  wait_tx-Waited zero s st = elim (Bool-cases ((os.tiocsergetlsr s st.world).0 == 0)) [
    | inl e ↦ rw (e, Returns) (((==_iff _ 0).0 e, tt), refl)
    | inr e ↦ rw (e, Returns) (0, omega arith, tt, nonzero _ e, refl)
  ]
  wait_tx-Waited (suc left) s st = elim (Bool-cases ((os.tiocsergetlsr s st.world).0 == 0)) [
    | inl e ↦
        let w1 = os.usleep 100 (os.tiocsergetlsr s st.world).1 in
        rw (e, Returns)
          (Returns-weaken (λ sent t. Waited left s w1 sent t.world)
            (λ sent t. Waited (suc left) s st.world sent t.world) _
            (wait_tx-Waited left s (record st { world = w1 }))
            (λ sent t h. Waited-more left s st.world t.world sent ((==_iff _ 0).0 e) h))
    | inr e ↦ rw (e, Returns) (0, omega arith, tt, nonzero _ e, refl)
  ]

  -- After a write that took `n` bytes and left `w` behind: RTS is cleared once the transmitter has
  -- become empty, with the result `n`, or after 1002 polls that find it busy, with the result -1.
  abbrev pub Cleared : ℤ → ℕ → W → Rc → State Rs485 W → Type 0
  Cleared s n w (some k) t =
      (k ≡ n) × ((w' : W) × Waited 1001 s w true w' × (t.world ≡ os.tiocmbic_rts s w'))
  Cleared s n w none t = (w' : W) × Waited 1001 s w false w' × (t.world ≡ os.tiocmbic_rts s w')

  -- What `write_uart` does for each result of the write.
  abbrev pub Uart : ℤ → State Rs485 W → Syscall × W → Outcome (Rc × State Rs485 W) → Type 0
  Uart s st (failed e, w) o = o ≡ ok (some 0, record st { world = w; errno = e })
  Uart s st (done n, w) o = Returns o (Cleared s n w)

  -- RTS is set first. Where the write fails, `write_uart` returns 0 and leaves RTS set. Where it does
  -- not, the transmitter is polled every 100 microseconds, 1002 times at most, RTS is cleared after
  -- the poll that finds it empty, or after the last, and the result is what was written if one has
  -- found it empty, and -1 if none has.
  pub write_uart-Uart :
      (s : ℤ) (buf rest : List ℕ) (st : State Rs485 W)
      → Uart s st
          (os.write s buf (os.tiocmbis_rts s st.world))
          (write_uart os s (buf ++ rest) (length buf) st)
  unfolding write_uart after_write
  write_uart-Uart s buf rest st =
      let st1 = record st { world = os.tiocmbis_rts s st.world } in
      rw (read_bytes-append (length buf) buf rest st1 refl, Uart)
        (written (os.write s buf (os.tiocmbis_rts s st.world)))
    where
      ended :
          (n : ℕ) (w : W) (sent : Bool) (t : State Rs485 W)
          → Waited 1001 s w sent t.world
          → Cleared s n w
              (if sent then some n else none)
              (record t { world = os.tiocmbic_rts s t.world })
      ended n w true t h = (refl, (t.world, h, refl))
      ended n w false t h = (t.world, h, refl)

      written :
          (r : Syscall × W)
          → Uart s st r (
              then_run
                (as_rc r (record st { world = os.tiocmbis_rts s st.world }))
                (after_write os s))
      written (failed e, w) = refl
      written (done n, w) =
          Returns-then (λ sent t. Waited 1001 s w sent t.world) (Cleared s n w) _ _
            (wait_tx-Waited 1001 s (record st { world = w })) λ sent t h. ended n w sent t h

  -- In the modes "up" and "down" of RTS, exactly the first `size` bytes of the buffer are handed to
  -- the driver, between switching RTS and switching it back, and the result is the driver's.
  pub send-with_rts :
      (buf rest : List ℕ) (r : Syscall) (w : W) (st : State Rs485 W)
      → (st.backend_data.rts == rts_none) ≡ false
      → os.write st.ctx.s buf
          (os.usleep 10000 (with_rts st.ctx.s (st.backend_data.rts == rts_up) st.world))
        ≡ (r, w)
      → send os (buf ++ rest) (length buf) st
        ≡ then_run (as_rc (r, w) st) (λ size t. ok (
          size,
          record t {
            world =
                with_rts st.ctx.s (not (st.backend_data.rts == rts_up)) (os.usleep 10000 t.world);
          },
        ))
  unfolding send ioctl_rts
  send-with_rts buf rest (done n) w st by_hand h =
      let st1 = record st {
        world = os.usleep 10000 (with_rts st.ctx.s (st.backend_data.rts == rts_up) st.world);
      } in
      rw (by_hand, read_bytes-append (length buf) buf rest st1 refl, h) refl
  send-with_rts buf rest (failed e) w st by_hand h =
      let st1 = record st {
        world = os.usleep 10000 (with_rts st.ctx.s (st.backend_data.rts == rts_up) st.world);
      } in
      rw (by_hand, read_bytes-append (length buf) buf rest st1 refl, h) refl
