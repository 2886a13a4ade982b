-- ===== src/Tcp/Win32/Sound.antt =====
-- The table of the TCP transport on Windows keeps what the engine asks of it.
use libtta.Base.{
  ℕ, zero, suc, ◌+◌, ◌≤◌, ◌<◌, ◌≡◌, refl, ℤ, pos, Bool-cases, inl, inr, Option, none, some, List,
  length, ◌==◌, ==_iff, if◌then◌else◌, arith,
}
use libtta.Base.Run.{
  M, Returns, Returns-then, Returns-option, Returns-if, Ends, then_run, pure, ◌>>=◌,
}
use libtta.Context.{State, Rc, eio, fail_with}
use libtta.Syscall.{Syscall, Reading, done, failed, bytes, as_bytes, as_rc}
use libtta.Link.{System}
use libtta.Wait.Laws.{IsQuiet}
use libtta.Core.Sound.{IsSound}
use libtta.Tcp.Socket.{Tcp, max_adu_length}
use libtta.Tcp.Packet.{check_integrity}
use libtta.Tcp.Device.Sound.{as_rc-Ends, timeout-Ends, close-Ends, recv-Fits, wait_input-Ends}
use libtta.Tcp.Win32.{
  Winsock, no_time, init_win32, set_ipv4_options, set_up, connect, poll, garbage, flush_loop, link,
}

-- What the transport relies on from Windows: signals end, a read gives at most as many bytes as were
-- asked for, `select` on one socket counts one at most, and fewer than `rounds` reads in a row fill
-- the whole buffer, each after a `select` that makes no garbage.
pub record WinsockLaws {W : Type 0} (os : Winsock W) (rounds : ℕ) : Type 0 where
  pub quiet : IsQuiet os.sockets.select rounds
  pub recv_fits :
      (s : ℤ) (n : ℕ) (bs : List ℕ) (w w' : W)
      → os.sockets.recv s n w ≡ (bytes bs, w')
      → length bs ≤ n
  pub one_ready :
      (s : ℤ) (n : ℕ) (w : W) → (os.sockets.select s (some no_time) w).0 ≡ done n → n ≤ 1
  pub garbage : W → ℕ
  pub garbage-lt : (w : W) → garbage w < rounds
  pub polled : (s : ℤ) (w : W) → garbage (os.sockets.select s (some no_time) w).1.1 ≤ garbage w
  pub garbage_falls :
      (s : ℤ) (bs : List ℕ) (w w' : W)
      → os.sockets.recv s max_adu_length w ≡ (bytes bs, w')
      → length bs ≡ max_adu_length
      → garbage w' < garbage w

module _ {W : Type 0} (os : Winsock W) where
  start-Ends : (st : State Tcp W) → Ends (init_win32 os st)
  unfolding init_win32
  start-Ends st =
      let r = os.wsa_startup st.world in
      Returns-if {A = Rc} {S = State Tcp W} (λ _ _. Unit {0}) (r.0 == 0) (pure (some 0))
        (fail_with eio) (record st { world = r.1 }) tt tt

  options-Ends : (s : ℤ) (st : State Tcp W) → Ends (set_ipv4_options os s st)
  unfolding set_ipv4_options
  options-Ends s st =
      Returns-then (λ _ _. Unit) (λ _ _. Unit) _ _
        (as_rc-Ends os.sockets (os.sockets.set_nodelay s st.world) st)
        (λ rc t _. Returns-option (λ _ _. Unit) rc _ _ t tt (λ n. tt))

  set_up-Ends : (s : ℤ) (st : State Tcp W) → Ends (set_up os s st)
  unfolding set_up
  set_up-Ends s st =
      Returns-then (λ _ _. Unit) (λ _ _. Unit) _ _ (options-Ends s st)
        λ opts t _.
          Returns-option (λ _ _. Unit) opts _ _ t tt
            λ n.
              Returns-then (λ _ _. Unit) (λ _ _. Unit) _ _ (timeout-Ends os.sockets s _ _ _ t)
                λ rc u _. Returns-option (λ _ _. Unit) rc _ _ u tt (λ n. tt)

  connect-Ends : (st : State Tcp W) → Ends (connect os st)
  unfolding connect
  connect-Ends st =
      Returns-then (λ _ _. Unit) (λ _ _. Unit) _ _ (start-Ends st)
        λ started t _.
          Returns-option (λ _ _. Unit) started _ _ t tt
            λ n.
              Returns-then (λ _ _. Unit) (λ _ _. Unit) _ _
                (as_rc-Ends os.sockets (os.sockets.socket t.world) t)
                λ rc u _.
                  Returns-option (λ _ _. Unit) rc _ _ u tt
                    (λ n. set_up-Ends (pos n) (record u { ctx = record u.ctx { s = pos n } }))

module _ {W : Type 0} (os : Winsock W) (rounds : ℕ) (laws : WinsockLaws os rounds) where
  -- A result of 260 bytes has taken garbage.
  Flushed : W → Rc → State Tcp W → Type 0
  Flushed w none t = Unit
  Flushed w (some n) t = n ≡ max_adu_length → laws.garbage t.world < laws.garbage w

  garbage-Flushed :
      (s : ℤ) (n : ℕ) (w : W) (st : State Tcp W)
      → n ≤ 1
      → laws.garbage st.world ≤ laws.garbage w
      → Returns (garbage os s n st) (Flushed w)
  unfolding garbage Flushed
  garbage-Flushed s n w st le h = elim (Bool-cases (n == 1)) [
    | inr other ↦ rw (other, Returns) (λ e. absurd (omega arith))
    | inl one ↦ rw (one, Returns) (read (os.sockets.recv s max_adu_length st.world) refl)
  ]
    where
      read :
          (r : Reading × W)
          → os.sockets.recv s max_adu_length st.world ≡ r
          → let rest : Option (List ℕ) → M (State Tcp W) Rc =
              λ r. elim r [ none ↦ pure none | some bs ↦ pure (some (length bs)) ] in
            Returns (then_run (as_bytes r st) rest) (Flushed w)
      read (Reading.failed x, w') e = tt
      read (bytes bs, w') e = λ full. omega (arith, laws.garbage_falls s bs st.world w' e full)

  -- What the loop does with the result of a round.
  abbrev went_on : ℕ → ℕ → Rc → M (State Tcp W) Rc
  went_on f sum rc = elim rc [
    | none ↦ pure (some sum)
    | some n ↦ if n == max_adu_length then flush_loop os f (sum + n) else pure (some (sum + n))
  ]

  went_on-Ends :
      (f sum : ℕ) (w : W) (rc : Rc) (t : State Tcp W)
      → ((sum : ℕ) (t : State Tcp W) → laws.garbage t.world < f → Ends (flush_loop os f sum t))
      → laws.garbage w < suc f
      → Flushed w rc t
      → Ends (went_on f sum rc t)
  unfolding Flushed
  went_on-Ends f sum w none t ih h fall = tt
  went_on-Ends f sum w (some n) t ih h fall = elim (Bool-cases (n == max_adu_length)) [
    | inl full ↦
        rw (full, Returns) (ih (sum + n) t (omega (arith, fall ((==_iff n max_adu_length).0 full))))
    | inr part ↦ rw (part, Returns) tt
  ]

  flush-Ends :
      (f sum : ℕ) (st : State Tcp W) → laws.garbage st.world < f → Ends (flush_loop os f sum st)
  unfolding flush_loop poll
  flush-Ends zero sum st h = absurd (omega arith)
  flush-Ends (suc f) sum st h =
      let r = os.sockets.select st.ctx.s (some no_time) st.world in
      ready r.0 r.1.1 refl (laws.polled st.ctx.s st.world) (flush-Ends f)
    where
      ready :
          (r : Syscall) (w : W)
          → (os.sockets.select st.ctx.s (some no_time) st.world).0 ≡ r
          → laws.garbage w ≤ laws.garbage st.world
          → ((sum : ℕ) (t : State Tcp W) → laws.garbage t.world < f → Ends (flush_loop os f sum t))
          → let rest : Rc → M (State Tcp W) Rc = λ polled. elim polled [
            | none ↦ pure none
            | some n ↦ garbage os st.ctx.s n >>= went_on f sum
          ] in
            Ends (then_run (as_rc (r, w) st) rest)
      ready (failed x) w e le ih = tt
      ready (done n) w e le ih =
          Returns-then (Flushed st.world) (λ _ _. Unit) _ _
            (garbage-Flushed st.ctx.s n st.world (record st { world = w })
              (laws.one_ready st.ctx.s n st.world e) le)
            (λ rc t fall. went_on-Ends f sum st.world rc t ih h fall)

  -- Where signals end, reads fit what was asked for, and garbage on the connection ends, the table
  -- of the TCP transport on Windows keeps what the engine relies on, with every packet buffer of 260
  -- bytes at least: also its flush, which reads only what `select` has found, ends.
  pub win32_tcp_link-IsSound :
      (sys : System W) (cap : ℕ) → 260 ≤ cap → IsSound (link os sys rounds) cap
  unfolding check_integrity
  win32_tcp_link-IsSound sys cap le = record {
    header_pos = omega arith;
    header_fits = omega arith;
    adu_fits = le;
    connect_returns = connect-Ends os;
    close_returns = close-Ends os.sockets;
    flush_returns = λ st. flush-Ends rounds 0 st (laws.garbage-lt st.world);
    select_returns = λ tv n st. wait_input-Ends os.sockets rounds laws.quiet tv st;
    recv_returns = recv-Fits os.sockets laws.recv_fits;
    check_returns = λ pkt st frame. tt;
  }
