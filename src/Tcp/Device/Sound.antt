-- ===== src/Tcp/Device/Sound.antt =====
-- The table of the TCP transport keeps what the engine asks of it.
use libtta.Base.{
  ℕ, zero, suc, ◌+◌, ◌≤◌, ◌<◌, ◌≡◌, refl, ℤ, pos, Bool-cases, inl, inr, Option, none, some, List,
  length, ◌==◌, ==_iff, ◌&&◌, if◌then◌else◌, arith,
}
use libtta.Base.Run.{
  M, Returns, Returns-then, Returns-option, Returns-if, Returns-weaken, Ends, then_run, pure,
}
use libtta.Context.{State, Rc, Timeval, econnrefused, fail_with}
use libtta.Syscall.{Syscall, Reading, done, bytes, as_bytes, as_rc}
use libtta.Link.{System}
use libtta.Wait.Laws.{IsQuiet, Waited, select_loop-Waited}
use libtta.Core.Sound.{IsSound, Fits}
use libtta.Tcp.Socket.{
  Sockets, Tcp, max_adu_length, set_ipv4_options, finish_connect, is_einprogress, connect_timeout,
  set_up, connect, close, recv, flush_loop, wait_input,
}
use libtta.Tcp.Packet.{check_integrity}
use libtta.Tcp.Device.{link}

-- What the transport relies on from the system: signals end, a read gives at most as many bytes as
-- were asked for, and fewer than `rounds` reads in a row that do not wait fill the whole buffer.
pub record SocketLaws {W : Type 0} (os : Sockets W) (rounds : ℕ) : Type 0 where
  pub quiet : IsQuiet os.select rounds
  pub recv_fits :
      (s : ℤ) (n : ℕ) (bs : List ℕ) (w w' : W) → os.recv s n w ≡ (bytes bs, w') → length bs ≤ n
  pub garbage : W → ℕ
  pub garbage-lt : (w : W) → garbage w < rounds
  pub garbage_falls :
      (s : ℤ) (bs : List ℕ) (w w' : W)
      → os.recv_dontwait s max_adu_length w ≡ (bytes bs, w')
      → length bs ≡ max_adu_length
      → garbage w' < garbage w

module _ {W : Type 0} (os : Sockets W) where
  pub as_rc-Ends : {D : Type 0} (r : Syscall × W) (st : State D W) → Ends (as_rc r st)
  as_rc-Ends (done n, w) st = tt
  as_rc-Ends (Syscall.failed x, w) st = tt

  options-Ends : (s : ℤ) (st : State Tcp W) → Ends (set_ipv4_options os s st)
  unfolding set_ipv4_options
  options-Ends s st =
      Returns-then (λ _ _. Unit) (λ _ _. Unit) _ _ (as_rc-Ends (os.set_nodelay s st.world) st)
        λ rc t _.
          Returns-option (λ _ _. Unit) rc _ _ t tt
            λ n.
              Returns-then (λ _ _. Unit) (λ _ _. Unit) _ _
                (as_rc-Ends (os.set_lowdelay s t.world) t)
                λ rc' u _. Returns-option (λ _ _. Unit) rc' _ _ u tt (λ n. tt)

  finish-Ends : (s : ℤ) (rc : Rc) (st : State Tcp W) → Ends (finish_connect os s rc st)
  unfolding finish_connect
  finish-Ends s none st = tt
  finish-Ends s (some zero) st = tt
  finish-Ends s (some (suc n)) st =
      let a = os.get_so_error s st.world in
      Returns-then (λ _ _. Unit) (λ _ _. Unit) _ _
        (as_rc-Ends (a.0.0, a.1) (record st { world = a.1 }))
        λ rc t _.
          Returns-option {B = Rc} (λ _ _. Unit {0}) rc _ _ t tt
            λ k.
              Returns-if {A = Rc} {S = State Tcp W} (λ _ _. Unit {0}) (k == 0 && a.0.1 == 0)
                (pure (some 0)) (fail_with econnrefused) t tt tt

  pub timeout-Ends :
      (s : ℤ) (ip : List ℕ) (port : ℕ) (tv : Timeval) (st : State Tcp W)
      → Ends (connect_timeout os s ip port tv st)
  unfolding connect_timeout
  timeout-Ends s ip port tv st =
      Returns-then (λ _ _. Unit) (λ _ _. Unit) _ _ (as_rc-Ends (os.connect s ip port st.world) st)
        λ rc t _.
          Returns-option (λ _ _. Unit) rc _ _ t
            (Returns-if (λ _ _. Unit) (is_einprogress os t.errno) _ _ t
              (let a = os.select_write s tv t.world in
                Returns-then (λ _ _. Unit) (λ _ _. Unit) _ _
                  (as_rc-Ends (a.0.0, a.1)
                    (record t { ctx = record t.ctx { response_timeout = a.0.1 }; world = a.1 }))
                  (λ r u _. finish-Ends s r u))
              tt)
            (λ n. tt)

  set_up-Ends : (s : ℤ) (st : State Tcp W) → Ends (set_up os s st)
  unfolding set_up
  set_up-Ends s st =
      Returns-then (λ _ _. Unit) (λ _ _. Unit) _ _ (options-Ends s st)
        λ opts t _.
          Returns-option (λ _ _. Unit) opts _ _ t tt
            λ n.
              Returns-then (λ _ _. Unit) (λ _ _. Unit) _ _ (timeout-Ends s _ _ _ t)
                λ rc u _. Returns-option (λ _ _. Unit) rc _ _ u tt (λ n. tt)

  connect-Ends : (st : State Tcp W) → Ends (connect os st)
  unfolding connect
  connect-Ends st =
      Returns-then (λ _ _. Unit) (λ _ _. Unit) _ _ (as_rc-Ends (os.socket st.world) st)
        λ rc t _.
          Returns-option (λ _ _. Unit) rc _ _ t tt
            (λ n. set_up-Ends (pos n) (record t { ctx = record t.ctx { s = pos n } }))

  pub close-Ends : (st : State Tcp W) → Ends (close os st)
  unfolding close
  close-Ends st = tt

-- A read gives at most as many bytes as were asked for.
abbrev pub ReadsFit : {W : Type 0} → Sockets W → Type 0
ReadsFit {W = W} os =
    (s : ℤ) (n : ℕ) (bs : List ℕ) (w w' : W) → os.recv s n w ≡ (bytes bs, w') → length bs ≤ n

module _ {W : Type 0} (os : Sockets W) (fits : ReadsFit os) where
  as_bytes-Fits :
      (s : ℤ) (n : ℕ) (r : Reading × W) (st : State Tcp W)
      → os.recv s n st.world ≡ r
      → Returns (as_bytes r st) (λ r _. Fits r n)
  as_bytes-Fits s n (bytes bs, w) st e = fits s n bs st.world w e
  as_bytes-Fits s n (Reading.failed x, w) st e = tt

  pub recv-Fits : (n : ℕ) (st : State Tcp W) → Returns (recv os n st) (λ r _. Fits r n)
  unfolding recv
  recv-Fits n st = as_bytes-Fits st.ctx.s n (os.recv st.ctx.s n st.world) st refl

pub wait_input-Ends :
    {W : Type 0} (os : Sockets W) (rounds : ℕ)
    → IsQuiet os.select rounds
    → (tv : Option Timeval) (st : State Tcp W) → Ends (wait_input os rounds tv st)
unfolding wait_input
wait_input-Ends os rounds quiet tv st =
    Returns-weaken (Waited st) (λ _ _. Unit) _
      (select_loop-Waited os.select rounds quiet st.ctx.s tv st) (λ _ _ _. tt)

module _ {W : Type 0} (os : Sockets W) (sys : System W) (rounds : ℕ)
    (laws : SocketLaws os rounds) where
  flush-Ends :
      (f sum : ℕ) (st : State Tcp W) → laws.garbage st.world < f → Ends (flush_loop os f sum st)
  unfolding flush_loop
  flush-Ends zero sum st h = absurd (omega arith)
  flush-Ends (suc f) sum st h =
      read (os.recv_dontwait st.ctx.s max_adu_length st.world) refl (flush-Ends f)
    where
      read :
          (r : Reading × W)
          → os.recv_dontwait st.ctx.s max_adu_length st.world ≡ r
          → ((sum : ℕ) (t : State Tcp W) → laws.garbage t.world < f → Ends (flush_loop os f sum t))
          → let rest : Option (List ℕ) → M (State Tcp W) Rc = λ r. elim r [
            | none ↦ pure (some sum)
            | some bs ↦
                if length bs == max_adu_length
                then flush_loop os f (sum + length bs)
                else pure (some (sum + length bs))
          ] in
            Ends (then_run (as_bytes r st) rest)
      read (Reading.failed x, w) e ih = tt
      read (bytes bs, w) e ih = elim (Bool-cases (length bs == max_adu_length)) [
        | inl full ↦
            rw (full, Returns)
              (ih (sum + length bs) (record st { world = w })
                (omega (
                  arith,
                  laws.garbage_falls st.ctx.s bs st.world w e
                      ((==_iff (length bs) max_adu_length).0 full),
                )))
        | inr part ↦ rw (part, Returns) tt
      ]

  -- Where signals end, reads fit what was asked for, and garbage on the connection ends, the table
  -- of the TCP transport keeps what the engine relies on, with every packet buffer of 260 bytes at
  -- least.
  pub tcp_link-IsSound : (cap : ℕ) → 260 ≤ cap → IsSound (link os sys rounds) cap
  unfolding check_integrity
  tcp_link-IsSound cap le = record {
    header_pos = omega arith;
    header_fits = omega arith;
    adu_fits = le;
    connect_returns = connect-Ends os;
    close_returns = close-Ends os;
    flush_returns = λ st. flush-Ends rounds 0 st (laws.garbage-lt st.world);
    select_returns = λ tv n st. wait_input-Ends os rounds laws.quiet tv st;
    recv_returns = recv-Fits os laws.recv_fits;
    check_returns = λ pkt st frame. tt;
  }
