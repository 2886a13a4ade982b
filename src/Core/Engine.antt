-- ===== src/Core/Engine.antt =====
-- `_send_pkt`, `_tta_receive_pkt` and `check_confirmation` of src/tta.c, over the functions of the
-- transport. A loop that waits for the outside takes a number of rounds; `stuck` is a loop that is
-- not over after them.
use libtta.Base.{
  ℕ, zero, suc, ◌+◌, ◌-◌, ◌*◌, ◌%◌, ◌==◌, leb, ltb, if◌then◌else◌, Bool, true, false, not, ◌&&◌,
  Option, none, some, List, [], ◌∷◌, ◌++◌, length,
}
use libtta.Base.Run.{Outcome, M, fault, stuck, pure, get, gets, when, ◌>>=◌, ◌>>◌, ok}
use libtta.Base.Buffer.{load}
use libtta.Context.{
  Errno, ebadf, econnreset, econnrefused, epipe, etimedout, eintr, embbaddata, Timeval, State, Rc,
  set_errno, fail_with, recovers_link,
}
use libtta.Link.{System, Sleep, slept, interrupted, Link}

-- `errno == EBADF || errno == ECONNRESET || errno == EPIPE`
abbrev pub send_lost_link : Errno → Bool
send_lost_link ebadf = true
send_lost_link econnreset = true
send_lost_link epipe = true
send_lost_link _ = false

-- `errno == ECONNRESET || errno == ECONNREFUSED || errno == EBADF`
abbrev pub recv_lost_link : Errno → Bool
recv_lost_link econnreset = true
recv_lost_link econnrefused = true
recv_lost_link ebadf = true
recv_lost_link _ = false

abbrev pub is_etimedout : Errno → Bool
is_etimedout etimedout = true
is_etimedout _ = false

abbrev pub is_ebadf : Errno → Bool
is_ebadf ebadf = true
is_ebadf _ = false

abbrev pub is_eintr : Errno → Bool
is_eintr eintr = true
is_eintr _ = false

-- `_step_t`; the code never enters `_STEP_TAIL`.
pub data Step : Type 0 where
  step_hd step_data step_tail : Step

-- The local variables of `_tta_receive_pkt`. `pkt` is the part of the buffer that has been written,
-- so `pktlen` is its length.
pub record Rx : Type 0 where
  pub pkt : List ℕ
  pub length_to_read : ℕ
  pub step : Step
  pub p_tv : Option Timeval

module _ {D W : Type 0} (sys : System W) (rounds : ℕ) (link : Link D W) where
  unfoldable pub flush : M (State D W) Rc
  flush = link.flush

  -- What follows a `nanosleep`; `rest` is the loop's next round.
  abbrev pub woken :
      Sleep × W → State D W → (ℕ → ℕ → M (State D W) (Unit {0})) → Outcome (Unit {0} × State D W)
  woken (slept, w) st rest = ok (tt, record st { world = w })
  woken (interrupted sec nsec, w) st rest = rest sec nsec (record st { world = w; errno = eintr })
  woken (Sleep.failed e, w) st rest = ok (tt, record st { world = w; errno = e })

  -- The loop over `nanosleep`.
  unfoldable pub sleep_loop : ℕ → ℕ → ℕ → M (State D W) (Unit {0})
  sleep_loop zero sec nsec = λ st. stuck
  sleep_loop (suc f) sec nsec = λ st. woken (sys.nanosleep sec nsec st.world) st (sleep_loop f)

  -- On POSIX; on Windows the code calls `Sleep` with the milliseconds, once, and `nanosleep` stands
  -- for that call here.
  unfoldable pub sleep_and_flush : M (State D W) Rc
  unfolding sleep_loop flush
  sleep_and_flush = do
    t ← gets (λ st. st.ctx.response_timeout)
    sleep_loop rounds t.tv_sec (t.tv_usec % 1000000 * 1000)
    flush

  unfoldable pub compute_data_length_after_hd : List ℕ → M (State D W) ℕ
  compute_data_length_after_hd pkt = do
    len ← load pkt (link.header_length - 1)
    pure (len + link.checksum_length)

  -- `tta_close(ctx); tta_connect(ctx);`
  unfoldable pub reconnect : M (State D W) (Unit {0})
  reconnect = do link.close; link.connect; pure tt

  -- What `_send_pkt` does after a failed write.
  unfoldable pub send_recovery : M (State D W) (Unit {0})
  unfolding sleep_and_flush reconnect
  send_recovery = do
    st ← get
    when (recovers_link st.ctx) do
      if send_lost_link st.errno then reconnect else (sleep_and_flush >>= λ _. pure tt)
      set_errno st.errno

  -- The `do … while` loop of `_send_pkt`.
  unfoldable pub send_loop : ℕ → List ℕ → ℕ → M (State D W) Rc
  unfolding send_recovery
  send_loop zero pkt pktlen = λ st. stuck
  send_loop (suc f) pkt pktlen = link.send pkt pktlen >>= λ rc. elim rc [
    | some n ↦ pure (some n)
    | none ↦ (do
      send_recovery
      st ← get
      if recovers_link st.ctx then send_loop f pkt pktlen else pure none)
  ]

  unfoldable pub send_pkt : List ℕ → ℕ → M (State D W) Rc
  unfolding send_loop
  send_pkt pkt pktlen = send_loop rounds pkt pktlen >>= λ rc. elim rc [
    | none ↦ pure none
    | some n ↦ if ltb 0 n && not (n == pktlen) then fail_with embbaddata else pure (some n)
  ]

  -- What `_tta_receive_pkt` does after a failed `select`.
  unfoldable pub select_recovery : M (State D W) (Unit {0})
  unfolding sleep_and_flush reconnect
  select_recovery = do
    st ← get
    when (recovers_link st.ctx) do
      (if is_etimedout st.errno
          then (sleep_and_flush >>= λ _. pure tt)
          else when (is_ebadf st.errno) reconnect)
      set_errno st.errno

  -- What it does after a failed read.
  unfoldable pub recv_recovery : M (State D W) (Unit {0})
  unfolding reconnect
  recv_recovery = do
    st ← get
    when (recovers_link st.ctx && recv_lost_link st.errno) do reconnect; set_errno st.errno

  -- The `switch (step)` once all expected bytes are there: `none` is the packet that is too long.
  unfoldable pub next_step : Rx → M (State D W) (Option Rx)
  unfolding compute_data_length_after_hd
  next_step rx = elim rx.step [
    | step_hd ↦ (do
      len ← compute_data_length_after_hd rx.pkt
      if ltb link.max_adu_length (length rx.pkt + len)
          then (set_errno embbaddata >>= λ _. pure none)
          else pure (some (record rx { length_to_read = len; step = step_data })))
    | _ ↦ pure (some rx)
  ]

  -- The timeout between two bytes applies while there is more to read.
  unfoldable pub restart_timer : Option Rx → M (State D W) (Option Rx)
  restart_timer none = pure none
  restart_timer (some rx) = gets (λ st. st.ctx.byte_timeout) >>= λ t.
      pure (some (if rx.length_to_read == 0 then rx else record rx { p_tv = some t }))

  -- The bytes of one read are appended, within the capacity `cap` of the packet buffer.
  unfoldable pub took : ℕ → Rx → List ℕ → M (State D W) (Option Rx)
  unfolding next_step restart_timer
  took cap rx bytes =
      if leb (length rx.pkt + length bytes) cap
      then (do
        let rx' = record rx {
          pkt = rx.pkt ++ bytes;
          length_to_read = rx.length_to_read - length bytes;
        }
        next ← if rx'.length_to_read == 0 then next_step rx' else pure (some rx')
        restart_timer next)
      else λ st. fault

  -- What follows the `recv` of a round: `none` is `return -1`. A read of no bytes is the end of the
  -- stream.
  unfoldable pub received : ℕ → Rx → Option (List ℕ) → M (State D W) (Option Rx)
  unfolding recv_recovery took
  received cap rx none = recv_recovery >>= λ _. pure none
  received cap rx (some []) = set_errno econnreset >>= λ _. recv_recovery >>= λ _. pure none
  received cap rx (some (b ∷ bs)) = took cap rx (b ∷ bs)

  -- What follows the `select` of a round.
  unfoldable pub selected : ℕ → Rx → Rc → M (State D W) (Option Rx)
  unfolding select_recovery received
  selected cap rx none = select_recovery >>= λ _. pure none
  selected cap rx (some _) = link.recv rx.length_to_read >>= λ r. received cap rx r

  -- One round of the `while` loop.
  unfoldable pub round : ℕ → Rx → M (State D W) (Option Rx)
  unfolding selected
  round cap rx = link.select rx.p_tv rx.length_to_read >>= λ rc. selected cap rx rc

  -- After a round the function has returned -1, or the loop `rest` goes on.
  abbrev pub go_on :
      List ℕ → (Rx → M (State D W) (Rc × List ℕ)) → Option Rx → M (State D W) (Rc × List ℕ)
  go_on pkt rest none = pure (none, pkt)
  go_on pkt rest (some rx) = rest rx

  -- The `while (length_to_read != 0)` loop and the check that follows it. It returns the code and
  -- the bytes that were written to the packet buffer.
  unfoldable pub receive_loop : ℕ → ℕ → Rx → M (State D W) (Rc × List ℕ)
  unfolding round
  receive_loop zero cap rx = λ st. stuck
  receive_loop (suc f) cap rx =
      if rx.length_to_read == 0
      then (link.check_integrity rx.pkt (length rx.pkt) >>= λ rc. pure (rc, rx.pkt))
      else (round cap rx >>= λ next. go_on rx.pkt (receive_loop f cap) next)

  -- `_tta_receive_pkt` into a buffer of `cap` bytes. Each round reads a byte at least, so a round
  -- for each byte of the longest packet, and one more, are enough. The
  -- `FD_ZERO` and `FD_SET` on `ctx->s` are left out, and with them an access outside of the
  -- `fd_set` when the descriptor is negative or at least `FD_SETSIZE`.
  unfoldable pub receive_pkt : ℕ → Bool → M (State D W) (Rc × List ℕ)
  unfolding receive_loop
  receive_pkt cap fgtimeout = do
    t ← gets (λ st. st.ctx.response_timeout)
    receive_loop (cap + 1) cap (record {
      pkt = [];
      length_to_read = link.header_length;
      step = step_hd;
      p_tv = if fgtimeout then some t else none;
    })
