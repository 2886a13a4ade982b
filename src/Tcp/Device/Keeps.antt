-- ===== src/Tcp/Device/Keeps.antt =====
-- The functions of the TCP table keep the private data; only a conversion to a packet counts on.
use libtta.Base.{ℕ, zero, suc, ℤ, Bool, Option, none, some, List}
use libtta.Context.{Rc, Timeval}
use libtta.Context.Keeps.{Keeps, keeps_rules}
use libtta.Context.Keeps.Arrays.{array_rules}
use libtta.Wait.Keeps.{select_loop-Keeps}
use libtta.Link.{System}
use libtta.Core.Keeps.{LinkKeeps, receive_pkt-Keeps}
use libtta.Tcp.Socket.{
  Sockets, Tcp, set_fd, set_ipv4_options, finish_connect, set_timeout_left, connect_timeout, set_up,
  connect, close, send, recv, flush_loop, wait_input,
}
use libtta.Tcp.Packet.{check_integrity, pre_check_confirmation, conv_pkt2ttamsg}
use libtta.Tcp.Device.{link, receive}

module _ {W : Type 0} (os : Sockets W) (P : Tcp → Type 0) where
  set_ipv4_options-Keeps : (s : ℤ) → Keeps P (set_ipv4_options os s)
  unfolding set_ipv4_options
  set_ipv4_options-Keeps s = search keeps_rules depth 10

  finish_connect-Keeps : (s : ℤ) (rc : Rc) → Keeps P (finish_connect os s rc)
  unfolding finish_connect
  finish_connect-Keeps s none = search keeps_rules
  finish_connect-Keeps s (some zero) = search keeps_rules
  finish_connect-Keeps s (some (suc n)) = search keeps_rules depth 12

  set_timeout_left-Keeps : (tv : Timeval) → Keeps P (set_timeout_left os tv)
  set_timeout_left-Keeps tv = record { at = λ st h. h }

  connect_timeout-Keeps :
      (s : ℤ) (ip : List ℕ) (port : ℕ) (tv : Timeval) → Keeps P (connect_timeout os s ip port tv)
  unfolding connect_timeout
  connect_timeout-Keeps s ip port tv =
      search (keeps_rules, finish_connect-Keeps, set_timeout_left-Keeps) depth 20

  set_up-Keeps : (s : ℤ) → Keeps P (set_up os s)
  unfolding set_up
  set_up-Keeps s = search (keeps_rules, set_ipv4_options-Keeps, connect_timeout-Keeps) depth 12

  pub set_fd-Keeps : (s : ℤ) → Keeps P (set_fd os s)
  set_fd-Keeps s = record { at = λ st h. h }

  connect-Keeps : Keeps P (connect os)
  unfolding connect
  connect-Keeps = search (keeps_rules, set_fd-Keeps, set_up-Keeps) depth 12

  close-Keeps : Keeps P (close os)
  unfolding close
  close-Keeps = search keeps_rules depth 10

  send-Keeps : (pkt : List ℕ) (n : ℕ) → Keeps P (send os pkt n)
  unfolding send
  send-Keeps pkt n = search array_rules depth 10

  recv-Keeps : (n : ℕ) → Keeps P (recv os n)
  unfolding recv
  recv-Keeps n = search keeps_rules depth 10

  flush_loop-Keeps : (f sum : ℕ) → Keeps P (flush_loop os f sum)
  unfolding flush_loop
  flush_loop-Keeps zero sum = search keeps_rules
  flush_loop-Keeps (suc f) sum = search (keeps_rules, flush_loop-Keeps f) depth 12

  wait_input-Keeps : (rounds : ℕ) (tv : Option Timeval) → Keeps P (wait_input os rounds tv)
  unfolding wait_input
  wait_input-Keeps rounds tv = search (keeps_rules, select_loop-Keeps P os.select)

check_integrity-Keeps :
    {W : Type 0} (P : Tcp → Type 0) (pkt : List ℕ) (n : ℕ) → Keeps {W = W} P (check_integrity pkt n)
unfolding check_integrity
check_integrity-Keeps P pkt n = search keeps_rules

pub pre_check_confirmation-Keeps :
    {W : Type 0} (P : Tcp → Type 0) (req rsp : List ℕ) (n : ℕ)
    → Keeps {W = W} P (pre_check_confirmation req rsp n)
unfolding pre_check_confirmation
pre_check_confirmation-Keeps P req rsp n = search keeps_rules depth 12

pub conv_pkt2ttamsg-Keeps :
    {W : Type 0} (P : Tcp → Type 0) (pkt : List ℕ) (n : ℕ) → Keeps {W = W} P (conv_pkt2ttamsg pkt n)
unfolding conv_pkt2ttamsg
conv_pkt2ttamsg-Keeps P pkt n = search array_rules depth 12

module _ {W : Type 0} (os : Sockets W) (P : Tcp → Type 0) (sys : System W) (rounds : ℕ) where
  pub link-Keeps : LinkKeeps P (link os sys rounds)
  link-Keeps = record {
    connect = connect-Keeps os P;
    close = close-Keeps os P;
    send = send-Keeps os P;
    recv = recv-Keeps os P;
    flush = flush_loop-Keeps os P rounds 0;
    select = λ tv n. wait_input-Keeps os P rounds tv;
    check_integrity = check_integrity-Keeps P;
  }

  pub receive-Keeps : (cap : ℕ) (fgtm : Bool) → Keeps P (receive os sys rounds cap fgtm)
  unfolding receive
  receive-Keeps cap fgtm = receive_pkt-Keeps P sys rounds (link os sys rounds) link-Keeps cap fgtm
