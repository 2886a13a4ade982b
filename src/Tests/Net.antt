-- ===== src/Tests/Net.antt =====
-- A connection that answers at once, without garbage, and a radio message that is too long.
use libtta.Base.{
  ℕ, ◌≡◌, ◌≢◌, ap, List, [], length, take, drop, replicate, length-replicate, length-take, arith,
}
use libtta.Base.Run.{fault}
use libtta.Context.{eintr, etimedout}
use libtta.Syscall.{Syscall, Reading, done, bytes}
use libtta.Wait.Laws.{IsQuiet}
use libtta.Core.Sound.{IsSound}
use libtta.Core.Api.{send}
use libtta.Message.Laws.{message}
use libtta.Tcp.Socket.{Sockets}
use libtta.Tcp.Device.{link}
use libtta.Tcp.Device.Sound.{SocketLaws, tcp_link-IsSound}
use libtta.Rf.Device
use libtta.Rf.Device.Message.{rf_send-fault}
use libtta.Tests.Fixture.{calm_system, chip, radio, with_data}

abbrev pub net : Sockets (List ℕ)
net = record {
  socket = λ w. (done 4, w);
  set_nodelay = λ s w. (done 0, w);
  set_lowdelay = λ s w. (done 0, w);
  set_reuseaddr = λ s w. (done 0, w);
  connect = λ s ip port w. (done 0, w);
  select_write = λ s tv w. ((done 1, tv), w);
  get_so_error = λ s w. ((done 0, 0), w);
  bind = λ s port w. (done 0, w);
  listen = λ s n w. (done 0, w);
  accept4 = λ s w. (done 5, w);
  shutdown = λ s w. w;
  close_fd = λ s w. w;
  send = λ s out w. (done (length out), w);
  recv = λ s n w. (bytes (take n w), drop n w);
  recv_dontwait = λ s n w. (Reading.failed etimedout, w);
  select = λ s tv w. (done 1, (tv, w));
}

pub net-IsQuiet : IsQuiet net.select 1
net-IsQuiet = record {
  signals = λ w. 0;
  signals-lt = λ w. omega arith;
  signals_fall = λ s tv tv' w w' e. absurd (never (ap (λ p. p.0) e));
}
  where
    never : done 1 ≢ Syscall.failed eintr
    never e = cc

abbrev pub content : Reading → List ℕ
content (bytes bs) = bs
content (Reading.failed e) = []

net-SocketLaws : SocketLaws net 1
net-SocketLaws = record {
  quiet = net-IsQuiet;
  recv_fits = λ s n bs w w' e. omega (arith, length-take n w, ap (λ p. length (content p.0)) e);
  garbage = λ w. 0;
  garbage-lt = λ w. omega arith;
  garbage_falls = λ s bs w w' e full. absurd (omega (arith, ap (λ p. length (content p.0)) e));
}

tcp_link-IsSound_example : IsSound (link net calm_system 1) 260
tcp_link-IsSound_example = tcp_link-IsSound net calm_system 1 net-SocketLaws 260 (omega arith)

abbrev many : List ℕ
many = replicate 118 0

many-length : length many ≡ 118
many-length = length-replicate {A = ℕ} 118 0

rf_send-fault_example :
    send calm_system 1
      (Device.backend chip calm_system 1)
      (message 7 1 2 3 many)
      (with_data radio [])
    ≡ fault
rf_send-fault_example =
    rf_send-fault chip calm_system 0 (λ n. length-replicate {A = ℕ} n 0) 1 2 3 4 7 1 2 3 many
      (with_data radio []) (omega (arith, many-length)) (omega (arith, many-length))
