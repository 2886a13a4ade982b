-- ===== src/Tests/Winsock.antt =====
-- The connection that answers at once, with the calls of Windows.
use libtta.Base.{ℕ, ap, List, length, min, length-take, arith}
use libtta.Syscall.{Syscall, done}
use libtta.Core.Sound.{IsSound}
use libtta.Tcp.Win32.{Winsock, link}
use libtta.Tcp.Win32.Sound.{WinsockLaws, win32_tcp_link-IsSound}
use libtta.Tests.Fixture.{calm_system}
use libtta.Tests.Net.{content, net-IsQuiet}
use libtta.Tests.Exchange.{echo, echo-SocketLaws}

abbrev winsock : Winsock (List ℕ)
winsock = record { wsa_startup = λ w. (0, w); sockets = echo }

abbrev count : Syscall → ℕ
count (done n) = n
count (Syscall.failed e) = 0

winsock-WinsockLaws : WinsockLaws winsock 1
winsock-WinsockLaws = record {
  quiet = net-IsQuiet;
  recv_fits = echo-SocketLaws.recv_fits;
  one_ready = λ s n w e. omega (arith, ap count e);
  garbage = λ w. 0;
  garbage-lt = λ w. omega arith;
  polled = λ s w. omega arith;
  garbage_falls = λ s bs w w' e full.
      absurd (omega (arith, length-take (min 260 4) w, ap (λ p. length (content p.0)) e));
}

win32_tcp_link-IsSound_example : IsSound (link winsock calm_system 1) 260
win32_tcp_link-IsSound_example =
    win32_tcp_link-IsSound winsock 1 winsock-WinsockLaws calm_system 260 (omega arith)
