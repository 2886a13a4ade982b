-- ===== src/Tests/Exchange.antt =====
-- A request that comes back as its own answer, at most four bytes at a time.
use libtta.Base.{
  ℕ, ◌≡◌, refl, sym, true, List, [], ◌∷◌, length, take, drop, length-take, length-replicate,
  take-append-drop, min, ap, arith,
}
use libtta.Base.Run.{Returns}
use libtta.Context.{State}
use libtta.Syscall.{bytes, done}
use libtta.Core.Api
use libtta.Core.Confirm.{Answered}
use libtta.Message.Laws.{message}
use libtta.Tcp.Socket.{Sockets}
use libtta.Tcp.Device.Stream.{SocketStream}
use libtta.Tcp.Device.Sound.{SocketLaws}
use libtta.Rs485.Port.{Serial, Rs485}
use libtta.Rs485.Packet.Laws as Rs485Laws
use libtta.Rs485.Device as Rs485Device
use libtta.Rs485.Device.Flag.{SerialLaws}
use libtta.Rs485.Device.Stream.{SerialStream}
use libtta.Rs485.Device.Exchange.{request-is_answer}
use libtta.Tests.Fixture.{calm_system, calm_system-IsCalm, with_data, line, line-IsQuiet, port}
use libtta.Tests.Net.{net, net-IsQuiet, content}

abbrev pub echo : Sockets (List ℕ)
echo = record net {
  send = λ s out w. (done (length out), out);
  recv = λ s n w. (bytes (take (min n 4) w), drop (min n 4) w);
}

abbrev pub echo_stream : SocketStream echo
echo_stream = record {
  line = λ w. w;
  select_ready = λ s tv w h. (0, tv, w, refl, refl);
  read_some = λ s n w pos h. (
    take (min n 4) w,
    drop (min n 4) w,
    refl,
    omega (arith, length-take (min n 4) w),
    omega (arith, length-take (min n 4) w),
    sym (take-append-drop (min n 4) w),
  );
}

pub echo-SocketLaws : SocketLaws echo 1
echo-SocketLaws = record {
  quiet = net-IsQuiet;
  recv_fits =
      λ s n bs w w' e. omega (arith, length-take (min n 4) w, ap (λ p. length (content p.0)) e);
  garbage = λ w. 0;
  garbage-lt = λ w. omega arith;
  garbage_falls = λ s bs w w' e full. absurd (omega (arith, ap (λ p. length (content p.0)) e));
}

abbrev two : List ℕ
two = 10 ∷ 20 ∷ []

-- The line of the serial port gives back what was written to it.
abbrev pub echo_line : Serial (List ℕ)
echo_line = record line {
  write = λ s out w. (done (length out), out);
  read = λ s n w. (bytes (take (min n 4) w), drop (min n 4) w);
}

abbrev pub echo_line_stream : SerialStream echo_line
echo_line_stream = record {
  line = λ w. w;
  select_ready = echo_stream.select_ready;
  read_some = echo_stream.read_some;
}

pub echo_line-SerialLaws : SerialLaws echo_line 1
echo_line-SerialLaws = record { quiet = line-IsQuiet; read_fits = echo-SocketLaws.recv_fits }

request-is_answer_example :
    (t : State Rs485 (List ℕ)) × (t.world ≡ [])
    × Returns
        (Api.request calm_system 1
          (Rs485Device.backend echo_line calm_system 1)
          (message 9 1 2 3 two)
          (with_data port []))
        (Answered true t (message 0 1 2 3 two))
request-is_answer_example =
    request-is_answer echo_line echo_line_stream calm_system 0 echo_line-SerialLaws
      calm_system-IsCalm (length-replicate {A = ℕ} 260 0) 9 1 2 3 1 2 3 two two []
      (with_data port []) (Rs485Laws.frame 1 2 3 two) (omega arith) (omega arith) refl refl refl
      refl
