-- ===== src/Tests/Dialog.antt =====
-- A client that asks for two bytes of a register, and a server that answers with three. The world of
-- an end is what its line still brings; the client's line brings the answer once the request is
-- written.
use libtta.Base.{ℕ, ◌≡◌, refl, true, false, some, List, [], ◌∷◌, length, length-replicate, arith}
use libtta.Base.Run.{ok, Returns}
use libtta.Context.{State}
use libtta.Syscall.{done}
use libtta.Message.Laws.{message}
use libtta.Rs485.Port.{Serial, Rs485}
use libtta.Rs485.Packet.Laws.{frame}
use libtta.Rs485.Device.Message.{after_frame}
use libtta.Rs485.Device.Dialog.{End, receive, reply, request, request-reply}
use libtta.Tests.Fixture.{calm_system, calm_system-IsCalm, with_data, port}
use libtta.Tests.Exchange.{echo_line, echo_line_stream, echo_line-SerialLaws}
use libtta.Core.Confirm.{Answered}
use libtta.Tcp.Socket.{Sockets, Tcp}
use libtta.Tcp.Packet.{next_tid}
use libtta.Tcp.Packet.Laws as TcpLaws
use libtta.Tcp.Packet.Laws.{counted}
use libtta.Tcp.Device.Dialog as TcpDialog
use libtta.Tcp.Device.Dialog.{tcp_request-reply}
use libtta.Tests.Exchange.{echo, echo_stream, echo-SocketLaws}

abbrev asked : List ℕ
asked = 16 ∷ 2 ∷ []

abbrev given : List ℕ
given = 7 ∷ 8 ∷ 9 ∷ []

abbrev answered_line : Serial (List ℕ)
answered_line = record echo_line { write = λ s out w. (done (length out), frame 1 2 0x83 given) }

abbrev server_end : End (List ℕ)
server_end = record {
  os = echo_line;
  sys = calm_system;
  stream = echo_line_stream;
  rounds = 0;
  laws = echo_line-SerialLaws;
  calm = calm_system-IsCalm;
  sized = λ n. length-replicate {A = ℕ} n 0;
}

abbrev client_end : End (List ℕ)
client_end = record {
  os = answered_line;
  sys = calm_system;
  stream = record {
    line = λ w. w;
    select_ready = echo_line_stream.select_ready;
    read_some = echo_line_stream.read_some;
  };
  rounds = 0;
  laws = record { quiet = echo_line-SerialLaws.quiet; read_fits = echo_line-SerialLaws.read_fits };
  calm = calm_system-IsCalm;
  sized = λ n. length-replicate {A = ℕ} n 0;
}

request-reply_example :
    (t : State Rs485 (List ℕ)) × (u : State Rs485 (List ℕ)) × (receive server_end true
        (with_data port (frame 1 2 3 asked))
      ≡ ok ((some 9, some (message 0 1 2 3 asked)), t))
    × (reply server_end (message 0 1 2 3 asked) given 3 t
        ≡ ok (some 10, after_frame echo_line t (frame 1 2 0x83 given)))
    × (request client_end (message 5 1 2 3 asked) (with_data port [])
        ≡ ok ((some 0, some (message 0 1 2 0x83 given)), u))
    × (u.world ≡ [])
request-reply_example =
    request-reply client_end server_end 5 1 2 3 asked given [] [] true (with_data port [])
      (with_data port (frame 1 2 3 asked)) (frame 1 2 0x83 given) (λ t. frame 1 2 0x83 given)
      (omega arith) (omega arith) (omega arith) refl refl refl refl refl refl (λ t. refl) refl

-- The server has answered nine requests of other clients before.
abbrev answered_socket : Sockets (List ℕ)
answered_socket = record echo {
  send = λ s out w. (done (length out), TcpLaws.frame 10 1 2 0x83 given);
}

abbrev server_socket : TcpDialog.End (List ℕ)
server_socket = record {
  os = echo;
  sys = calm_system;
  stream = echo_stream;
  rounds = 0;
  laws = echo-SocketLaws;
  calm = calm_system-IsCalm;
  sized = λ n. length-replicate {A = ℕ} n 0;
}

abbrev client_socket : TcpDialog.End (List ℕ)
client_socket = record {
  os = answered_socket;
  sys = calm_system;
  stream = record {
    line = λ w. w;
    select_ready = echo_stream.select_ready;
    read_some = echo_stream.read_some;
  };
  rounds = 0;
  laws = record {
    quiet = echo-SocketLaws.quiet;
    recv_fits = echo-SocketLaws.recv_fits;
    garbage = echo-SocketLaws.garbage;
    garbage-lt = echo-SocketLaws.garbage-lt;
    garbage_falls = echo-SocketLaws.garbage_falls;
  };
  calm = calm_system-IsCalm;
  sized = λ n. length-replicate {A = ℕ} n 0;
}

abbrev client_before : State Tcp (List ℕ)
client_before = with_data (record { tid = 0; port = 8000; ip = [] }) []

abbrev server_before : State Tcp (List ℕ)
server_before = with_data (record { tid = 9; port = 8000; ip = [] }) (TcpLaws.frame 1 1 2 3 asked)

-- The answer carries the number of the server.
abbrev sent_by_server : State Tcp (List ℕ) → List ℕ
sent_by_server t = TcpLaws.frame (next_tid t.backend_data.tid) 1 2 0x83 given

tcp_request-reply_example :
    (t : State Tcp (List ℕ)) × (u : State Tcp (List ℕ)) × (t.backend_data.tid ≡ 9)
    × (TcpDialog.receive server_socket true server_before
        ≡ ok ((some 10, some (message 1 1 2 3 asked)), t))
    × (TcpDialog.reply server_socket (message 1 1 2 3 asked) given 3 t
        ≡ ok (some 11, record (counted t) { world = sent_by_server t }))
    × (u.world ≡ [])
    × Returns
        (TcpDialog.request client_socket (message 5 1 2 3 asked) client_before)
        (Answered false u (message 10 1 2 0x83 given))
tcp_request-reply_example =
    tcp_request-reply client_socket server_socket 5 1 2 3 asked given [] [] true client_before
      server_before (TcpLaws.frame 10 1 2 0x83 given) sent_by_server (omega arith) (omega arith)
      (omega arith) (omega arith) refl refl (λ t. refl) refl
