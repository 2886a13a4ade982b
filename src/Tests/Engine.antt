-- ===== src/Tests/Engine.antt =====
-- The engine over the serial line.
use libtta.Base.{ℕ, ◌≡◌, ◌≢◌, refl, true, none, some, List, [], ◌∷◌, arith}
use libtta.Base.Run.{ok, Returns}
use libtta.Context.{State, ebadf}
use libtta.Link.{Link}
use libtta.Core.Engine.{receive_pkt, send_pkt, send_recovery, select_recovery, recv_recovery}
use libtta.Core.Sound.{IsSound}
use libtta.Core.Receive.{Accepted, receive_pkt-Accepted}
use libtta.Core.Recovery.{recovery-errno}
use libtta.Core.Send.{IsPatient, Sent, send_pkt-Sent}
use libtta.Rs485.Port.{Rs485, send}
use libtta.Rs485.Packet.Laws.{frame}
use libtta.Rs485.Device.{link}
use libtta.Rs485.Device.Flag.{link-IsSound}
use libtta.Tests.Fixture.{calm_system, calm_system-IsCalm, line, line-SerialLaws, port, with_data}

abbrev received : State Rs485 (List ℕ)
received = with_data port (frame 1 2 3 (10 ∷ 20 ∷ []))

abbrev serial : Link Rs485 (List ℕ)
serial = link line 1

link-IsSound_example : IsSound serial 260
link-IsSound_example = link-IsSound line 1 line-SerialLaws 260 (omega arith)

serial-IsSound : IsSound serial 260
serial-IsSound = link-IsSound line 1 line-SerialLaws 260 (omega arith)

-- The packet on the line is received whole.
receive_pkt_run :
    receive_pkt calm_system 1 serial 260 true received
    ≡ ok ((some 9, frame 1 2 3 (10 ∷ 20 ∷ [])), with_data port [])
unfolding receive_pkt libtta.Rs485.Port.wait_input libtta.Rs485.Port.recv
    libtta.Rs485.Packet.check_integrity libtta.Checksum.sum_xor libtta.Checksum.sum_add
receive_pkt_run = refl

receive_pkt-Accepted_example :
    Returns
      (receive_pkt calm_system 1 serial 260 true received)
      (λ r _. Accepted calm_system 1 serial 260 calm_system-IsCalm serial-IsSound r)
receive_pkt-Accepted_example =
    receive_pkt-Accepted calm_system 1 serial 260 calm_system-IsCalm serial-IsSound true received

-- The link is to be recovered, and the descriptor was bad.
abbrev lost : State Rs485 (List ℕ)
lost = record received { errno = ebadf; ctx = record received.ctx { error_recovery = 2 } }

recovery-errno_example :
    Returns (send_recovery calm_system 1 serial lost) (λ _ t. t.errno ≡ ebadf)
    × Returns (select_recovery calm_system 1 serial lost) (λ _ t. t.errno ≡ ebadf)
    × Returns (recv_recovery calm_system 1 serial lost) (λ _ t. t.errno ≡ ebadf)
recovery-errno_example =
    recovery-errno calm_system 1 serial 260 calm_system-IsCalm serial-IsSound lost

-- A link that takes only the first byte of a packet.
abbrev short_link : Link Rs485 (List ℕ)
short_link = record serial { send = λ pkt n st. ok (some 1, st) }

short_link-IsPatient : IsPatient calm_system 1 short_link (1 ∷ 2 ∷ 3 ∷ []) 3
short_link-IsPatient = record {
  failures = λ st. 0;
  failures-lt = λ st. omega arith;
  send_returns = λ st e. absurd (some≢none e);
}
  where
    some≢none : {n : ℕ} → some n ≢ none
    some≢none {n} e = cc

send_pkt-Sent_example :
    Returns (send_pkt calm_system 1 short_link (1 ∷ 2 ∷ 3 ∷ []) 3 received) (Sent 3)
send_pkt-Sent_example =
    send_pkt-Sent calm_system 1 short_link (1 ∷ 2 ∷ 3 ∷ []) 3 short_link-IsPatient received
