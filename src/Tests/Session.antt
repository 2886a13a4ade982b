-- ===== src/Tests/Session.antt =====
-- Programs with a context, call by call.
use libtta.Base.{
  ◌≢◌, Bool-cases, inl, inr, none, ◌==◌, length-replicate, if◌then◌else◌, true, ℕ, ◌+◌, ◌≤◌, ◌<◌,
  ◌≡◌, refl, false, minus_one, pos, some, List, [], ◌∷◌, ◌++◌, length, replicate, arith,
}
use libtta.Base.Run.{ok}
use libtta.Context.{Tta, Proto, State, eintr, epipe}
use libtta.Message.Laws.{message}
use libtta.Core.Session.{send, called, configured, outside, here, next, run}
use libtta.Strlcpy.Laws.{IsText}
use libtta.Tcp.Socket.{Tcp}
use libtta.Tcp.Device.{new_tcp, backend}
use libtta.Tcp.Session.{address, own}
use libtta.Tcp.Session.Laws.{IsReady, Reach-IsReady}
use libtta.Base.Buffer.{overwrite}
use libtta.Core.Api
use libtta.Tests.Fixture.{calm_system, port, with_data}
use libtta.Tests.Net.{net}

abbrev blank : Tcp
blank = record { tid = 9; port = 9; ip = replicate 16 9 }

abbrev home : List ℕ
home = b'1' ∷ b'.' ∷ b'2' ∷ []

abbrev away : List ℕ
away = b'3' ∷ []

abbrev pub raw_ctx : Tta
raw_ctx = (with_data port []).ctx

abbrev pub made_ctx : Tta
made_ctx = record {
  slave = minus_one;
  proto = Proto.rs485;
  s = minus_one;
  debug = false;
  error_recovery = 0;
  response_timeout = record { tv_sec = 0; tv_usec = 500000 };
  byte_timeout = record { tv_sec = 0; tv_usec = 50000 };
}

abbrev made_data : Tcp
made_data = record { tid = 0; port = 502; ip = home ++ 0 ∷ replicate 12 9 }

-- A new context, whose address is changed, with a signal and bytes from outside, and a message that
-- is sent.
abbrev sent : State Tcp (List ℕ)
sent = record {
  ctx = made_ctx;
  backend_data = record { tid = 1; port = 503; ip = away ++ 0 ∷ (b'2' ∷ 0 ∷ replicate 12 9) };
  errno = epipe;
  world = 1 ∷ 2 ∷ [];
}

away_text : IsText away
away_text = ground arith

addressed :
    own net
      (address away [] away_text 503)
      (record { ctx = made_ctx; backend_data = made_data; errno = eintr; world = [] })
    ≡ ok (
      some 0,
      record {
        ctx = made_ctx;
        backend_data = record sent.backend_data { tid = 0 };
        errno = eintr;
        world = [];
      },
    )
unfolding own libtta.Tcp.Device.set_ip libtta.Base.Buffer.store
addressed = refl

run_tcp_message :
    run calm_system 1
      (backend net calm_system 1)
      (send (message 0 1 2 3 (10 ∷ [])))
      (record sent { backend_data = record sent.backend_data { tid = 0 } })
    ≡ ok (tt, sent)
unfolding run libtta.Core.Api.send libtta.Tcp.Packet.conv_ttamsg2pkt libtta.Base.Buffer.store
    libtta.Base.Buffer.copy_bytes libtta.Core.Engine.send_pkt libtta.Tcp.Socket.send
    libtta.Base.Buffer.read_bytes
run_tcp_message = refl

Reach-IsReady_example : IsReady sent.backend_data
unfolding new_tcp libtta.Base.Buffer.store
Reach-IsReady_example =
    Reach-IsReady net calm_system 1 raw_ctx blank home [] 502 eintr eintr made_ctx made_data [] sent
      (ground arith) (omega arith) refl
      (next
        (next (next here (configured (address away [] away_text 503) (some 0) addressed))
          (outside (1 ∷ 2 ∷ []) epipe refl))
        (called (send (message 0 1 2 3 (10 ∷ []))) run_tcp_message))
