-- ===== src/Tests/Program.antt =====
-- A program with an RS485 context: the mode of RTS is set to "down", a message is sent, and bytes
-- come from outside.
use libtta.Base.{
  ◌≢◌, Bool-cases, inl, inr, none, ◌==◌, length-replicate, if◌then◌else◌, true, ℕ, ◌+◌, ◌≤◌, ◌<◌,
  ◌≡◌, refl, false, minus_one, pos, some, List, [], ◌∷◌, ◌++◌, length, replicate, arith,
}
use libtta.Base.Run.{ok, Returns}
use libtta.Context.{State, eintr, epipe}
use libtta.Message.Laws.{message}
use libtta.Core.Session.{
  Reach, changed, socket, set, send, called, configured, outside, here, next, run,
}
use libtta.Strlcpy.Laws.{IsText}
use libtta.Rs485.Port.{Rs485 as SerialPort}
use libtta.Rs485.Modes.{new_rs485}
use libtta.Rs485.Device as SerialDevice
use libtta.Rs485.Session as SerialSession
use libtta.Rs485.Session.Laws.{IsKept, Reach-IsKept}
use libtta.Rs485.Session.Whole.{Reach-Delivered}
use libtta.Rs485.Session.Answer.{Reach-Answer}
use libtta.Core.Request.{Answer}
use libtta.Core.Send.{IsPatient}
use libtta.Base.Buffer.{overwrite}
use libtta.Rs485.Packet.Laws.{frame}
use libtta.Core.Api
use libtta.Core.Whole.{Delivered}
use libtta.Tests.Fixture.{calm_system, calm_system-IsCalm, line, line-SerialLaws, port}
use libtta.Tests.Session.{raw_ctx, made_ctx}

abbrev raw_port : SerialPort
raw_port = record port { device = replicate 16 7; confirmation_to_ignore = true }

abbrev opened : SerialPort
opened = record {
  device = b'/' ∷ 0 ∷ replicate 14 7;
  baud = pos 9600;
  data_bit = 8;
  stop_bit = 1;
  parity = b'N';
  old_tios = port.old_tios;
  rts = 0;
  confirmation_to_ignore = false;
}

abbrev written : State SerialPort (List ℕ)
written = record {
  ctx = made_ctx;
  backend_data = record opened { rts = 2 };
  errno = epipe;
  world = 1 ∷ 2 ∷ [];
}

slash : IsText (b'/' ∷ [])
slash = ground arith

rts_set :
    SerialSession.own line
      (SerialSession.rts 2)
      (record { ctx = made_ctx; backend_data = opened; errno = eintr; world = [] })
    ≡ ok (some 0, record written { errno = eintr; world = [] })
unfolding SerialSession.own libtta.Rs485.Modes.set_rts
rts_set = refl

run_serial_message :
    run calm_system 1
      (SerialDevice.backend line calm_system 1)
      (send (message 0 1 2 3 (10 ∷ [])))
      written
    ≡ ok (tt, written)
unfolding run libtta.Core.Api.send libtta.Rs485.Packet.conv_ttamsg2pkt libtta.Base.Buffer.store
    libtta.Base.Buffer.copy_bytes libtta.Checksum.sum_xor libtta.Checksum.sum_add
    libtta.Core.Engine.send_pkt libtta.Rs485.Port.send libtta.Base.Buffer.read_bytes
run_serial_message = refl

abbrev answered : State SerialPort (List ℕ)
answered = record written { ctx = record made_ctx { s = pos 3 }; world = frame 1 2 0x83 (7 ∷ []) }

socket_set :
    answered
    ≡ record written { ctx = set (socket (pos 3)) made_ctx; world = frame 1 2 0x83 (7 ∷ []) }
unfolding set libtta.Context.set_socket
socket_set = refl

made_port :
    new_rs485 raw_ctx raw_port (b'/' ∷ 0 ∷ []) (pos 9600) b'N' 8 1 eintr
    ≡ ok (some (made_ctx, opened), eintr)
unfolding new_rs485 libtta.Base.Buffer.store
made_port = refl

served :
    Reach calm_system 1
      (SerialDevice.backend line calm_system 1)
      SerialSession.Own
      (SerialSession.own line)
      (record { ctx = made_ctx; backend_data = opened; errno = eintr; world = [] })
      answered
served =
    next
      (next
        (next
          (next (next here (configured (SerialSession.rts 2) (some 0) rts_set))
            (outside (1 ∷ 2 ∷ []) epipe refl))
          (called (send (message 0 1 2 3 (10 ∷ []))) run_serial_message))
        (outside (frame 1 2 0x83 (7 ∷ [])) epipe refl))
      (changed (socket (pos 3)) socket_set)

Reach-IsKept_example : IsKept opened answered.backend_data
Reach-IsKept_example =
    Reach-IsKept line calm_system 1 calm_system-IsCalm line-SerialLaws raw_ctx raw_port (b'/' ∷ [])
      [] (pos 9600) b'N' 8 1 eintr eintr made_ctx opened [] answered slash (omega arith) made_port
      served

Reach-Delivered_example :
    Returns
      (Api.receive calm_system 1 (SerialDevice.backend line calm_system 1) true answered)
      (λ r _. Delivered r)
Reach-Delivered_example =
    Reach-Delivered line calm_system 1 calm_system-IsCalm line-SerialLaws raw_ctx raw_port
      (b'/' ∷ []) [] (pos 9600) b'N' 8 1 eintr eintr made_ctx opened [] answered true slash
      (omega arith) made_port served

line-IsPatient :
    IsPatient calm_system 1
      (SerialDevice.link line 1)
      (overwrite (replicate 260 0) (frame 1 2 3 (10 ∷ [])))
      8
unfolding libtta.Rs485.Port.send libtta.Rs485.Port.write_uart libtta.Rs485.Port.after_write
    libtta.Rs485.Port.wait_tx libtta.Rs485.Port.ioctl_rts libtta.Base.Buffer.read_bytes
line-IsPatient = record {
  failures = λ st. 0;
  failures-lt = λ st. omega arith;
  send_returns = λ st. elim (Bool-cases (st.backend_data.rts == 0)) [
    | inl none_set ↦ rw (none_set, Returns) (λ e. absurd (some≢none e))
    | inr by_hand ↦ rw (by_hand, Returns) (λ e. absurd (some≢none e))
  ];
}
  where
    some≢none : {n : ℕ} → some n ≢ none
    some≢none {n} e = cc

Reach-Answer_example :
    Returns
      (Api.request calm_system 1
        (SerialDevice.backend line calm_system 1)
        (message 0 1 2 3 (10 ∷ []))
        answered)
      (λ r _. Answer r)
Reach-Answer_example =
    Reach-Answer line calm_system 1 calm_system-IsCalm line-SerialLaws raw_ctx raw_port (b'/' ∷ [])
      [] (pos 9600) b'N' 8 1 eintr eintr made_ctx opened [] answered 0 1 2 3 (10 ∷ [])
      (length-replicate {A = ℕ} 260 0) (omega arith) line-IsPatient slash (omega arith) made_port
      served
