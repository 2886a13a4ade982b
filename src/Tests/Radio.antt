-- ===== src/Tests/Radio.antt =====
-- A radio chip that hears a packet after a tenth of a second, and one that hears nothing.
use libtta.Base.{
  ltb, ℕ, ◌+◌, ◌/◌, ◌%◌, ◌≡◌, true, ◌==◌, if◌then◌else◌, List, [], ◌∷◌, length, replicate,
  length-replicate, arith,
}
use libtta.Base.Run.{fault}
use libtta.Context.{State}
use libtta.Syscall.{done}
use libtta.Link.{System, slept}
use libtta.Core.Api
use libtta.Core.Engine.{receive_pkt}
use libtta.Cc1120.Registers.{marcstate}
use libtta.Cc1120.Access.{Spi}
use libtta.Rf.Radio.{Rf}
use libtta.Rf.Packet.Laws.{frame}
use libtta.Rf.Transfer
use libtta.Rf.Transfer.Arrival.{held}
use libtta.Rf.Device
use libtta.Rf.Device.Overread.{with_fifo, rf_receive-fault}
use libtta.Tests.Fixture.{calm_system, chip, radio, context, with_data}

abbrev packet : List ℕ
packet = frame 1 2 3 4 1 2 3 (10 ∷ 20 ∷ [])

-- The packet has a good checksum: bit 7 of its last byte is set.
abbrev hearing : Spi (List ℕ)
hearing = record chip {
  read = λ fd addr n w. ((if addr == marcstate then 0x41 else length w) ∷ [], w);
  usleep = λ n w. held packet 200 128;
}

-- The world is the time in microseconds.
abbrev silent : Spi ℕ
silent = record {
  open_device = λ path w. (done 3, w);
  hw_reset = λ fd w. w;
  strobe = λ fd cmd w. (0 ∷ [], w);
  read = λ fd addr n w. ((if addr == marcstate then 0x41 else 0) ∷ [], w);
  write = λ fd addr n buf w. w;
  fifo_read = λ fd n w. (replicate 256 0, w);
  fifo_write = λ fd n buf w. w;
  fifo_dread = λ fd addr n w. ([], w);
  fifo_dwrite = λ fd addr n buf w. w;
  usleep = λ n w. w + n;
  gettimeofday = λ w. (record { tv_sec = w / 1000000; tv_usec = w % 1000000 }, w);
}

-- A chip that receives until 0.15 seconds, and then holds a byte, its length, and two of status.
abbrev receiving : Spi ℕ
receiving = record silent {
  read = λ fd addr n w.
      let busy = ltb w 150000 in
      (
        (if addr == marcstate then (if busy then 13 else 65) else (if busy then 1 else 4)) ∷ [],
        if addr == marcstate then w + 50000 else w,
      );
  fifo_read = λ fd n w. (1 ∷ 9 ∷ 0 ∷ 0x80 ∷ replicate 252 0, w);
}

abbrev timed : System ℕ
timed = record { nanosleep = λ sec nsec w. (slept, w); malloc = λ n. replicate n 0 }

abbrev early : State Rf ℕ
early = record {
  ctx = context;
  backend_data = radio;
  errno = (with_data radio []).errno;
  world = 0;
}

abbrev zeros : List ℕ
zeros = replicate 120 0

-- The length byte says 200.
rf_receive-fault_example :
    receive_pkt calm_system 1
      (Device.link chip calm_system 1)
      260
      true
      (with_fifo chip calm_system 1 (1 ∷ 2 ∷ 3 ∷ 4 ∷ 1 ∷ 2 ∷ 3 ∷ 200 ∷ zeros) (with_data radio []))
    ≡ fault
rf_receive-fault_example =
    rf_receive-fault chip calm_system 1 1 2 3 4 1 2 3 200 zeros true (with_data radio [])
      (length-replicate {A = ℕ} 120 0) (omega arith) (omega arith)
