-- ===== src/Tests/Line.antt =====
-- A packet that arrives in two pieces.
use libtta.Base.{
  ℕ, ◌≡◌, refl, sym, true, false, some, List, [], ◌∷◌, ◌++◌, take, drop, length-take,
  take-append-drop, min, arith,
}
use libtta.Base.Run.{ok}
use libtta.Context.{State}
use libtta.Syscall.{bytes}
use libtta.Link.{Link}
use libtta.Core.Engine.{receive_pkt}
use libtta.Core.Api
use libtta.Core.Stream.{IsFirst, Delivers, Checks, receive_pkt-Checks}
use libtta.Message.Laws.{message}
use libtta.Rs485.Port.{Serial, Rs485}
use libtta.Rs485.Packet.Laws.{frame}
use libtta.Rs485.Device.{backend}
use libtta.Rs485.Device.Stream.{SerialStream, receive-line}
use libtta.Tests.Fixture.{calm_system, line, port, with_data}

-- At most four bytes are read at a time.
abbrev slow_line : Serial (List ℕ)
slow_line = record line { read = λ s n w. (bytes (take (min n 4) w), drop (min n 4) w) }

abbrev slow_line_stream : SerialStream slow_line
slow_line_stream = record {
  line = λ w. w;
  select_ready = λ s tv w h. (0, tv, w, refl, refl);
  read_some = λ s n w pos h. (
    take (min n 4) w,
    drop (min n 4) w,
    refl,
    omega (arith, length-take (min n 4) w),
    omega (arith, length-take (min n 4) w),
    sym (take-append-drop (min n 4) w),
  );
}

abbrev two : List ℕ
two = 10 ∷ 20 ∷ []

receive-line_example :
    (t : State Rs485 (List ℕ)) × (slow_line_stream.line t.world ≡ 99 ∷ [])
    × (Api.receive calm_system 1
          (backend slow_line calm_system 1)
          true
          (with_data port (frame 1 2 3 two ++ 99 ∷ []))
        ≡ ok ((some 9, some (message 0 1 2 3 two)), t))
receive-line_example =
    receive-line slow_line slow_line_stream calm_system 0 1 2 3 two (99 ∷ []) (omega arith) true
      (with_data port (frame 1 2 3 two ++ 99 ∷ [])) refl refl

-- A link that gives one byte at a time, and checks nothing.
abbrev byte_link : Link (Unit {0}) (List ℕ)
byte_link = record {
  header_length = 1;
  checksum_length = 0;
  max_adu_length = 256;
  connect = λ st. ok (some 0, st);
  close = λ st. ok (tt, st);
  send = λ pkt n st. ok (some n, st);
  recv = λ n st. ok (some (take 1 st.world), record st { world = drop 1 st.world });
  flush = λ st. ok (some 0, st);
  select = λ tv n st. ok (some 1, st);
  check_integrity = λ pkt n st. ok (some n, st);
}

abbrev byte_link_delivers : Delivers byte_link
byte_link_delivers = record {
  pending = λ st. st.world;
  idle = λ _. Unit;
  ready = λ _ _. Unit;
  select_waits = λ tv n st _ _ h. (refl, tt);
  recv_takes = λ n st _ pos h. (
    omega (arith, length-take 1 st.world),
    omega (arith, length-take 1 st.world),
    sym (take-append-drop 1 st.world),
    tt,
  );
}

packet-IsFirst : IsFirst byte_link 260 (2 ∷ 7 ∷ 8 ∷ [])
packet-IsFirst = record {
  len = 2;
  found = refl;
  size = refl;
  header_pos = omega arith;
  adu = omega arith;
  room = omega arith;
}

receive_pkt-Checks_example :
    Checks calm_system 1 byte_link 260 byte_link_delivers
      (2 ∷ 7 ∷ 8 ∷ [])
      (9 ∷ [])
      packet-IsFirst
      (receive_pkt calm_system 1 byte_link 260 false (with_data tt (2 ∷ 7 ∷ 8 ∷ 9 ∷ [])))
receive_pkt-Checks_example =
    receive_pkt-Checks calm_system 1 byte_link 260 byte_link_delivers (2 ∷ 7 ∷ 8 ∷ []) (9 ∷ [])
      packet-IsFirst false (with_data tt (2 ∷ 7 ∷ 8 ∷ 9 ∷ [])) refl tt
