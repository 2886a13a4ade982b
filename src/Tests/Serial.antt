-- ===== src/Tests/Serial.antt =====
-- Packets on the serial line, from the message to the driver and back.
use libtta.Base.{
  ℕ, ◌≡◌, refl, pos, none, some, List, [], ◌∷◌, ◌++◌, length, length-replicate, replicate, ◌&&◌,
  ◌==◌, if◌then◌else◌, u8, arith,
}
use libtta.Base.Run.{ok, fault, Returns, pure}
use libtta.Context.{State, embbadcrc}
use libtta.Message.Laws.{message}
use libtta.Checksum.Laws.{xor_bytes, total}
use libtta.Packet.{check_sums, reject}
use libtta.Packet.Check.{check_sums_lem}
use libtta.Core.Api.{send}
use libtta.Rs485.Port.{Rs485, flush, write_uart}
use libtta.Rs485.Port.Laws.{Uart, write_uart-Uart}
use libtta.Rs485.Packet.{check_integrity}
use libtta.Rs485.Packet.Laws.{check_integrity-corrupted}
use libtta.Rs485.Modes.{new_rs485}
use libtta.Rs485.Modes.Laws.{Made, new_rs485-Made}
use libtta.Rs485.Device.{backend}
use libtta.Rs485.Device.Message.{send-frame, send-fault}
use libtta.Rs485.Device.Flag.{flush-Ends}
use libtta.Tests.Fixture.{calm_system, line, port, with_data}

abbrev idle : State Rs485 (List ℕ)
idle = with_data port []

abbrev two : List ℕ
two = 10 ∷ 20 ∷ []

-- The byte 10 arrives as 11.
check_integrity-corrupted_example :
    Returns
      (check_integrity line (0xF7 ∷ 1 ∷ 2 ∷ 3 ∷ 2 ∷ 11 ∷ 20 ∷ 235 ∷ 8 ∷ []) 9 idle)
      (λ rc t. (rc ≡ none) × (t.errno ≡ embbadcrc))
check_integrity-corrupted_example =
    check_integrity-corrupted line 7 1 2 3 two idle (flush-Ends line) (0xF7 ∷ 1 ∷ 2 ∷ 3 ∷ 2 ∷ [])
      (20 ∷ 235 ∷ 8 ∷ []) 10 11 refl (omega arith) (omega arith) (omega arith)

check_sums_lem_example :
    check_sums (flush line) (6 ∷ 5 ∷ 6 ∷ 11 ∷ []) 4 idle
    ≡ (if xor_bytes 0 (6 ∷ 5 ∷ []) == 6 && u8 (total (6 ∷ 5 ∷ 6 ∷ [])) == 11
          then pure (some 4)
          else reject (flush line))
        idle
check_sums_lem_example =
    check_sums_lem (flush line) 4 (6 ∷ 5 ∷ 6 ∷ 11 ∷ []) 6 11 idle refl (omega arith) refl refl

send-frame_example :
    send calm_system 1 (backend line calm_system 1) (message 7 1 2 3 two) idle
    ≡ ok (some 9, with_data port [])
send-frame_example =
    send-frame line calm_system 0 (length-replicate {A = ℕ} 260 0) 7 1 2 3 two idle [] (omega arith)
      refl refl

abbrev many : List ℕ
many = replicate 254 0

many-length : length many ≡ 254
many-length = length-replicate {A = ℕ} 254 0

send-fault_example :
    send calm_system 1 (backend line calm_system 1) (message 7 1 2 3 many) idle ≡ fault
send-fault_example =
    send-fault line calm_system 1 (length-replicate {A = ℕ} 260 0) 7 1 2 3 many idle
      (omega (arith, many-length))

write_uart-Uart_example :
    Uart line
      (pos 3)
      idle
      (line.write (pos 3) two [])
      (write_uart line (pos 3) (two ++ 0 ∷ []) 2 idle)
write_uart-Uart_example = write_uart-Uart line (pos 3) two (0 ∷ []) idle

-- The text "/dev/tty", 9600 baud, no parity, 8 bits and 1 stop bit.
abbrev tty : List ℕ
tty = b'/' ∷ b'd' ∷ b'e' ∷ b'v' ∷ b'/' ∷ b't' ∷ b't' ∷ b'y' ∷ []

abbrev raw_data : Rs485
raw_data = record port { device = replicate 16 7 }

new_rs485-Made_example :
    Returns
      (new_rs485 idle.ctx raw_data (tty ++ 0 ∷ []) (pos 9600) b'N' 8 1 embbadcrc)
      (Made raw_data tty (pos 9600) b'N' 8 1 embbadcrc)
new_rs485-Made_example =
    new_rs485-Made idle.ctx raw_data tty [] (pos 9600) b'N' 8 1 embbadcrc (ground arith)
      (omega arith)
