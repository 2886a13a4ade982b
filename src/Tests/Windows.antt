-- ===== src/Tests/Windows.antt =====
-- A Windows port that gives four bytes at a time.
use libtta.Base.{
  ℕ, ◌+◌, ◌≡◌, refl, sym, pos, true, false, some, List, [], ◌∷◌, ◌++◌, length, take, drop,
  length-take, length-replicate, take-append-drop, min, replicate, arith,
}
use libtta.Base.Run.{ok, Returns}
use libtta.Context.{State}
use libtta.Core.Engine.{receive_pkt}
use libtta.Rs485.Packet.Laws.{frame}
use libtta.Rs485.Win32.Settings.{Dcb, dcb_settings, cbr_9600, onestopbit, noparity}
use libtta.Rs485.Termios.{cleared, speed_of, line_settings}
use libtta.Rs485.Settings.{asked, termios_line, dcb_line, line_settings-dcb_settings}
use libtta.Rs485.Win32.{Windows, WinRs485, connect, link}
use libtta.Rs485.Win32.Open.{Opened, win32_connect-Opened}
use libtta.Rs485.Win32.Stream.{WindowsStream, IsIdle, read_twice, win32_ser_read-again}
use libtta.Rs485.Win32.Receive.{win32_receive-line}
use libtta.Tests.Fixture.{calm_system, with_data}

abbrev found_dcb : Dcb
found_dcb = record {
  baud_rate = cbr_9600;
  byte_size = 8;
  stop_bits = onestopbit;
  parity = noparity;
  f_parity = false;
  f_tx_continue_on_xoff = false;
  f_out_x = true;
  f_in_x = true;
  f_binary = true;
  f_abort_on_error = true;
  rest = 0;
}

abbrev windows : Windows (List ℕ)
windows = record {
  create_file = λ path w. (some 3, w);
  close_handle = λ h w. (true, w);
  get_comm_state = λ h w. (some found_dcb, w);
  set_comm_state = λ h dcb w. (true, w);
  set_comm_timeouts = λ h t w. w;
  read_file = λ h n w. (some (take (min n 4) w), drop (min n 4) w);
  write_file = λ h out w. (some (length out), w);
  flush_file_buffers = λ h w. (true, w);
  tiocmbic_rts = λ s w. w;
}

abbrev windows_stream : WindowsStream windows
windows_stream = record {
  line = λ w. w;
  timeouts_line = λ h t w. refl;
  read_some = λ h n w pos more. (
    take (min n 4) w,
    drop (min n 4) w,
    refl,
    omega (arith, length-take (min n 4) w),
    omega (arith, length-take (min n 4) w),
    sym (take-append-drop (min n 4) w),
  );
}

-- A port with `n` bytes read ahead into `buf`.
abbrev win_port : ℕ → List ℕ → WinRs485
win_port n buf = record {
  device = 67 ∷ [];
  baud = pos 9600;
  data_bit = 8;
  stop_bit = 1;
  parity = 78;
  w_ser = record { fd = some 3; buf = buf; n_bytes = n };
  old_dcb = found_dcb;
  confirmation_to_ignore = false;
}

abbrev fresh : List ℕ → State WinRs485 (List ℕ)
fresh w = with_data (win_port 0 (replicate 512 0)) w

win32_receive-line_example :
    (t : State WinRs485 (List ℕ)) × (t.world ≡ 99 ∷ [])
    × IsIdle windows windows_stream t
    × (receive_pkt calm_system 1 (link windows) 260 true (fresh (frame 1 2 3 (10 ∷ []) ++ 99 ∷ []))
        ≡ ok ((some 8, frame 1 2 3 (10 ∷ [])), t))
win32_receive-line_example =
    win32_receive-line windows windows_stream calm_system 1 1 2 3 (10 ∷ []) (99 ∷ []) (omega arith)
      true (fresh (frame 1 2 3 (10 ∷ []) ++ 99 ∷ [])) (refl, length-replicate {A = ℕ} 512 0) refl

win32_connect-Opened_example : Returns (connect windows (fresh [])) (Opened windows (fresh []))
win32_connect-Opened_example = win32_connect-Opened windows (fresh [])

-- Four bytes have been read ahead, and one byte is read, then two.
abbrev ahead : State WinRs485 (List ℕ)
ahead = with_data (win_port 4 (1 ∷ 2 ∷ 3 ∷ 4 ∷ 0 ∷ [])) []

win32_ser_read-again_example :
    Returns (read_twice 1 2 ahead) (λ r t.
      (r ≡ (some (1 ∷ []), some (1 ∷ 2 ∷ []))) × (t.backend_data.w_ser.n_bytes + (1 + 2) ≡ 4))
win32_ser_read-again_example = win32_ser_read-again 1 2 ahead (omega arith) (omega arith)

-- 19200 baud, 7 bits, 2 stop bits, even parity.
line_settings-dcb_settings_example :
    (termios_line (
        line_settings 7 2 b'E'
          (record cleared { ispeed = speed_of (pos 19200); ospeed = speed_of (pos 19200) }))
      ≡ asked (pos 19200) 7 2 b'E')
    × (dcb_line (dcb_settings (pos 19200) 7 2 b'E' found_dcb) ≡ asked (pos 19200) 7 2 b'E')
line_settings-dcb_settings_example = line_settings-dcb_settings (pos 19200) 7 2 b'E' found_dcb
