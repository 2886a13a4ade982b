-- ===== src/Rs485/Win32/Settings.antt =====
-- The `DCB` that the Windows branch of `_tta_rs485_connect` fills, over the settings that it found.
use libtta.Base.{ℕ, ℤ, int_is, Bool, true, false, if◌then◌else◌, ◌==◌}

-- The constants `CBR_…`; `other` is a rate that was set before and that the code has no name for.
pub data BaudRate : Type 0 where
  cbr_110 cbr_300 cbr_600 cbr_1200 cbr_2400 cbr_4800 cbr_9600 cbr_19200 cbr_38400 cbr_57600
        cbr_115200 :
      BaudRate
  other : ℕ → BaudRate

pub data StopBits : Type 0 where
  onestopbit twostopbits : StopBits

pub data Parity : Type 0 where
  noparity evenparity oddparity : Parity

-- The fields that the code names; `rest` stands for the others.
pub record Dcb : Type 0 where
  pub baud_rate : BaudRate
  pub byte_size : ℕ
  pub stop_bits : StopBits
  pub parity : Parity
  pub f_parity : Bool
  pub f_tx_continue_on_xoff : Bool
  pub f_out_x : Bool
  pub f_in_x : Bool
  pub f_binary : Bool
  pub f_abort_on_error : Bool
  pub rest : ℕ

-- `switch (ctx_rs485->baud)`; an unknown rate is 9600.
unfoldable pub baud_rate_of : ℤ → BaudRate
baud_rate_of baud =
    if int_is baud 110
    then cbr_110
    else if int_is baud 300
    then cbr_300
    else if int_is baud 600
    then cbr_600
    else if int_is baud 1200
    then cbr_1200
    else if int_is baud 2400
    then cbr_2400
    else if int_is baud 4800
    then cbr_4800
    else if int_is baud 9600
    then cbr_9600
    else if int_is baud 19200
    then cbr_19200
    else if int_is baud 38400
    then cbr_38400
    else if int_is baud 57600
    then cbr_57600
    else if int_is baud 115200
    then cbr_115200
    else cbr_9600

-- `switch (ctx_rs485->data_bit)`.
unfoldable pub byte_size_of : ℕ → ℕ
byte_size_of data_bit =
    if data_bit == 5 then 5 else if data_bit == 6 then 6 else if data_bit == 7 then 7 else 8

unfoldable pub dcb_settings : ℤ → ℕ → ℕ → ℕ → Dcb → Dcb
unfolding baud_rate_of byte_size_of
dcb_settings baud data_bit stop_bit parity dcb = record dcb {
  baud_rate = baud_rate_of baud;
  byte_size = byte_size_of data_bit;
  stop_bits = if stop_bit == 1 then onestopbit else twostopbits;
  parity = if parity == b'N' then noparity else if parity == b'E' then evenparity else oddparity;
  f_parity = if parity == b'N' then false else true;
  f_tx_continue_on_xoff = true;
  f_out_x = false;
  f_in_x = false;
  f_binary = true;
  f_abort_on_error = false;
}
