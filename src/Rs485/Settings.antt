-- ===== src/Rs485/Settings.antt =====
-- The settings of the line in the words of a manual, and that both branches of `_tta_rs485_connect`
-- (src/tta_rs485.c) set the same ones.
use libtta.Base.{
  u8, ℕ, ℤ, pos, negsuc, int_is, ◌≡◌, Bool, false, if◌then◌else◌, ◌==◌, ◌||◌, List, [], ◌∷◌, arith,
}
use libtta.Rs485.Termios.{
  Speed, b0, b110, b300, b600, b1200, b2400, b4800, b9600, b19200, b38400, b57600, b115200,
  CharSize, cs5, cs6, cs7, cs8, Termios, cleared, speed_of, csize_of, line_settings,
}
use libtta.Rs485.Win32.Settings.{
  BaudRate, cbr_110, cbr_300, cbr_600, cbr_1200, cbr_2400, cbr_4800, cbr_9600, cbr_19200, cbr_38400,
  cbr_57600, cbr_115200, StopBits, onestopbit, twostopbits, Parity, noparity, evenparity, oddparity,
  Dcb, baud_rate_of, byte_size_of, dcb_settings,
}

pub data Check : Type 0 where
  unchecked even odd : Check

-- Bits per second in each direction, bits per character, stop bits, and the parity bit.
pub record Line : Type 0 where
  pub rate_in : ℕ
  pub rate_out : ℕ
  pub bits : ℕ
  pub stops : ℕ
  pub check : Check

abbrev pub rates : List ℕ
rates = 110 ∷ 300 ∷ 600 ∷ 1200 ∷ 2400 ∷ 4800 ∷ 9600 ∷ 19200 ∷ 38400 ∷ 57600 ∷ 115200 ∷ []

abbrev holds : List ℕ → ℤ → Bool
holds [] baud = false
holds (n ∷ ns) baud = int_is baud n || holds ns baud

abbrev magnitude : ℤ → ℕ
magnitude (pos n) = n
magnitude (negsuc n) = 0

-- What the fields of a context ask for: a rate that is not one of the eleven is 9600, a
-- size that is not 5 to 7 is 8, and more than one stop bit are two.
abbrev pub asked : ℤ → ℕ → ℕ → ℕ → Line
asked baud data_bit stop_bit parity =
    let rate = if holds rates baud then magnitude baud else 9600 in
    record {
      rate_in = rate;
      rate_out = rate;
      bits = if (data_bit == 5 || data_bit == 6) || data_bit == 7 then data_bit else 8;
      stops = if stop_bit == 1 then 1 else 2;
      check = if parity == b'N' then unchecked else if parity == b'E' then even else odd;
    }

abbrev speed_rate : Speed → ℕ
speed_rate b0 = 0
speed_rate b110 = 110
speed_rate b300 = 300
speed_rate b600 = 600
speed_rate b1200 = 1200
speed_rate b2400 = 2400
speed_rate b4800 = 4800
speed_rate b9600 = 9600
speed_rate b19200 = 19200
speed_rate b38400 = 38400
speed_rate b57600 = 57600
speed_rate b115200 = 115200

abbrev size_bits : CharSize → ℕ
size_bits cs5 = 5
size_bits cs6 = 6
size_bits cs7 = 7
size_bits cs8 = 8

-- What `struct termios` says.
abbrev pub termios_line : Termios → Line
termios_line tios = record {
  rate_in = speed_rate tios.ispeed;
  rate_out = speed_rate tios.ospeed;
  bits = size_bits tios.csize;
  stops = if tios.cstopb then 2 else 1;
  check = if tios.parenb then (if tios.parodd then odd else even) else unchecked;
}

abbrev baud_rate : BaudRate → ℕ
baud_rate cbr_110 = 110
baud_rate cbr_300 = 300
baud_rate cbr_600 = 600
baud_rate cbr_1200 = 1200
baud_rate cbr_2400 = 2400
baud_rate cbr_4800 = 4800
baud_rate cbr_9600 = 9600
baud_rate cbr_19200 = 19200
baud_rate cbr_38400 = 38400
baud_rate cbr_57600 = 57600
baud_rate cbr_115200 = 115200
baud_rate (BaudRate.other n) = n

abbrev stop_count : StopBits → ℕ
stop_count onestopbit = 1
stop_count twostopbits = 2

abbrev parity_check : Parity → Check
parity_check noparity = unchecked
parity_check evenparity = even
parity_check oddparity = odd

-- What the `DCB` says.
abbrev pub dcb_line : Dcb → Line
dcb_line dcb = record {
  rate_in = baud_rate dcb.baud_rate;
  rate_out = baud_rate dcb.baud_rate;
  bits = dcb.byte_size;
  stops = stop_count dcb.stop_bits;
  check = if dcb.f_parity then parity_check dcb.parity else unchecked;
}

speed_lem :
    (baud : ℤ) → speed_rate (speed_of baud) ≡ (if holds rates baud then magnitude baud else 9600)
unfolding speed_of
speed_lem baud = ground arith

baud_rate_lem :
    (baud : ℤ) → baud_rate (baud_rate_of baud) ≡ (if holds rates baud then magnitude baud else 9600)
unfolding baud_rate_of
baud_rate_lem baud = ground arith

csize_lem : (n : ℕ) → size_bits (csize_of n) ≡ (if (n == 5 || n == 6) || n == 7 then n else 8)
unfolding csize_of
csize_lem n = ground arith

byte_size_lem : (n : ℕ) → byte_size_of n ≡ (if (n == 5 || n == 6) || n == 7 then n else 8)
unfolding byte_size_of
byte_size_lem n = ground arith

Line-eq :
    (l l' : Line)
    → l.rate_in ≡ l'.rate_in
    → l.rate_out ≡ l'.rate_out
    → l.bits ≡ l'.bits
    → l.stops ≡ l'.stops
    → l.check ≡ l'.check
    → l ≡ l'
Line-eq l l' p q r s t =
    λ i. record { rate_in = p i; rate_out = q i; bits = r i; stops = s i; check = t i }

termios_asked :
    (baud : ℤ) (data_bit stop_bit parity : ℕ)
    → termios_line (
        line_settings data_bit stop_bit parity
          (record cleared { ispeed = speed_of baud; ospeed = speed_of baud }))
      ≡ asked baud data_bit stop_bit parity
unfolding line_settings
termios_asked baud data_bit stop_bit parity =
    Line-eq _ _ (speed_lem baud) (speed_lem baud) (csize_lem data_bit) (ground arith) (ground arith)

dcb_asked :
    (baud : ℤ) (data_bit stop_bit parity : ℕ) (dcb : Dcb)
    → dcb_line (dcb_settings baud data_bit stop_bit parity dcb)
      ≡ asked baud data_bit stop_bit parity
unfolding dcb_settings
dcb_asked baud data_bit stop_bit parity dcb =
    Line-eq _ _ (baud_rate_lem baud) (baud_rate_lem baud) (byte_size_lem data_bit) (ground arith)
      (ground arith)

-- Whatever was set before, the settings for POSIX over the speed that is set in both directions, and
-- those for Windows, say the same of the line: what the arguments of `tta_new_rs485` ask for once
-- the numbers of data bits and of stop bits are taken modulo 256, as the fields of the context hold
-- them.
pub line_settings-dcb_settings :
    (baud : ℤ) (data_bit stop_bit parity : ℕ) (dcb : Dcb)
    → (termios_line (
          line_settings
            (u8 data_bit)
            (u8 stop_bit)
            parity
            (record cleared { ispeed = speed_of baud; ospeed = speed_of baud }))
        ≡ asked baud (u8 data_bit) (u8 stop_bit) parity)
      × (dcb_line (dcb_settings baud (u8 data_bit) (u8 stop_bit) parity dcb)
          ≡ asked baud (u8 data_bit) (u8 stop_bit) parity)
line_settings-dcb_settings baud data_bit stop_bit parity dcb = (
  termios_asked baud (u8 data_bit) (u8 stop_bit) parity,
  dcb_asked baud (u8 data_bit) (u8 stop_bit) parity dcb,
)
