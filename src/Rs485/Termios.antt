-- ===== src/Rs485/Termios.antt =====
-- The line settings of the serial port: the part of `_tta_rs485_connect` that fills `struct termios`.
-- The flags are fields, since the code uses them by name only.
use libtta.Base.{ℕ, ℤ, int_is, Bool, true, false, if◌then◌else◌, ◌==◌}

-- `speed_t`.
pub data Speed : Type 0 where
  b0 b110 b300 b600 b1200 b2400 b4800 b9600 b19200 b38400 b57600 b115200 : Speed

pub data CharSize : Type 0 where
  cs5 cs6 cs7 cs8 : CharSize

pub record Termios : Type 0 where
  pub ispeed : Speed
  pub ospeed : Speed
  pub cread : Bool
  pub clocal : Bool
  pub csize : CharSize
  pub cstopb : Bool
  pub parenb : Bool
  pub parodd : Bool
  pub icanon : Bool
  pub echo : Bool
  pub echoe : Bool
  pub isig : Bool
  pub inpck : Bool
  pub ixon : Bool
  pub ixoff : Bool
  pub ixany : Bool
  pub opost : Bool
  pub vmin : ℕ
  pub vtime : ℕ

-- memset(&tios, 0, sizeof(struct termios)): no flag is set, and `CS5` and `B0` are zero.
abbrev pub cleared : Termios
cleared = record {
  ispeed = b0;
  ospeed = b0;
  cread = false;
  clocal = false;
  csize = cs5;
  cstopb = false;
  parenb = false;
  parodd = false;
  icanon = false;
  echo = false;
  echoe = false;
  isig = false;
  inpck = false;
  ixon = false;
  ixoff = false;
  ixany = false;
  opost = false;
  vmin = 0;
  vtime = 0;
}

-- `switch (ctx_rs485->baud)`; an unknown rate is 9600.
unfoldable pub speed_of : ℤ → Speed
speed_of baud =
    if int_is baud 110
    then b110
    else if int_is baud 300
    then b300
    else if int_is baud 600
    then b600
    else if int_is baud 1200
    then b1200
    else if int_is baud 2400
    then b2400
    else if int_is baud 4800
    then b4800
    else if int_is baud 9600
    then b9600
    else if int_is baud 19200
    then b19200
    else if int_is baud 38400
    then b38400
    else if int_is baud 57600
    then b57600
    else if int_is baud 115200
    then b115200
    else b9600

-- `switch (ctx_rs485->data_bit)`.
unfoldable pub csize_of : ℕ → CharSize
csize_of data_bit =
    if data_bit == 5 then cs5 else if data_bit == 6 then cs6 else if data_bit == 7 then cs7 else cs8

-- The settings for data bits, stop bits and parity, over the speeds that are already there.
unfoldable pub line_settings : ℕ → ℕ → ℕ → Termios → Termios
unfolding csize_of
line_settings data_bit stop_bit parity tios = record tios {
  cread = true;
  clocal = true;
  csize = csize_of data_bit;
  cstopb = if stop_bit == 1 then false else true;
  parenb = if parity == b'N' then false else true;
  parodd = if parity == b'N' then tios.parodd else if parity == b'E' then false else true;
  icanon = false;
  echo = false;
  echoe = false;
  isig = false;
  inpck = if parity == b'N' then false else true;
  ixon = false;
  ixoff = false;
  ixany = false;
  opost = false;
  vmin = 0;
  vtime = 0;
}
